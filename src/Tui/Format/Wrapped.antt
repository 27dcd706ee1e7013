-- ===== src/Tui/Format/Wrapped.antt =====
-- The widths of the lines of `wrapIndent` of internal/tui/format.go.
use mathlib.Core.List.{append-nil, append_assoc}
use mathlib.Core.Path.{subst}
use ssh_idlefarmer.Tui.Rule.{both_branches}
use ssh_idlefarmer.Prelude.{
  if◌then◌else◌, ltb_ℤ, pos_part, ◌==◌, pos, inr, inl, refl, true, ◌∷◌, [], ℕ, List, length, Bool,
  ◌≡◌, ◌++◌, not, arith, ◌+◌, ◌≤◌, ◌&&◌, Bool-cases, all_runes, ltb, length-append, sym, ℤ, ◌∙◌, ap,
}
use ssh_idlefarmer.Tui.Format.{fields_from, Wrap, add_word, wrapped_lines, add_words}
use ssh_idlefarmer.Prelude.Runes.{is_space, trim_space}

abbrev pub no_spaces : List ℕ → Bool
no_spaces = all_runes (λ r. not (is_space r))

abbrev pub all_no_spaces : List (List ℕ) → Bool
all_no_spaces [] = true
all_no_spaces (w ∷ ws) = no_spaces w && all_no_spaces ws

-- A line fits the width, or it is the indentation and one word.
pub data Fits (width : ℕ) (indent : List ℕ) : List ℕ → Type 0 where
  short : {l : List ℕ} → length l ≤ width → Fits width indent l
  lone : (word : List ℕ) → no_spaces word ≡ true → Fits width indent (indent ++ word)

abbrev pub AllFit : ℕ → List ℕ → List (List ℕ) → Type 0
AllFit width indent [] = Unit {0}
AllFit width indent (l ∷ ls) = Fits width indent l × AllFit width indent ls

AllFit-append :
    (width : ℕ) (indent : List ℕ) (ls : List (List ℕ)) (l : List ℕ)
    → AllFit width indent ls
    → Fits width indent l
    → AllFit width indent (ls ++ l ∷ [])
AllFit-append width indent [] l h f = (f, tt)
AllFit-append width indent (m ∷ ls) l h f = (h.0, AllFit-append width indent ls l h.1 f)

-- The loop: `used` is the width of the line so far, which starts with the indentation.
record Wrapping (width : ℕ) (indent : List ℕ) (st : Wrap) : Type 0 where
  lines_ok : AllFit width indent st.lines
  cur_ok : Fits width indent st.cur
  used_ok : st.used ≡ length st.cur
  body : List ℕ
  starts : st.cur ≡ indent ++ body

no_spaces-++ : (xs ys : List ℕ) → no_spaces (xs ++ ys) ≡ (no_spaces xs && no_spaces ys)
no_spaces-++ [] ys = refl
no_spaces-++ (x ∷ xs) ys = ground (arith, no_spaces-++ xs ys)

fields-no_spaces :
    (word text : List ℕ) → no_spaces word ≡ true → all_no_spaces (fields_from word text) ≡ true
unfolding fields_from
fields-no_spaces word [] h = ground (arith, h)
fields-no_spaces word (r ∷ rs) h = elim (Bool-cases (is_space r)) [
  | inl e ↦ ground (arith, e, h, fields-no_spaces [] rs refl)
  | inr e ↦
      let clean : no_spaces (word ++ r ∷ []) ≡ true =
        ground (arith, e, h, no_spaces-++ word (r ∷ [])) in
      ground (arith, e, fields-no_spaces (word ++ r ∷ []) rs clean)
]

-- A line that has the indentation and one word.
abbrev one_word : List (List ℕ) → List ℕ → List ℕ → Wrap
one_word ls indent word = record {
  lines = ls;
  cur = indent ++ word;
  used = length indent + length word;
}

one_word-Wrapping :
    (width : ℕ) (indent word : List ℕ) (ls : List (List ℕ))
    → AllFit width indent ls
    → no_spaces word ≡ true
    → Wrapping width indent (one_word ls indent word)
one_word-Wrapping width indent word ls h clean = record {
  lines_ok = h;
  cur_ok = lone word clean;
  used_ok = sym (length-append indent word);
  body = word;
  starts = refl;
}

no_body : (indent body : List ℕ) → length (indent ++ body) ≤ length indent → indent ++ body ≡ indent
no_body indent [] h = append-nil indent
no_body indent (r ∷ body) h = absurd (ground (arith, h, length-append indent (r ∷ body)))

add_word-Wrapping :
    (width : ℕ) (indent word : List ℕ) (st : Wrap)
    → no_spaces word ≡ true
    → Wrapping width indent st
    → Wrapping width indent (add_word width indent word st)
unfolding add_word
add_word-Wrapping width indent word st clean h =
    elim (Bool-cases (ltb (length indent) (length st.cur))) [
      | inr bare ↦
          let short_line : length (indent ++ h.body) ≤ length indent =
            subst (λ l. length l ≤ length indent) h.starts (ground (arith, bare)) in
          let same : st.cur ≡ indent = h.starts ∙ no_body indent h.body short_line in
          let next : add_word width indent word st ≡ one_word st.lines indent word =
            ground (arith, bare, same, h.used_ok) in
          subst (Wrapping width indent) (sym next)
            (one_word-Wrapping width indent word st.lines h.lines_ok clean)
      | inl begun ↦ elim (Bool-cases (ltb width (st.used + (length word + 1)))) [
        | inl over ↦
            let next : add_word width indent word st
                ≡ one_word (st.lines ++ st.cur ∷ []) indent word =
              ground (arith, begun, over) in
            subst (Wrapping width indent) (sym next) (
              one_word-Wrapping width indent word (st.lines ++ st.cur ∷ [])
                (AllFit-append width indent st.lines st.cur h.lines_ok h.cur_ok) clean)
        | inr room ↦
            let longer : Wrap = record st {
              cur = st.cur ++ 32 ∷ word;
              used = st.used + 1 + length word;
            } in
            let next : add_word width indent word st ≡ longer = ground (arith, begun, room) in
            let size = length-append st.cur (32 ∷ word) in
            subst (Wrapping width indent) (sym next) (record {
              lines_ok = h.lines_ok;
              cur_ok = short (ground (arith, room, size, h.used_ok));
              used_ok = ground (arith, size, h.used_ok);
              body = h.body ++ 32 ∷ word;
              starts =
                  ap (λ (l : List ℕ). l ++ 32 ∷ word) h.starts
                  ∙ append_assoc indent h.body (32 ∷ word);
            })
      ]
    ]

add_words-Wrapping :
    (width : ℕ) (indent : List ℕ) (words : List (List ℕ)) (st : Wrap)
    → all_no_spaces words ≡ true
    → Wrapping width indent st
    → Wrapping width indent (add_words width indent words st)
unfolding add_words
add_words-Wrapping width indent [] st clean h = h
add_words-Wrapping width indent (word ∷ words) st clean h =
    add_words-Wrapping width indent words (add_word width indent word st) (ground (arith, clean))
      (add_word-Wrapping width indent word st (ground (arith, clean)) h)

start_Wrapping :
    (width : ℕ) (indent : List ℕ)
    → Wrapping width indent (record { lines = []; cur = indent; used = length indent })
start_Wrapping width indent = record {
  lines_ok = tt;
  cur_ok = subst (Fits width indent) (append-nil indent) (lone [] refl);
  used_ok = refl;
  body = [];
  starts = sym (append-nil indent);
}

-- Every line of wrapIndent is at most as wide as the width, which counts as 1 where it is less, or
-- it is the indentation with one word without spaces.
pub wrapped_lines-AllFit :
    (width : ℤ) (indent text : List ℕ)
    → AllFit
        (if ltb_ℤ width (pos 1) then 1 else pos_part width)
        indent
        (wrapped_lines width indent text)
unfolding wrapped_lines
wrapped_lines-AllFit width indent text =
    let w = if ltb_ℤ width (pos 1) then 1 else pos_part width in
    let start : Wrap = record { lines = []; cur = indent; used = length indent } in
    let words = fields_from [] (trim_space text) in
    let clean = fields-no_spaces [] (trim_space text) refl in
    let h = add_words-Wrapping w indent words start clean (start_Wrapping w indent) in
    let st = add_words w indent words start in
    both_branches (AllFit w indent) (length (trim_space text) == 0) _ _
      ((start_Wrapping w indent).cur_ok, tt)
      (both_branches (AllFit w indent) (ltb 0 (length st.cur)) _ _
        (AllFit-append w indent st.lines st.cur h.lines_ok h.cur_ok) h.lines_ok)
