-- ===== src/Tui/Format/Kept.antt =====
-- The text that `wrapIndent` of internal/tui/format.go returns, without white space.
use mathlib.Core.List.{append-nil, append_assoc, reverse, reverse-cons, reverse-reverse}
use ssh_idlefarmer.Prelude.{
  pos, false, true, false, ◌+◌, if◌then◌else◌, ltb, length, inr, inl, refl, ◌∷◌, [], List, ℕ, ◌++◌,
  ◌≡◌, Bool-cases, arith, ap, ◌∙◌, sym, ◌==◌, ℤ, ltb_ℤ, pos_part,
}
use ssh_idlefarmer.Tui.Format.{
  fields_from, Wrap, add_word, wrap_indent, add_words, joined_lines, wrapped_lines,
}
use ssh_idlefarmer.Prelude.Runes.{trim_space, trim_left, is_space}
use ssh_idlefarmer.Tui.Rule.{both_tests}

-- What is not white space.
abbrev pub inked : List ℕ → List ℕ
inked [] = []
inked (r ∷ rs) = let rest = inked rs in if is_space r then rest else r ∷ rest

abbrev flat : List (List ℕ) → List ℕ
flat [] = []
flat (l ∷ ls) = l ++ flat ls

inked-append : (xs ys : List ℕ) → inked (xs ++ ys) ≡ inked xs ++ inked ys
inked-append [] ys = refl
inked-append (x ∷ xs) ys = ground (arith, inked-append xs ys)

flat-append : (ls ms : List (List ℕ)) → flat (ls ++ ms) ≡ flat ls ++ flat ms
flat-append [] ms = refl
flat-append (l ∷ ls) ms =
    ap (λ (r : List ℕ). l ++ r) (flat-append ls ms) ∙ sym (append_assoc l (flat ls) (flat ms))

inked-trim_left : (xs : List ℕ) → inked (trim_left xs) ≡ inked xs
unfolding trim_left
inked-trim_left [] = refl
inked-trim_left (x ∷ xs) = elim (Bool-cases (is_space x)) [
  | inl e ↦ ground (arith, e, inked-trim_left xs)
  | inr e ↦ ground (arith, e)
]

last_inked :
    (x : ℕ) (ys : List ℕ)
    → reverse ys ++ inked (x ∷ []) ≡ reverse (if is_space x then ys else x ∷ ys)
last_inked x ys = elim (Bool-cases (is_space x)) [
  | inl e ↦ ground (arith, e, append-nil (reverse ys))
  | inr e ↦ ground (arith, e, reverse-cons x ys)
]

empty_word : (word : List ℕ) → ltb 0 (length word) ≡ false → word ≡ []
empty_word [] h = refl
empty_word (x ∷ xs) h = absurd (ground (arith, h))

no_length : (word : List ℕ) → (length word == 0) ≡ true → word ≡ []
no_length [] h = refl
no_length (x ∷ xs) h = absurd (ground (arith, h))

inked-reverse : (xs : List ℕ) → inked (reverse xs) ≡ reverse (inked xs)
inked-reverse [] = refl
inked-reverse (x ∷ xs) =
    ap inked (reverse-cons x xs)
    ∙ inked-append (reverse xs) (x ∷ [])
    ∙ ap (λ (r : List ℕ). r ++ inked (x ∷ [])) (inked-reverse xs)
    ∙ last_inked x (inked xs)

inked-trim_space : (xs : List ℕ) → inked (trim_space xs) ≡ inked xs
unfolding trim_space
inked-trim_space xs =
    let left = trim_left xs in
    inked-reverse (trim_left (reverse left))
    ∙ ap {B = List ℕ} reverse (inked-trim_left (reverse left) ∙ inked-reverse left)
    ∙ reverse-reverse (inked left)
    ∙ inked-trim_left xs

inked-fields :
    (word text : List ℕ) → inked (flat (fields_from word text)) ≡ inked word ++ inked text
unfolding fields_from
inked-fields [] [] = refl
inked-fields (x ∷ word) [] = ground (arith, append-nil (x ∷ word), append-nil (inked (x ∷ word)))
inked-fields word (r ∷ rs) = elim (Bool-cases (is_space r)) [
  | inl e ↦ elim (Bool-cases (ltb 0 (length word))) [
    | inl f ↦ ground (arith, e, f, inked-fields [] rs, inked-append word (flat (fields_from [] rs)))
    | inr f ↦ ground (arith, e, f, inked-fields [] rs, empty_word word)
  ]
  | inr e ↦ ground (
    arith,
    e,
    inked-fields (word ++ r ∷ []) rs,
    inked-append word (r ∷ []),
    append_assoc (inked word) (r ∷ []) (inked rs),
  )
]

-- What the loop has written.
abbrev written : Wrap → List ℕ
written st = inked (flat st.lines) ++ inked st.cur

flat_last :
    (ls : List (List ℕ)) (l : List ℕ) → inked (flat (ls ++ l ∷ [])) ≡ inked (flat ls) ++ inked l
flat_last ls l =
    ap inked (flat-append ls (l ∷ []))
    ∙ inked-append (flat ls) (flat (l ∷ []))
    ∙ ap (λ (r : List ℕ). inked (flat ls) ++ inked r) (append-nil l)

-- A space and a newline are white space.
blanks : (is_space 32 ≡ true) × (is_space 10 ≡ true)
unfolding is_space
blanks = (refl, refl)

add_word-written :
    (width : ℕ) (indent word : List ℕ) (st : Wrap)
    → inked indent ≡ []
    → written (add_word width indent word st) ≡ written st ++ inked word
unfolding add_word
add_word-written width indent word st blank =
    let joined = append_assoc (inked (flat st.lines)) (inked st.cur) (inked word) in
    let same = inked-append st.cur word in
    elim (Bool-cases (ltb (length indent) (length st.cur))) [
      | inr bare ↦ ground (arith, bare, joined, same)
      | inl begun ↦ elim (Bool-cases (ltb width (st.used + (length word + 1)))) [
        | inl over ↦
            ground (arith, begun, over, blank, flat_last st.lines st.cur, inked-append indent word)
        | inr room ↦ ground (arith, begun, room, joined, inked-append st.cur (32 ∷ word), blanks.0)
      ]
    ]

add_words-written :
    (width : ℕ) (indent : List ℕ) (words : List (List ℕ)) (st : Wrap)
    → inked indent ≡ []
    → written (add_words width indent words st) ≡ written st ++ inked (flat words)
unfolding add_words
add_words-written width indent [] st blank = sym (append-nil (written st))
add_words-written width indent (word ∷ words) st blank =
    let st' = add_word width indent word st in
    ground (
      arith,
      add_words-written width indent words st' blank,
      add_word-written width indent word st blank,
      inked-append word (flat words),
      append_assoc (written st) (inked word) (inked (flat words)),
    )

inked-joined : (ls : List (List ℕ)) → inked (joined_lines ls) ≡ inked (flat ls)
inked-joined [] = refl
inked-joined (l ∷ []) = ap inked (sym (append-nil l))
inked-joined (l ∷ m ∷ ls) = ground (
  arith,
  inked-append l (10 ∷ joined_lines (m ∷ ls)),
  blanks.1,
  inked-append l (flat (m ∷ ls)),
  inked-joined (m ∷ ls),
)

-- Without white space, the text that wrapIndent returns is the text that it gets, where the
-- indentation is white space.
pub wrap_indent-inked :
    (width : ℤ) (indent text : List ℕ)
    → inked indent ≡ []
    → inked (wrap_indent width indent text) ≡ inked text
unfolding wrap_indent wrapped_lines
wrap_indent-inked width indent text blank =
    let w = if ltb_ℤ width (pos 1) then 1 else pos_part width in
    let trimmed = trim_space text in
    let start : Wrap = record { lines = []; cur = indent; used = length indent } in
    let words = fields_from [] trimmed in
    let st = add_words w indent words start in
    let all : written st ≡ inked text =
      add_words-written w indent words start blank
      ∙ ap (λ (r : List ℕ). r ++ inked (flat words)) blank
      ∙ inked-fields [] trimmed
      ∙ inked-trim_space text in
    inked-joined (wrapped_lines width indent text)
    ∙ both_tests (λ (ls : List (List ℕ)). inked (flat ls) ≡ inked text) (length trimmed == 0) _ _
        (λ e. ground (arith, e, blank, append-nil indent, inked-trim_space text, no_length trimmed))
        (λ e.
          both_tests (λ (ls : List (List ℕ)). inked (flat ls) ≡ inked text) (ltb 0 (length st.cur))
            _ _ (λ e'. flat_last st.lines st.cur ∙ all)
            (λ e'. ground (arith, all, empty_word st.cur e', append-nil (inked (flat st.lines)))))
