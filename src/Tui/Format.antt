-- ===== src/Tui/Format.antt =====
-- internal/tui/format.go: the texts that the views show, as lists of code points.
use ssh_idlefarmer.Prelude.{
  ◌-◌, replicate, negsuc, pos, false, true, suc, zero, ◌∷◌, [], ℤ, List, ℕ, length, ltb, Bool, ◌++◌,
  if◌then◌else◌, ◌/◌, leb_ℤ, ◌%◌, ltb_ℤ, ◌+◌, ◌==◌, leb, ◌||◌, ◌&&◌, ◌⊖◌, pos_part, ◌⊗◌, ◌⊘◌, rem,
  eqb_ℤ,
}
use ssh_idlefarmer.Tui.Model.{drop}
use ssh_idlefarmer.Prelude.Runes.{is_space, between, trim_space}
pub mod Amounts
pub mod Wrapped
pub mod Cut
pub mod Kept

abbrev pub take : {A : Type 0} → ℕ → List A → List A
take zero xs = []
take (suc n) [] = []
take (suc n) (x ∷ xs) = x ∷ take n xs

-- `unicode.IsControl`
unfoldable pub is_control : ℕ → Bool
is_control r = ltb r 32 || between 127 159 r

unfoldable pub sanitize_text : List ℕ → List ℕ
sanitize_text [] = []
sanitize_text (r ∷ rs) =
    let rest = sanitize_text rs in if r == 27 || is_control r then rest else r ∷ rest

-- `%d` of a number below 10 ^ 20, which needs 20 rounds at most.
unfoldable pub digits_from : ℕ → ℕ → List ℕ → List ℕ
digits_from zero n out = out
digits_from (suc rounds) n out =
    let more = digits_from rounds (n / 10) ((48 + n % 10) ∷ out) in
    if ltb n 10 then (48 + n) ∷ out else more

unfoldable pub digits : ℕ → List ℕ
unfolding digits_from
digits n = digits_from 20 n []

-- `%d` of an int64
unfoldable pub decimal : ℤ → List ℕ
decimal (pos n) = digits n
decimal (negsuc n) = 45 ∷ digits (suc n)

-- The loop of `money`, with what is written so far.
unfoldable pub add_groups : List ℕ → List ℕ → List ℕ
add_groups out [] = out
add_groups out (a ∷ []) = out
add_groups out (a ∷ b ∷ []) = out
add_groups out (a ∷ b ∷ d ∷ rest) =
    add_groups ((if ltb 0 (length out) then out ++ 44 ∷ [] else out) ++ a ∷ b ∷ d ∷ []) rest

unfoldable pub grouped : List ℕ → List ℕ
unfolding add_groups
grouped s =
    let lead = length s % 3 in
    if ltb 3 (length s) then add_groups (take lead s) (drop lead s) else s

-- `-n` wraps around.
unfoldable pub money : ℤ → List ℕ
unfolding grouped decimal
money n =
    let s = grouped (decimal (if ltb_ℤ n (pos 0) then pos 0 ⊖ n else n)) in
    if ltb_ℤ n (pos 0) then 45 ∷ s else s

-- `%02d`
abbrev pub two_digits : ℤ → List ℕ
two_digits n = if ltb_ℤ n (pos 10) then 48 ∷ decimal n else decimal n

unfoldable pub duration : ℤ → List ℕ
unfolding decimal
duration secs =
    let s = if ltb_ℤ secs (pos 0) then pos 0 else secs in
    if ltb_ℤ s (pos 60)
    then decimal s ++ 115 ∷ []
    else if ltb_ℤ s (pos 3600)
    then decimal (s ⊘ pos 60) ++ 109 ∷ 32 ∷ two_digits (rem s (pos 60)) ++ 115 ∷ []
    else if ltb_ℤ s (pos 86400)
    then decimal (s ⊘ pos 3600) ++ 104 ∷ 32 ∷ two_digits (rem s (pos 3600) ⊘ pos 60) ++ 109 ∷ []
    else decimal (s ⊘ pos 86400) ++ 100 ∷ 32 ∷ decimal (rem s (pos 86400) ⊘ pos 3600) ++ 104 ∷ []

-- `strings.Repeat` is `replicate`.
unfoldable pub progress_bar : ℤ → ℤ → List ℕ
progress_bar pct width =
    let w = if ltb_ℤ width (pos 1) then pos 1 else width in
    let low = if ltb_ℤ pct (pos 0) then pos 0 else pct in
    let p = if ltb_ℤ (pos 100) low then pos 100 else low in
    let filled = (p ⊗ w) ⊘ pos 100 in
    replicate (pos_part filled) 0x25B0 ++ replicate (pos_part (w ⊖ filled)) 0x25B1

-- A fingerprint is ASCII, so that its bytes are its code points.
unfoldable pub short_fingerprint : List ℕ → List ℕ
short_fingerprint fp = if leb (length fp) 19 then fp else take 19 fp ++ 0x2026 ∷ []

unfoldable pub truncate : List ℕ → ℤ → List ℕ
truncate s max =
    if leb_ℤ max (pos 0)
    then []
    else if leb (length s) (pos_part max)
    then s
    else if eqb_ℤ max (pos 1)
    then 0x2026 ∷ []
    else take (pos_part max - 1) s ++ 0x2026 ∷ []

-- `strings.Fields`, with the word so far.
unfoldable pub fields_from : List ℕ → List ℕ → List (List ℕ)
fields_from word [] = if ltb 0 (length word) then word ∷ [] else []
fields_from word (r ∷ rs) = elim (is_space r) [
  | false ↦ fields_from (word ++ r ∷ []) rs
  | true ↦ if ltb 0 (length word) then word ∷ fields_from [] rs else fields_from [] rs
]

-- The variables of the loop of `wrapIndent`.
pub record Wrap : Type 0 where
  pub lines : List (List ℕ)
  pub cur : List ℕ
  pub used : ℕ

unfoldable pub add_word : ℕ → List ℕ → List ℕ → Wrap → Wrap
add_word width indent word st =
    let begun = ltb (length indent) (length st.cur) in
    let extra = if begun then length word + 1 else length word in
    let s : Wrap =
      if ltb width (st.used + extra) && begun
      then record { lines = st.lines ++ st.cur ∷ []; cur = indent; used = length indent }
      else st in
    if ltb (length indent) (length s.cur)
    then record s { cur = s.cur ++ 32 ∷ word; used = s.used + 1 + length word }
    else record s { cur = s.cur ++ word; used = s.used + length word }

unfoldable pub add_words : ℕ → List ℕ → List (List ℕ) → Wrap → Wrap
unfolding add_word
add_words width indent [] st = st
add_words width indent (word ∷ words) st =
    add_words width indent words (add_word width indent word st)

-- The lines, before `strings.Join` with newlines.
unfoldable pub wrapped_lines : ℤ → List ℕ → List ℕ → List (List ℕ)
unfolding add_words fields_from
wrapped_lines width indent text =
    let w = if ltb_ℤ width (pos 1) then 1 else pos_part width in
    let trimmed = trim_space text in
    let start : Wrap = record { lines = []; cur = indent; used = length indent } in
    let st = add_words w indent (fields_from [] trimmed) start in
    if length trimmed == 0
    then indent ∷ []
    else if ltb 0 (length st.cur)
    then st.lines ++ st.cur ∷ []
    else st.lines

abbrev pub joined_lines : List (List ℕ) → List ℕ
joined_lines [] = []
joined_lines (l ∷ []) = l
joined_lines (l ∷ m ∷ ls) = l ++ 10 ∷ joined_lines (m ∷ ls)

unfoldable pub wrap_indent : ℤ → List ℕ → List ℕ → List ℕ
unfolding wrapped_lines
wrap_indent width indent text = joined_lines (wrapped_lines width indent text)
