-- ===== src/Server/Terminal.antt =====
-- internal/server/teaprogram.go: the writer that keeps the cursor's column on Windows.
use ssh_idlefarmer.Prelude.{
  inr, inl, refl, false, ◌∷◌, [], some, none, ℕ, List, ◌≡◌, if◌then◌else◌, Bool, Option, arith,
  ◌==◌, not, length, ◌||◌, Bool-cases, ◌++◌,
}

abbrev pub newline : ℕ
newline = 10

-- ESC [ B
abbrev pub cursor_down : List ℕ
cursor_down = 27 ∷ 91 ∷ 66 ∷ []

-- The loop of `Write`.
unfoldable pub rewritten : List ℕ → List ℕ
rewritten [] = []
rewritten (b ∷ bs) =
    let rest = rewritten bs in if b == newline then cursor_down ++ rest else b ∷ rest

abbrev pub has_newline : List ℕ → Bool
has_newline [] = false
has_newline (b ∷ bs) = b == newline || has_newline bs

-- `cursorDownWriter.Write`, over a writer that answers how much it wrote and whether it failed.
unfoldable pub write :
    {E W : Type 0} → (List ℕ → W → (ℕ × Option E) × W) → List ℕ → W → (ℕ × Option E) × W
unfolding rewritten
write {E} under p w =
    let ((n, e), w') = under (rewritten p) w in
    if not (has_newline p)
    then under p w
    else elim e [ some x ↦ ((0, some x), w') | none ↦ ((length p, none), w') ]

-- A terminal: `feed` takes a byte, and `down` moves the cursor down in its column.
module _ {T : Type 0} (feed : ℕ → T → T) (down : T → T) where
  abbrev pub shown : List ℕ → T → T
  shown [] t = t
  shown (b ∷ bs) t = shown bs (feed b t)

  -- What the renderer expects of its bytes: a newline only moves down.
  abbrev pub expected : List ℕ → T → T
  expected [] t = t
  expected (b ∷ bs) t = expected bs (if b == newline then down t else feed b t)

  -- A connection to the terminal.
  abbrev pub to_terminal : {E : Type 0} → List ℕ → T → (ℕ × Option E) × T
  to_terminal p t = ((length p, none), shown p t)

  module _ (moves : (t : T) → feed 66 (feed 91 (feed 27 t)) ≡ down t) where
    shown-rewritten : (p : List ℕ) (t : T) → shown (rewritten p) t ≡ expected p t
    unfolding rewritten
    shown-rewritten [] t = refl
    shown-rewritten (b ∷ bs) t =
        ground (arith, moves t, shown-rewritten bs (down t), shown-rewritten bs (feed b t))

    unchanged : (p : List ℕ) (t : T) → has_newline p ≡ false → shown p t ≡ expected p t
    unchanged [] t h = refl
    unchanged (b ∷ bs) t h = ground (arith, h, unchanged bs (feed b t))

    -- On a terminal where ESC [ B moves the cursor down in its column, whatever a bare newline
    -- does there: the bytes of the renderer have the effect that it expects of them, and the
    -- writer answers that all of them were written.
    pub write-expected :
        {E : Type 0} (p : List ℕ) (t : T)
        → write (to_terminal {E = E}) p t ≡ ((length p, none), expected p t)
    unfolding write
    write-expected p t = elim (Bool-cases (has_newline p)) [
      | inl e ↦ ground (arith, e, shown-rewritten p t)
      | inr e ↦ ground (arith, e, unchanged p t e)
    ]
