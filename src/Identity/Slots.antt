-- ===== src/Identity/Slots.antt =====
-- internal/identity/identity.go: `SanitizeSlot` and `ResolveSlot`, on texts as lists of code points.
-- maxSlotLen
use ssh_idlefarmer.Prelude.{false, true, suc, ◌∷◌, [], ℕ, Bool, List, leb, map, ◌||◌, ◌==◌}
use ssh_idlefarmer.Prelude.Runes.{between, trim_space}

abbrev pub max_slot_len : ℕ
max_slot_len = 32

-- `a-z`, `0-9`, `-` and `_`
unfoldable pub is_slot_rune : ℕ → Bool
is_slot_rune r = between 97 122 r || between 48 57 r || r == 45 || r == 95

-- The loop, with the length so far: other runes are skipped, and it ends at the length limit.
unfoldable pub keep_runes : ℕ → List ℕ → List ℕ
keep_runes n [] = []
keep_runes n (r ∷ rs) = elim (is_slot_rune r) [
  | true ↦ r ∷ (elim (leb max_slot_len (suc n)) [ true ↦ [] | false ↦ keep_runes (suc n) rs ])
  | false ↦ keep_runes n rs
]

-- `strings.ToLower` maps each rune by the Unicode tables, which are a parameter.
module _ (to_lower : ℕ → ℕ) where
  unfoldable pub sanitize_slot : List ℕ → List ℕ
  sanitize_slot raw = keep_runes 0 (map to_lower (trim_space raw))

  unfoldable pub resolve_slot : List ℕ → List ℕ → List ℕ
  resolve_slot username default_slot = elim (sanitize_slot username) [
    | [] ↦ sanitize_slot default_slot
    | ◌∷◌ r rs ↦ r ∷ rs
  ]
