-- ===== src/Examples/Slots.antt =====
-- The user name " Ada!", and the lower case of the ASCII letters alone.
use ssh_idlefarmer.Prelude.{true, ◌∷◌, [], List, ℕ, if◌then◌else◌, ◌≡◌, arith, leb, ◌&&◌, ◌+◌}
use ssh_idlefarmer.Identity.Slots.{is_slot_rune}

abbrev pub ascii_lower : ℕ → ℕ
ascii_lower r = if leb 65 r && leb r 90 then r + 32 else r

pub slots_stay_low : (r : ℕ) → is_slot_rune r ≡ true → ascii_lower r ≡ r
unfolding is_slot_rune
slots_stay_low r h = ground (arith, h)

abbrev pub ada : List ℕ
ada = 32 ∷ 65 ∷ 100 ∷ 97 ∷ 33 ∷ []
