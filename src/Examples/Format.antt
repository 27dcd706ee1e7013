-- ===== src/Examples/Format.antt =====
-- The theorems on the texts of the views.
use ssh_idlefarmer.Prelude.{◌⊖◌, negsuc, pos, ◌∷◌, [], refl, List, ◌≡◌, ℕ, max_int64, arith}
use ssh_idlefarmer.Prelude.Runes.{is_space}
use ssh_idlefarmer.Tui.Format.Kept.{inked, wrap_indent-inked}
use ssh_idlefarmer.Tui.Format.Amounts.{value, money-value}
use ssh_idlefarmer.Tui.Format.Wrapped.{AllFit, wrapped_lines-AllFit}
use ssh_idlefarmer.Tui.Format.{digits, money, take, wrap_indent, wrapped_lines}

-- "a farm by night", indented by two spaces, at a width of nine.
abbrev motto : List ℕ
motto = 97 ∷ 32 ∷ 102 ∷ 97 ∷ 114 ∷ 109 ∷ 32 ∷ 98 ∷ 121 ∷ 32 ∷ 110 ∷ 105 ∷ 103 ∷ 104 ∷ 116 ∷ []

wrapped_lines-AllFit_example : AllFit 9 (32 ∷ 32 ∷ []) (wrapped_lines (pos 9) (32 ∷ 32 ∷ []) motto)
wrapped_lines-AllFit_example = wrapped_lines-AllFit (pos 9) (32 ∷ 32 ∷ []) motto

two_spaces : inked (32 ∷ 32 ∷ []) ≡ []
unfolding is_space
two_spaces = refl

wrap_indent-inked_example : inked (wrap_indent (pos 9) (32 ∷ 32 ∷ []) motto) ≡ inked motto
wrap_indent-inked_example = wrap_indent-inked (pos 9) (32 ∷ 32 ∷ []) motto two_spaces

money-value_example : value (money (pos 1234567)) 0 ≡ 1234567
money-value_example = money-value 1234567 (omega arith)

-- "1,234,567"
millions : money (pos 1234567) ≡ 49 ∷ 44 ∷ 50 ∷ 51 ∷ 52 ∷ 44 ∷ 53 ∷ 54 ∷ 55 ∷ []
unfolding money digits
millions = refl

-- "--9,223,372,036,854,775,808" of the least int64, with two signs
two_signs : take 3 (money (negsuc max_int64)) ≡ 45 ∷ 45 ∷ 57 ∷ []
unfolding money ◌⊖◌ digits
two_signs = refl
