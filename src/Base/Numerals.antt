-- ===== src/Base/Numerals.antt =====
-- Decimal numerals in texts: `str.isdigit` and `int`, over ASCII.
use Prim.Native.Nat.{ℕ, ◌+◌, ◌-◌, ◌*◌}
use mathlib.Core.Bool.{Bool, true, false, ◌&&◌}
use mathlib.Core.List.{[], ◌∷◌}
use stardatadblabs.Base.Tests.{leb, if◌then◌else◌}
use stardatadblabs.Base.Strings.{Text}

abbrev pub is_digit : ℕ → Bool
is_digit c = leb b'0' c && leb c b'9'

abbrev all_digits : Text → Bool
all_digits [] = true
all_digits (c ∷ s) = is_digit c && all_digits s

-- `s.isdigit()`
unfoldable pub is_numeral : Text → Bool
is_numeral [] = false
is_numeral (c ∷ s) = is_digit c && all_digits s

abbrev digits_from : ℕ → Text → ℕ
digits_from n [] = n
digits_from n (c ∷ s) = digits_from (n * 10 + (c - b'0')) s

-- `int(s) if s.isdigit() else default`
unfoldable pub int_or : ℕ → Text → ℕ
unfolding is_numeral
int_or default s = if is_numeral s then digits_from 0 s else default
