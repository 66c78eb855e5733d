-- ===== src/Prelude/Decimal.antt =====
-- Whole numbers as decimal texts, and the parser's reading of them.
pub mod Parse
use Prim.Native.Nat.{ℕ, zero, suc, ◌+◌, ◌/◌, ◌%◌}
use mathlib.Core.Path.{◌≡◌, refl}
use mathlib.Core.Bool.{true, false}
use mathlib.Core.List.{[], ◌∷◌}
use btwattch2_rs.Prelude.Tests.{ltb}
use btwattch2_rs.Prelude.Int.{ℤ, pos, negsuc}
use btwattch2_rs.Prelude.Text.{Text}

-- The digits of `n` before `acc`.
abbrev pub digits_onto : ℕ → ℕ → Text → Text
digits_onto zero n acc = acc
digits_onto (suc fuel) n acc = elim (ltb n 10) [
  | true ↦ (b'0' + n) ∷ acc
  | false ↦ digits_onto fuel (n / 10) ((b'0' + n % 10) ∷ acc)
]

-- `to_string` of an unsigned number: a division by ten for each digit, so `n` of them are enough.
abbrev pub decimal : ℕ → Text
decimal n = digits_onto (suc n) n []

abbrev pub signed_decimal : ℤ → Text
signed_decimal (pos n) = decimal n
signed_decimal (negsuc n) = b'-' ∷ decimal (n + 1)

test_decimal : decimal 1609459200 ≡ 49 ∷ 54 ∷ 48 ∷ 57 ∷ 52 ∷ 53 ∷ 57 ∷ 50 ∷ 48 ∷ 48 ∷ []
test_decimal = refl
