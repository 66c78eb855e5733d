-- ===== src/Prelude/Int.antt =====
-- Signed numbers: `negsuc n` is -(n + 1).
use Prim.Native.Nat.{ℕ, ◌+◌, ◌-◌, compare, Ordering}

pub data ℤ : Type 0 where
  pos : ℕ → ℤ
  negsuc : ℕ → ℤ

-- a - b, as an integer.
abbrev pub sub_ℕ : ℕ → ℕ → ℤ
sub_ℕ a b = elim (compare a b) [ Ordering.lt ↦ negsuc (b - a - 1) | _ ↦ pos (a - b) ]

-- Less a natural number.
infixl 65 ◌-ℕ◌
abbrev pub ◌-ℕ◌ : ℤ → ℕ → ℤ
◌-ℕ◌ (pos a) n = sub_ℕ a n
◌-ℕ◌ (negsuc a) n = negsuc (a + n)
