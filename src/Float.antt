-- ===== src/Float.antt =====
-- The floating-point numbers, as an interface: what the code computes with `f64`.
use btwattch2_rs.Prelude.{ℕ, Bool, List}

pub record Float : Type 1 where
  pub F64 : Type 0
  pub of_u64 : ℕ → F64
  pub div : F64 → F64 → F64
  pub mul : F64 → F64 → F64
  -- `x > 0.0`.
  pub is_pos : F64 → Bool
  pub add : F64 → F64 → F64
  pub minimum : F64 → F64 → F64
  pub maximum : F64 → F64 → F64
  pub infinity : F64
  pub neg_infinity : F64
  -- `{}`, and `{:.n}`.
  pub display : F64 → List ℕ
  pub fixed : ℕ → F64 → List ℕ
  pub round : F64 → F64
  -- `as u64`.
  pub to_u64 : F64 → ℕ
