-- ===== src/Prelude/Decimal/Parse.antt =====
-- The parser reads a decimal text back.
use btwattch2_rs.Prelude.{
  ℕ, zero, suc, ◌+◌, ◌-◌, ◌*◌, ◌/◌, ◌%◌, ◌≤◌, ◌<◌, ◌≡◌, refl, sym, ap, ◌∙◌, subst, arith, ltb, leb,
  ◌==◌, ◌&&◌, true, false, Bool-cases, inl, inr, [], ◌∷◌, some, All,
}
use btwattch2_rs.Prelude.Text.{Text, is_empty_text, digits_value, unsigned, parse_radix}
use btwattch2_rs.Prelude.Decimal.{digits_onto, decimal}

abbrev pub IsDigit : ℕ → Type 0
IsDigit c = (48 ≤ c) × (c ≤ 57)

digits_onto-last :
    (fuel n : ℕ) (acc : Text) → ltb n 10 ≡ true → digits_onto (suc fuel) n acc ≡ (48 + n) ∷ acc
digits_onto-last fuel n acc k = rw (digits_onto, k) refl

digits_onto-more :
    (fuel n : ℕ) (acc : Text)
    → ltb n 10 ≡ false
    → digits_onto (suc fuel) n acc ≡ digits_onto fuel (n / 10) ((48 + n % 10) ∷ acc)
digits_onto-more fuel n acc k = rw (digits_onto, k) refl

digits_onto-IsDigit :
    (fuel n : ℕ) (acc : Text) → All IsDigit acc → All IsDigit (digits_onto fuel n acc)
digits_onto-IsDigit zero n acc h = h
digits_onto-IsDigit (suc fuel) n acc h = elim (Bool-cases (ltb n 10)) [
  | inl k ↦
      subst (All IsDigit) (sym (digits_onto-last fuel n acc k))
        ((omega arith, ground (arith, k)), h)
  | inr k ↦
      subst (All IsDigit) (sym (digits_onto-more fuel n acc k))
        (digits_onto-IsDigit fuel (n / 10) ((48 + n % 10) ∷ acc) ((omega arith, omega arith), h))
]

pub decimal-IsDigit : (n : ℕ) → All IsDigit (decimal n)
decimal-IsDigit n = digits_onto-IsDigit (suc n) n [] tt

-- A digit is read.
digits_value-cons :
    (limit value d : ℕ) (acc : Text)
    → d < 10
    → value * 10 + d < limit
    → digits_value 10 limit value ((48 + d) ∷ acc) ≡ digits_value 10 limit (value * 10 + d) acc
digits_value-cons limit value d acc h k =
    let same : 48 + d - 48 ≡ d = omega arith in
    let fits : (leb 48 (48 + d) && ltb (48 + d - 48) 10 && ltb (value * 10 + (48 + d - 48)) limit)
        ≡ true =
      ground arith in
    rw (digits_value, fits) (ap (λ x. digits_value 10 limit (value * 10 + x) acc) same)

digits_value-digits_onto :
    (fuel limit n : ℕ) (acc : Text)
    → n < fuel
    → n < limit
    → digits_value 10 limit 0 (digits_onto fuel n acc) ≡ digits_value 10 limit n acc
digits_value-digits_onto zero limit n acc h k = absurd (omega arith)
digits_value-digits_onto (suc fuel) limit n acc h k = elim (Bool-cases (ltb n 10)) [
  | inl l ↦
      ap (digits_value 10 limit 0) (digits_onto-last fuel n acc l)
      ∙ digits_value-cons limit 0 n acc (ground (arith, l)) (omega arith)
      ∙ ap (λ x. digits_value 10 limit x acc) (omega arith)
  | inr l ↦
      let big : 10 ≤ n = ground (arith, l) in
      ap (digits_value 10 limit 0) (digits_onto-more fuel n acc l)
      ∙ digits_value-digits_onto fuel limit (n / 10) ((48 + n % 10) ∷ acc) (omega arith)
          (omega arith)
      ∙ digits_value-cons limit (n / 10) (n % 10) acc (omega arith) (omega arith)
      ∙ ap (λ x. digits_value 10 limit x acc) (omega arith)
]

digits_onto-nonempty :
    (fuel n c : ℕ) (acc : Text) → is_empty_text (digits_onto fuel n (c ∷ acc)) ≡ false
digits_onto-nonempty zero n c acc = refl
digits_onto-nonempty (suc fuel) n c acc = elim (Bool-cases (ltb n 10)) [
  | inl k ↦ ap is_empty_text (digits_onto-last fuel n (c ∷ acc) k)
  | inr k ↦
      ap is_empty_text (digits_onto-more fuel n (c ∷ acc) k)
      ∙ digits_onto-nonempty fuel (n / 10) (48 + n % 10) (c ∷ acc)
]

decimal-nonempty : (n : ℕ) → is_empty_text (decimal n) ≡ false
decimal-nonempty n = elim (Bool-cases (ltb n 10)) [
  | inl k ↦ ap is_empty_text (digits_onto-last n n [] k)
  | inr k ↦
      ap is_empty_text (digits_onto-more n n [] k)
      ∙ digits_onto-nonempty n (n / 10) (48 + n % 10) []
]

unsigned-IsDigit : (s : Text) → All IsDigit s → unsigned s ≡ s
unsigned-IsDigit [] h = refl
unsigned-IsDigit (c ∷ cs) h =
    let other : (c == b'+') ≡ false = ground (arith, h.0) in rw (unsigned, other) refl

-- A number below the limit is parsed from its decimal text.
pub parse_radix-decimal : (limit n : ℕ) → n < limit → parse_radix 10 limit (decimal n) ≡ some n
parse_radix-decimal limit n h =
    rw (parse_radix, unsigned-IsDigit (decimal n) (decimal-IsDigit n), decimal-nonempty n)
      (digits_value-digits_onto (suc n) limit n [] (omega arith) h)
