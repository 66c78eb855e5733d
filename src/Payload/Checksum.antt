-- ===== src/Payload/Checksum.antt =====
-- The checksum of payload.rs: its range, and the errors that it detects.
use btwattch2_rs.Prelude.{
  ℕ, ◌+◌, ◌/◌, ◌%◌, ◌<◌, ◌≡◌, refl, ap, sym, ◌∙◌, arith, bit_xor, zero, suc, true, ltb, ◌==◌,
  ==_iff, if◌then◌else◌, [], ◌∷◌, ◌++◌, Bytes, IsBytes, all_below, all_below_sound, bit_xor-lt,
  bit_xor_cancel, bit_xor_comm, ◌≢◌,
}
use btwattch2_rs.Payload.{crc8_bits, crc8_byte, crc8_from, crc8}

-- The step back: the polynomial is odd, and a shift leaves an even number.
uncrc8_bit : ℕ → ℕ
uncrc8_bit crc = if crc % 2 == 1 then bit_xor crc 0x85 / 2 + 128 else crc / 2

uncrc8_bits : ℕ → ℕ → ℕ
uncrc8_bits zero crc = crc
uncrc8_bits (suc n) crc = uncrc8_bits n (uncrc8_bit crc)

uncrc8_table : all_below 256 (λ x. uncrc8_bits 8 (crc8_bits 8 x) == x) ≡ true
unfolding all_below uncrc8_bits uncrc8_bit crc8_bits
uncrc8_table = refl

range_table : all_below 256 (λ x. ltb (crc8_bits 8 x) 256) ≡ true
unfolding all_below crc8_bits
range_table = refl

uncrc8-crc8 : (x : ℕ) → x < 256 → uncrc8_bits 8 (crc8_bits 8 x) ≡ x
uncrc8-crc8 x h = (==_iff _ x).0 (all_below_sound 256 _ x h uncrc8_table)

crc8_bits-lt : (x : ℕ) → x < 256 → crc8_bits 8 x < 256
crc8_bits-lt x h =
    let t = all_below_sound 256 (λ x. ltb (crc8_bits 8 x) 256) x h range_table in ground (arith, t)

crc8_byte-lt : (s b : ℕ) → s < 256 → b < 256 → crc8_byte s b < 256
unfolding crc8_byte
crc8_byte-lt s b p q = crc8_bits-lt _ (bit_xor-lt 8 s b p q)

crc8_from-lt : (s : ℕ) (xs : Bytes) → s < 256 → IsBytes xs → crc8_from s xs < 256
unfolding crc8_from
crc8_from-lt s [] p h = p
crc8_from-lt s (x ∷ xs) p h = crc8_from-lt (crc8_byte s x) xs (crc8_byte-lt s x p h.0) h.1

crc8_byte_injective_byte :
    (s b c : ℕ) → s < 256 → b < 256 → c < 256 → crc8_byte s b ≡ crc8_byte s c → b ≡ c
unfolding crc8_byte
crc8_byte_injective_byte s b c p q r e =
    let mixed : bit_xor s b ≡ bit_xor s c =
      sym (uncrc8-crc8 _ (bit_xor-lt 8 s b p q))
      ∙ ap (uncrc8_bits 8) e
      ∙ uncrc8-crc8 _ (bit_xor-lt 8 s c p r) in
    sym (bit_xor_cancel 8 s b p q) ∙ ap (bit_xor s) mixed ∙ bit_xor_cancel 8 s c p r

crc8_byte_injective_state :
    (s t b : ℕ) → s < 256 → t < 256 → b < 256 → crc8_byte s b ≡ crc8_byte t b → s ≡ t
unfolding crc8_byte
crc8_byte_injective_state s t b p q r e =
    crc8_byte_injective_byte b s t r p q
      (ap (crc8_bits 8) (bit_xor_comm 8 b s r p) ∙ e ∙ ap (crc8_bits 8) (bit_xor_comm 8 t b q r))

crc8_from_injective :
    (xs : Bytes) (s t : ℕ)
    → IsBytes xs
    → s < 256
    → t < 256
    → crc8_from s xs ≡ crc8_from t xs
    → s ≡ t
unfolding crc8_from
crc8_from_injective [] s t h p q e = e
crc8_from_injective (x ∷ xs) s t h p q e = crc8_byte_injective_state s t x p q h.0 (
    crc8_from_injective xs (crc8_byte s x) (crc8_byte t x) h.1 (crc8_byte-lt s x p h.0)
      (crc8_byte-lt t x q h.0) e)

crc8_from_change :
    (xs ys : Bytes) (s b c : ℕ)
    → s < 256
    → b < 256
    → c < 256
    → IsBytes xs
    → IsBytes ys
    → crc8_from s (xs ++ b ∷ ys) ≡ crc8_from s (xs ++ c ∷ ys)
    → b ≡ c
unfolding crc8_from
crc8_from_change [] ys s b c p q r hx hy e =
    crc8_byte_injective_byte s b c p q r
      (crc8_from_injective ys _ _ hy (crc8_byte-lt s b p q) (crc8_byte-lt s c p r) e)
crc8_from_change (x ∷ xs) ys s b c p q r hx hy e =
    crc8_from_change xs ys (crc8_byte s x) b c (crc8_byte-lt s x p hx.0) q r hx.1 hy e

-- The checksum tells apart any two payloads of bytes that differ in exactly one byte, wherever it stands.
pub crc8_detects :
    (xs ys : Bytes) (b c : ℕ)
    → IsBytes xs
    → IsBytes ys
    → b < 256
    → c < 256
    → b ≢ c
    → crc8 (xs ++ b ∷ ys) ≢ crc8 (xs ++ c ∷ ys)
unfolding crc8
crc8_detects xs ys b c hx hy p q ne e = ne (crc8_from_change xs ys 0 b c (omega arith) p q hx hy e)
