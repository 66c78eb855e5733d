-- ===== src/Connection/Assembler/Sound.antt =====
-- Nothing but well-formed frames comes out of `feed`.
use btwattch2_rs.Prelude.{
  ℕ, suc, ◌+◌, ◌-◌, ◌*◌, ◌/◌, ◌%◌, ◌^◌, ◌≤◌, ◌<◌, ◌≡◌, refl, ◌∙◌, subst, arith, ◌==◌, ==_iff, List,
  [], ◌∷◌, ◌++◌, Bytes, IsBytes, All, All-drop, length, take, drop, get_or, length-take, take-suc,
  true, Bool-cases, inl, inr,
}
use btwattch2_rs.Payload.{header, crc8, generate}
use btwattch2_rs.Connection.Assembler.{
  Round, wait, yield, resync, check_crc, check_len, at_header, round, feed,
}
use btwattch2_rs.Connection.Assembler.Scan.{round-nil, round-cons}
use btwattch2_rs.Connection.Assembler.Chunks.{Runs, stop, skip, emit, feed-Runs}

-- What payload.rs builds from a payload that the assembler has room for.
abbrev pub IsFrame : Bytes → Type 0
IsFrame f = (payload : Bytes) × (f ≡ generate payload) × (length payload ≤ 252)

check_len-yield :
    (n : ℕ) (buf f c : Bytes)
    → check_len n buf ≡ yield f c
    → (n ≤ 256)
      × (n ≤ length buf)
      × (crc8 (take (n - 1 - 3) (drop 3 buf)) ≡ get_or buf (n - 1) 0)
      × (f ≡ take n buf)
      × (c ≡ drop n buf)
unfolding check_len check_crc
check_len-yield n buf f c e = ground arith

check_len-resync : (n : ℕ) (buf c : Bytes) → check_len n buf ≡ resync c → c ≡ drop 1 buf
unfolding check_len check_crc
check_len-resync n buf c e = ground arith

-- What a round leaves, and the frame that it yields.
abbrev Good : Round → Type 0
Good (wait r) = Unit {0}
Good (yield f c) = IsFrame f × IsBytes c
Good (resync c) = IsBytes c

generate_parts :
    (m hi lo : ℕ) (body : Bytes)
    → hi < 256
    → lo < 256
    → m ≡ hi * 256 + lo
    → suc m ≤ length body
    → crc8 (take m body) ≡ get_or body m 0
    → header ∷ hi ∷ lo ∷ take (suc m) body ≡ generate (take m body)
unfolding generate
generate_parts m hi lo body p q e h crc =
    let size : length (take m body) ≡ m = omega (arith, length-take m body) in
    let high : m % 2 ^ 16 / 2 ^ 8 ≡ hi = omega arith in
    let low : m % 2 ^ 8 ≡ lo = omega arith in rw (take-suc m body 0 h, size, high, low, crc)

check_len-Good :
    (h hi lo : ℕ) (body : Bytes) (r : Round)
    → (h == header) ≡ true
    → IsBytes (h ∷ hi ∷ lo ∷ body)
    → check_len (hi * 256 + lo + 4) (h ∷ hi ∷ lo ∷ body) ≡ r
    → Good r
check_len-Good h hi lo body (wait c) t b e = tt
check_len-Good h hi lo body (resync c) t b e = rw (check_len-resync _ _ c e) b.1
check_len-Good h hi lo body (yield f c) t b e = go (hi * 256 + lo) refl (check_len-yield _ _ f c e)
  where
    go :
        (m : ℕ)
        → m ≡ hi * 256 + lo
        → (m + 4 ≤ 256)
          × (m + 4 ≤ length (h ∷ hi ∷ lo ∷ body))
          × (crc8 (take (m + 4 - 1 - 3) body) ≡ get_or (h ∷ hi ∷ lo ∷ body) (m + 4 - 1) 0)
          × (f ≡ take (m + 4) (h ∷ hi ∷ lo ∷ body))
          × (c ≡ drop (m + 4) (h ∷ hi ∷ lo ∷ body))
        → Good (yield f c)
    go m em (small, whole, crc, first, left) =
        let total : m + 4 ≡ suc (suc (suc (suc m))) = omega arith in
        let last : m + 4 - 1 ≡ suc (suc (suc m)) = omega arith in
        let size : m + 4 - 1 - 3 ≡ m = omega arith in
        let sum : crc8 (take m body) ≡ get_or body m 0 = rw (size, last) at crc in
        let head : h ≡ header = (==_iff h header).0 t in
        let cut : f ≡ header ∷ hi ∷ lo ∷ take (suc m) body = rw (total, head) at first in
        let room : suc m ≤ length body = omega arith in
        (
          (
            take m body,
            cut ∙ generate_parts m hi lo body b.1.0 b.1.1.0 em room sum,
            omega (arith, length-take m body),
          ),
          rw left (All-drop (λ x. x < 256) (m + 4) (h ∷ hi ∷ lo ∷ body) b),
        )

round-Good : (buf : Bytes) → IsBytes buf → Good (round buf)
unfolding at_header
round-Good [] b = rw round-nil tt
round-Good (h ∷ bs) b = rw round-cons (elim (Bool-cases (h == header)) [
  | inl e ↦ rw e (found bs b e)
  | inr e ↦ rw e (round-Good bs b.1)
])
  where
    found : (bs : Bytes) → IsBytes (h ∷ bs) → (h == header) ≡ true → Good (at_header (h ∷ bs))
    found [] b e = tt
    found (hi ∷ []) b e = tt
    found (hi ∷ lo ∷ body) b e = check_len-Good h hi lo body _ e b refl

Runs-IsFrame : {b r : Bytes} {fs : List Bytes} → Runs b fs r → IsBytes b → All IsFrame fs
Runs-IsFrame (stop e) h = tt
Runs-IsFrame {b} (skip e x) h = Runs-IsFrame x (subst Good e (round-Good b h))
Runs-IsFrame {b} (emit e x) h = let g = subst Good e (round-Good b h) in (g.0, Runs-IsFrame x g.1)

-- Where the buffer and the input are bytes, every frame that `feed` yields is one that payload.rs would build, from a payload of at most
-- 252 bytes: its header, its size and its checksum are right.
pub feed-IsFrame : (buf d : Bytes) → IsBytes (buf ++ d) → All IsFrame (feed buf d).0
feed-IsFrame buf d h = Runs-IsFrame (feed-Runs buf d) h
