-- ===== src/Connection/Assembler/Scan.antt =====
-- One round of `next_frame`: it shortens the buffer, and what it decides does not depend on the
-- bytes that come later.
use btwattch2_rs.Prelude.{
  ℕ, suc, ◌+◌, ◌-◌, ◌*◌, ◌≤◌, ◌<◌, ◌≡◌, refl, arith, ltb, ◌==◌, if◌then◌else◌, [], ◌∷◌, ◌++◌, Bytes,
  length, take, drop, get_or, length-drop, length-append, take-append, drop-append, get_or-append,
  inl, inr, Option-cases, true, false, Bool-cases,
}
use btwattch2_rs.Payload.{header, crc8}
use btwattch2_rs.Connection.Assembler.{
  Round, wait, yield, resync, max_frame_len, position, check_crc, check_len, at_header, round,
}

-- A round goes over bytes that are no header one by one.
pub round-cons :
    (b : ℕ) (bs : Bytes) → round (b ∷ bs) ≡ (if b == header then at_header (b ∷ bs) else round bs)
unfolding round position
round-cons b bs = elim (Bool-cases (b == header)) [
  | inl e ↦ rw (e, round, position)
  | inr e ↦ elim (Option-cases (position bs)) [
    | inl n ↦ rw (e, round, position) (rw (n, round))
    | inr (i, s) ↦ rw (e, round, position) (rw (s, round))
  ]
]

pub round-nil : round [] ≡ wait []
unfolding round position
round-nil = refl

-- The round leaves less than it was given, unless it waits.
abbrev pub Shrinks : ℕ → Round → Type 0
Shrinks n (wait r) = (length r ≤ n) × (length r < max_frame_len)
Shrinks n (yield f r) = length r < n
Shrinks n (resync r) = length r < n

check_len-Shrinks :
    (n : ℕ) (buf : Bytes) → 4 ≤ n → 0 < length buf → Shrinks (length buf) (check_len n buf)
unfolding check_len check_crc
check_len-Shrinks n buf pos h = ground (arith, length-drop n buf, length-drop 1 buf)

at_header-Shrinks : (buf : Bytes) → Shrinks (length buf) (at_header buf)
unfolding at_header
at_header-Shrinks (h ∷ hi ∷ lo ∷ body) =
    check_len-Shrinks _ (h ∷ hi ∷ lo ∷ body) (omega arith) (omega arith)
at_header-Shrinks (h ∷ hi ∷ []) = omega arith
at_header-Shrinks (h ∷ []) = omega arith
at_header-Shrinks [] = omega arith

Shrinks-mono : (m n : ℕ) (r : Round) → m ≤ n → Shrinks m r → Shrinks n r
Shrinks-mono m n (wait r) h s = (omega arith, s.1)
Shrinks-mono m n (yield f r) h s = omega arith
Shrinks-mono m n (resync r) h s = omega arith

pub round-Shrinks : (buf : Bytes) → Shrinks (length buf) (round buf)
round-Shrinks [] = unfold round position in omega arith
round-Shrinks (b ∷ bs) = rw (round-cons b bs) (elim (Bool-cases (b == header)) [
  | inl e ↦ rw e (at_header-Shrinks (b ∷ bs))
  | inr e ↦
      rw e (Shrinks-mono (length bs) (suc (length bs)) (round bs) (omega arith) (round-Shrinks bs))
])

-- The same round, with more bytes at the end of the buffer; one that waits looks again.
abbrev pub extend : Bytes → Round → Round
extend d (wait r) = round (r ++ d)
extend d (yield f r) = yield f (r ++ d)
extend d (resync r) = resync (r ++ d)

check_crc-extend :
    (n : ℕ) (buf d : Bytes)
    → 4 ≤ n
    → n ≤ length buf
    → check_crc n (buf ++ d) ≡ extend d (check_crc n buf)
unfolding check_crc
check_crc-extend n buf d pos h =
    rw
      (
        get_or-append buf d (n - 1) 0 (omega arith),
        take-append n buf d h,
        drop-append n buf d h,
        drop-append 3 buf d (omega arith),
        drop-append 1 buf d (omega arith),
        take-append (n - 1 - 3) (drop 3 buf) d (omega (arith, length-drop 3 buf)),
      )
      (elim (Bool-cases (crc8 (take (n - 1 - 3) (drop 3 buf)) == get_or buf (n - 1) 0)) [
        | inl e ↦ rw e
        | inr e ↦ rw e
      ])

check_len-extend :
    (n : ℕ) (buf d : Bytes)
    → 4 ≤ n
    → 1 ≤ length buf
    → ((length buf < n) → round (buf ++ d) ≡ check_len n (buf ++ d))
    → check_len n (buf ++ d) ≡ extend d (check_len n buf)
unfolding check_len
check_len-extend n buf d pos h again = elim (Bool-cases (ltb max_frame_len n)) [
  | inl big ↦ rw (big, drop-append 1 buf d h)
  | inr fits ↦ elim (Bool-cases (ltb (length buf) n)) [
    | inl short ↦ rw (fits, short) (ground (arith, again (ground arith)))
    | inr whole ↦
        rw (fits, whole)
          (rw (check_len_whole fits whole) (check_crc-extend n buf d pos (ground arith)))
  ]
]
  where
    check_len_whole :
        ltb max_frame_len n ≡ false → ltb (length buf) n ≡ false → ltb (length (buf ++ d)) n ≡ false
    check_len_whole f w = ground (arith, length-append buf d)

at_header-extend :
    (b : ℕ) (bs d : Bytes)
    → (b == header) ≡ true
    → at_header (b ∷ (bs ++ d)) ≡ extend d (at_header (b ∷ bs))
unfolding at_header
at_header-extend b [] d e = rw (round-cons b d, e)
at_header-extend b (hi ∷ []) d e = rw (round-cons b (hi ∷ d), e)
at_header-extend b (hi ∷ lo ∷ body) d e =
    check_len-extend (hi * 256 + lo + 4) (b ∷ hi ∷ lo ∷ body) d (omega arith) (omega arith)
      λ _. rw (round-cons b (hi ∷ lo ∷ body ++ d), e)

pub round-extend : (buf d : Bytes) → round (buf ++ d) ≡ extend d (round buf)
round-extend [] d = unfold round position in refl
round-extend (b ∷ bs) d =
    rw (round-cons b (bs ++ d), round-cons b bs)
      (elim (Bool-cases (b == header)) [
        | inl e ↦ rw e (at_header-extend b bs d e)
        | inr e ↦ rw e (round-extend bs d)
      ])
