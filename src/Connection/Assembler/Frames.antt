-- ===== src/Connection/Assembler/Frames.antt =====
-- The frames that come out of `feed`, against those that payload.rs builds.
use btwattch2_rs.Prelude.{
  ℕ, suc, ◌+◌, ◌-◌, ◌*◌, ◌/◌, ◌%◌, ◌^◌, ◌≤◌, ◌<◌, ◌≡◌, ◌≢◌, refl, ap, sym, ◌∙◌, map, flatten, subst,
  arith, ◌==◌, ==_refl, if◌then◌else◌, List, [], ◌∷◌, ◌++◌, Bytes, IsBytes, All, length, take, drop,
  get_or, length-append, append_assoc, append-nil, take-length-append, drop-length-append,
  get_or-length-append,
}
use btwattch2_rs.Payload.{header, crc8, generate, size_field}
use btwattch2_rs.Payload.Checksum.{crc8_detects}
use btwattch2_rs.Connection.Assembler.{yield, resync, check_crc, check_len, at_header, round, feed}
use btwattch2_rs.Connection.Assembler.Scan.{round-nil, round-cons, extend, round-extend}
use btwattch2_rs.Connection.Assembler.Chunks.{
  Runs, stop, skip, emit, feed-Runs, Runs-unique, feed_all, feed_all-Runs,
}

-- A buffer that starts as a frame of the payload's length does, whatever its last byte.
module _ (payload : Bytes) (crc : ℕ) (short : length payload ≤ 252) where
  abbrev candidate : Bytes
  candidate = header ∷ (size_field (length payload) ++ (payload ++ crc ∷ []))

  candidate_body : length candidate ≡ length payload + 4
  candidate_body = omega (arith, length-append payload (crc ∷ []))

  candidate_payload : take (length payload) (drop 3 candidate) ≡ payload
  candidate_payload = take-length-append payload (crc ∷ [])

  candidate_crc : get_or candidate (length payload + 3) 0 ≡ crc
  candidate_crc =
      let e : length payload + 3 ≡ suc (suc (suc (length payload))) = omega arith in
      rw e (get_or-length-append payload crc 0)

  check_crc-candidate : check_crc (length payload + 4) candidate ≡ (
      if crc8 payload == crc
      then yield (take (length payload + 4) candidate) (drop (length payload + 4) candidate)
      else resync (drop 1 candidate))
  unfolding check_crc
  check_crc-candidate =
      let last : length payload + 4 - 1 ≡ length payload + 3 = omega arith in
      let size : length payload + 3 - 3 ≡ length payload = omega arith in
      rw (last, size, candidate_payload, candidate_crc)

  check_len-candidate :
      check_len (length payload + 4) candidate ≡ check_crc (length payload + 4) candidate
  unfolding check_len
  check_len-candidate = ground (arith, candidate_body)

  round-candidate : round candidate ≡ check_crc (length payload + 4) candidate
  unfolding at_header
  round-candidate =
      let size : length payload % 2 ^ 16 / 2 ^ 8 * 256 + length payload % 2 ^ 8 + 4
          ≡ length payload + 4 =
        omega arith in
      rw round-cons (rw size check_len-candidate)

  all_taken : take (length payload + 4) candidate ≡ candidate
  all_taken =
      subst (λ n. take n candidate ≡ candidate) candidate_body
        (subst (λ xs. take (length candidate) xs ≡ candidate) (append-nil candidate)
          (take-length-append candidate []))

  none_left : drop (length payload + 4) candidate ≡ []
  none_left =
      subst (λ n. drop n candidate ≡ []) candidate_body
        (subst (λ xs. drop (length candidate) xs ≡ []) (append-nil candidate)
          (drop-length-append candidate []))

  round-IsValid : crc8 payload ≡ crc → round candidate ≡ yield candidate []
  round-IsValid e =
      round-candidate ∙ check_crc-candidate ∙ rw (e, ==_refl crc, all_taken, none_left)

  round-IsCorrupt : crc8 payload ≢ crc → round candidate ≡ resync (drop 1 candidate)
  round-IsCorrupt ne = round-candidate ∙ check_crc-candidate ∙ ground (arith, ne)

-- A frame that the code builds is yielded as it stands, and what follows it is left.
round-generate :
    (payload rest : Bytes)
    → length payload ≤ 252
    → round (generate payload ++ rest) ≡ yield (generate payload) rest
unfolding generate
round-generate payload rest h =
    round-extend (candidate payload (crc8 payload) h) rest
    ∙ ap (extend rest) (round-IsValid payload (crc8 payload) h refl)

-- A frame whose checksum does not fit costs its header alone: the scan goes on one byte later.
round_corrupt :
    (payload rest : Bytes) (crc : ℕ) (h : length payload ≤ 252)
    → crc8 payload ≢ crc
    → round (candidate payload crc h ++ rest) ≡ resync (drop 1 (candidate payload crc h) ++ rest)
round_corrupt payload rest crc h ne =
    round-extend (candidate payload crc h) rest
    ∙ ap (extend rest) (round-IsCorrupt payload crc h ne)

abbrev pub Fits : Bytes → Type 0
Fits payload = length payload ≤ 252

abbrev pub NoHeader : ℕ → Type 0
NoHeader b = b ≢ header

Runs-generate :
    (ps : List Bytes) → All Fits ps → Runs (flatten (map generate ps)) (map generate ps) []
Runs-generate [] h = stop round-nil
Runs-generate (p ∷ ps) h =
    emit (round-generate p (flatten (map generate ps)) h.0) (Runs-generate ps h.1)

Runs-noise :
    {b r : Bytes} {fs : List Bytes} (noise : Bytes)
    → All NoHeader noise
    → Runs b fs r
    → Runs (noise ++ b) fs r
Runs-noise [] h x = x
Runs-noise {b} {r} (n ∷ noise) h x = passed (Runs-noise noise h.1 x)
  where
    same : round (n ∷ (noise ++ b)) ≡ round (noise ++ b)
    same = round-cons n (noise ++ b) ∙ ground (arith, h.0)

    passed : {fs : List Bytes} → Runs (noise ++ b) fs r → Runs (n ∷ (noise ++ b)) fs r
    passed (stop e) = stop (same ∙ e)
    passed (skip e y) = skip (same ∙ e) y
    passed (emit e y) = emit (same ∙ e) y

-- Frames of payloads of at most 252 bytes, sent one after another behind any bytes without a
-- header among them, come out whole and in order, and leave an empty buffer, however the link cuts
-- the stream into notifications.
pub feed_all-generate :
    (noise : Bytes) (ps chunks : List Bytes)
    → All NoHeader noise
    → All Fits ps
    → flatten chunks ≡ noise ++ flatten (map generate ps)
    → ((feed_all [] chunks).0 ≡ map generate ps) × ((feed_all [] chunks).1 ≡ [])
feed_all-generate noise ps chunks clean fits cut =
    let (frames, left) = Runs-unique (feed_all-Runs chunks (stop round-nil)) (
      subst (λ s. Runs s (map generate ps) []) (sym cut)
        (Runs-noise noise clean (Runs-generate ps fits))) in
    (frames, left)

-- A frame of bytes, with a payload of at most 252, in which one payload byte was changed on the way
-- is never taken for a frame: from an empty buffer, the assembler drops its header and searches on
-- from the next byte.
pub feed_corrupt :
    (xs ys rest : Bytes) (sent got : ℕ)
    → IsBytes xs
    → IsBytes ys
    → sent < 256
    → got < 256
    → sent ≢ got
    → length (xs ++ got ∷ ys) ≤ 252
    → let damaged =
        size_field (length (xs ++ got ∷ ys))
        ++ ((xs ++ got ∷ ys) ++ crc8 (xs ++ sent ∷ ys) ∷ rest) in
      ((feed [] (header ∷ damaged)).0 ≡ (feed [] damaged).0)
      × ((feed [] (header ∷ damaged)).1 ≡ (feed [] damaged).1)
feed_corrupt xs ys rest sent got hx hy hs hg ne h = Runs-unique (feed-Runs [] _) (
    skip
      (rw (← append_assoc (xs ++ got ∷ ys) (crc8 (xs ++ sent ∷ ys) ∷ []) rest) (
        round_corrupt (xs ++ got ∷ ys) rest (crc8 (xs ++ sent ∷ ys)) h
          (λ e. crc8_detects xs ys sent got hx hy hs hg ne (sym e))))
      (feed-Runs [] _))
