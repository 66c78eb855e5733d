-- ===== src/Connection/Assembler/Chunks.antt =====
-- What `feed` does with a stream: it runs to the end of the buffer, and the cuts that the link
-- makes do not show.
use btwattch2_rs.Prelude.{
  ℕ, zero, suc, ◌<◌, ◌≡◌, refl, ap, ◌∙◌, subst, arith, List, [], ◌∷◌, ◌++◌, Option, none, some,
  Bytes, length, append_assoc, append-nil, flatten, inl, inr, ◌⊎◌,
}
use btwattch2_rs.Connection.Assembler.{
  Round, wait, yield, resync, round, next_frame_loop, next_frame, drain, feed, max_frame_len,
}
use btwattch2_rs.Connection.Assembler.Scan.{Shrinks, round-Shrinks, extend, round-extend}

-- The rounds that take the buffer `b` to the frames `fs` and the buffer `r`.
pub data Runs : Bytes → List Bytes → Bytes → Type 0 where
  stop : {b r : Bytes} → round b ≡ wait r → Runs b [] r
  skip : {b c r : Bytes} {fs : List Bytes} → round b ≡ resync c → Runs c fs r → Runs b fs r
  emit : {b f c r : Bytes} {fs : List Bytes} → round b ≡ yield f c → Runs c fs r → Runs b (f ∷ fs) r

Round-cases :
    (r : Round)
    → ((b : Bytes) × (r ≡ wait b))
      ⊎ (((f : Bytes) × (c : Bytes) × (r ≡ yield f c)) ⊎ ((c : Bytes) × (r ≡ resync c)))
Round-cases (wait b) = inl (b, refl)
Round-cases (yield f c) = inr (inl (f, c, refl))
Round-cases (resync c) = inr (inr (c, refl))

-- Rounds up to the next frame, or to a wait.
abbrev pub Next : Bytes → Option Bytes × Bytes → Type 0
Next b (none, r) = Runs b [] r
Next b (some f, c) =
    (length c < length b) × ((fs : List Bytes) (r : Bytes) → Runs c fs r → Runs b (f ∷ fs) r)

Next-skip :
    (b c : Bytes) (x : Option Bytes × Bytes)
    → round b ≡ resync c
    → length c < length b
    → Next c x
    → Next b x
Next-skip b c (none, r) e lt n = skip e n
Next-skip b c (some f, d) e lt n = (omega arith, λ fs r s. skip e (n.1 fs r s))

next_frame_loop-Next : (fuel : ℕ) (b : Bytes) → length b < fuel → Next b (next_frame_loop fuel b)
unfolding next_frame_loop
next_frame_loop-Next zero b h = absurd (omega arith)
next_frame_loop-Next (suc fuel) b h = elim (Round-cases (round b)) [
  | inl (r, e) ↦ rw (e, Next, next_frame_loop) (stop e)
  | inr (inl (f, c, e)) ↦
      rw (e, Next, next_frame_loop)
        (subst (Shrinks (length b)) e (round-Shrinks b), λ fs r s. emit e s)
  | inr (inr (c, e)) ↦
      let lt : length c < length b = subst (Shrinks (length b)) e (round-Shrinks b) in
      rw (e, Next, next_frame_loop)
        (Next-skip b c (next_frame_loop fuel c) e lt (next_frame_loop-Next fuel c (omega arith)))
]

pub next_frame-Next : (b : Bytes) → Next b (next_frame b)
unfolding next_frame
next_frame-Next b = next_frame_loop-Next (suc (length b)) b (omega arith)

drain-Runs : (fuel : ℕ) (b : Bytes) → length b < fuel → Runs b (drain fuel b).0 (drain fuel b).1
unfolding drain
drain-Runs zero b h = absurd (omega arith)
drain-Runs (suc fuel) b h = go (next_frame b) refl (next_frame-Next b) (drain-Runs fuel)
  where
    go :
        (x : Option Bytes × Bytes)
        → next_frame b ≡ x
        → Next b x
        → ((c : Bytes) → length c < fuel → Runs c (drain fuel c).0 (drain fuel c).1)
        → Runs b (drain (suc fuel) b).0 (drain (suc fuel) b).1
    go (none, r) e n ih = rw (e, drain) (rw e n)
    go (some f, c) e n ih = rw (e, drain) (rw e (n.1 _ _ (ih c (omega (arith, n.0)))))

pub feed-Runs : (b d : Bytes) → Runs (b ++ d) (feed b d).0 (feed b d).1
unfolding feed
feed-Runs b d = drain-Runs (suc (length (b ++ d))) (b ++ d) (omega arith)

-- There is one way to run.
pub Runs-unique :
    {b r s : Bytes} {fs gs : List Bytes} → Runs b fs r → Runs b gs s → (fs ≡ gs) × (r ≡ s)
Runs-unique (stop e) (stop e') = (refl, cc)
Runs-unique (stop e) (skip e' _) = absurd (cc)
Runs-unique (stop e) (emit e' _) = absurd (cc)
Runs-unique (skip e _) (stop e') = absurd (cc)
Runs-unique {b} {r} {s} {fs} {gs} (skip {c = c} e x) (skip {c = c'} e' y) =
    let same : c' ≡ c = cc in Runs-unique x (subst (λ z. Runs z gs s) same y)
Runs-unique (skip e _) (emit e' _) = absurd (cc)
Runs-unique (emit e _) (stop e') = absurd (cc)
Runs-unique (emit e _) (skip e' _) = absurd (cc)
Runs-unique {b} {r} {s} (emit {f = f} {c = c} {fs = fs} e x)
      (emit {f = f'} {c = c'} {fs = gs} e' y) =
    let same : c' ≡ c = cc in
    let first : f ≡ f' = cc in
    let (rest, left) = Runs-unique x (subst (λ z. Runs z gs s) same y) in (cc, left)

-- A run goes on when more bytes come.
pub Runs-append :
    {b r s : Bytes} {fs gs : List Bytes} (d : Bytes)
    → Runs b fs r
    → Runs (r ++ d) gs s
    → Runs (b ++ d) (fs ++ gs) s
Runs-append {b} {r} d (stop e) y = restart y
  where
    same : round (b ++ d) ≡ round (r ++ d)
    same = round-extend b d ∙ ap (extend d) e

    restart : {s : Bytes} {gs : List Bytes} → Runs (r ++ d) gs s → Runs (b ++ d) gs s
    restart (stop e') = stop (same ∙ e')
    restart (skip e' z) = skip (same ∙ e') z
    restart (emit e' z) = emit (same ∙ e') z
Runs-append {b} d (skip e x) y = skip (round-extend b d ∙ ap (extend d) e) (Runs-append d x y)
Runs-append {b} d (emit e x) y = emit (round-extend b d ∙ ap (extend d) e) (Runs-append d x y)

-- Feeding two chunks one after the other yields the frames of feeding them joined, in order, and
-- leaves the same buffer.
feed-append :
    (buf a b : Bytes)
    → (feed buf (a ++ b)).0 ≡ (feed buf a).0 ++ (feed (feed buf a).1 b).0
      × ((feed buf (a ++ b)).1 ≡ (feed (feed buf a).1 b).1)
feed-append buf a b = Runs-unique (feed-Runs buf (a ++ b)) (
    subst (λ z. Runs z ((feed buf a).0 ++ (feed (feed buf a).1 b).0) (feed (feed buf a).1 b).1)
      (append_assoc buf a b) (Runs-append b (feed-Runs buf a) (feed-Runs (feed buf a).1 b)))

Runs-bound : {b r : Bytes} {fs : List Bytes} → Runs b fs r → length r < max_frame_len
Runs-bound {b} (stop e) = (subst (Shrinks (length b)) e (round-Shrinks b)).1
Runs-bound (skip e x) = Runs-bound x
Runs-bound (emit e x) = Runs-bound x

-- Whatever arrives, the buffer that `feed` leaves is shorter than the longest frame.
feed_bounded : (buf d : Bytes) → length (feed buf d).1 < max_frame_len
feed_bounded buf d = Runs-bound (feed-Runs buf d)

-- One `feed` for each notification, in order.
unfoldable pub feed_all : Bytes → List Bytes → List Bytes × Bytes
feed_all buf [] = ([], buf)
feed_all buf (d ∷ ds) = let (fs, r) = feed buf d in let (gs, s) = feed_all r ds in (fs ++ gs, s)

pub feed_all-Runs :
    (ds : List Bytes) {b r : Bytes} {fs : List Bytes}
    → Runs b fs r
    → Runs (b ++ flatten ds) (fs ++ (feed_all r ds).0) (feed_all r ds).1
unfolding feed_all
feed_all-Runs [] {b} {r} {fs} x = rw (append-nil b, append-nil fs) x
feed_all-Runs (d ∷ ds) {b} {r} {fs} x =
    rw
      (← append_assoc b d (flatten ds), ← append_assoc fs (feed r d).0 (feed_all (feed r d).1 ds).0)
      (feed_all-Runs ds (Runs-append d x (feed-Runs r d)))
