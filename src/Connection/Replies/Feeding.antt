-- ===== src/Connection/Replies/Feeding.antt =====
-- The inner loop of the wait: the frames that one notification completes, up to the reply.
use btwattch2_rs.Prelude.{
  ℕ, zero, suc, ◌<◌, ◌≡◌, refl, sym, subst, arith, Bool, true, false, List, [], ◌∷◌, ◌++◌, Option,
  none, some, Bytes, All, length, append-nil,
}
use btwattch2_rs.Connection.Assembler.{FrameKind, matches, next_frame}
use btwattch2_rs.Connection.Assembler.Chunks.{Runs, Next, next_frame-Next, Runs-append}
use btwattch2_rs.Connection.Replies.{Fed, take_tested, take_frame, take_until, feed_until}

abbrev pub option_list {ℓ} : {A : Type ℓ} → Option A → List A
option_list none = []
option_list (some a) = a ∷ []

abbrev pub Hits : FrameKind → Option Bytes → Type 0
Hits kind none = Unit {0}
Hits kind (some f) = matches kind f ≡ true

abbrev pub Misses : FrameKind → Bytes → Type 0
Misses kind f = matches kind f ≡ false

-- The callback, run on each frame in turn.
abbrev pub apply_all {ℓ} : {S : Type ℓ} → (Bytes → S → S) → List Bytes → S → S
apply_all g [] s = s
apply_all g (f ∷ fs) s = apply_all g fs (g f s)

pub apply_all-append {ℓ} :
    {S : Type ℓ} (g : Bytes → S → S) (xs ys : List Bytes) (s : S)
    → apply_all g (xs ++ ys) s ≡ apply_all g ys (apply_all g xs s)
apply_all-append g [] ys s = refl
apply_all-append g (x ∷ xs) ys s = apply_all-append g xs ys (g x s)

module _ {ℓ} {S : Type ℓ} (kind : FrameKind) (on_other : Bytes → S → S) where
  -- From the buffer `b`: the frames before the reply go to the callback, and the run goes on
  -- behind the reply as it would have.
  pub record Takes (b : Bytes) (s : S) (reply : Option Bytes) (rest : Bytes) (t : S) : Type ℓ where
    pub before : List Bytes
    pub misses : All (Misses kind) before
    pub hits : Hits kind reply
    pub handled : t ≡ apply_all on_other before s
    pub onward :
        (after : List Bytes) (r : Bytes)
        → Runs rest after r
        → Runs b (before ++ (option_list reply ++ after)) r

  abbrev pub Until : Bytes → S → Fed S → Type ℓ
  Until b s out = Takes b s out.reply out.buf out.state

  pub nothing : (b : Bytes) (s : S) → Takes b s none b s
  nothing b s = record {
    before = [];
    misses = tt;
    hits = tt;
    handled = refl;
    onward = λ after r x. x;
  }

  -- One frame taken off the buffer.
  take_frame-Until :
      (again : Bytes → S → Fed S) (b : Bytes) (s : S) (x : Option Bytes × Bytes)
      → Next b x
      → ((c : Bytes) (t : S) → length c < length b → Until c t (again c t))
      → Until b s (take_frame kind on_other again x s)
  unfolding take_frame
  take_frame-Until again b s (none, c) n ih = record {
    before = [];
    misses = tt;
    hits = tt;
    handled = refl;
    onward = λ after r x.
        subst (λ z. Runs z after r) (append-nil b)
          (Runs-append [] n (subst (λ z. Runs z after r) (sym (append-nil c)) x));
  }
  take_frame-Until again b s (some f, c) n ih = tested (matches kind f) refl
    where
      rest : Until c (on_other f s) (again c (on_other f s))
      rest = ih c (on_other f s) n.0

      tested : (m : Bool) → matches kind f ≡ m → Until b s (take_tested kind on_other again m f c s)
      tested true m = record { before = []; misses = tt; hits = m; handled = refl; onward = n.1 }
      tested false m = record {
        before = f ∷ rest.before;
        misses = (m, rest.misses);
        hits = rest.hits;
        handled = rest.handled;
        onward = λ after r x. n.1 _ r (rest.onward after r x);
      }

  take_until-Until :
      (fuel : ℕ) (b : Bytes) (s : S)
      → length b < fuel
      → Until b s (take_until kind on_other fuel b s)
  unfolding take_until
  take_until-Until zero b s h = absurd (omega arith)
  take_until-Until (suc fuel) b s h =
      let ih = take_until-Until fuel in
      take_frame-Until (take_until kind on_other fuel) b s (next_frame b) (next_frame-Next b)
        (λ c t lt. ih c t (omega arith))

  pub feed_until-Until : (b d : Bytes) (s : S) → Until (b ++ d) s (feed_until kind on_other b d s)
  unfolding feed_until
  feed_until-Until b d s = take_until-Until (suc (length (b ++ d))) (b ++ d) s (omega arith)
