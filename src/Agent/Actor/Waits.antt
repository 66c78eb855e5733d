-- ===== src/Agent/Actor/Waits.antt =====
-- What a one-shot exchange keeps of the clients: a rule for any property that a sample keeps.
use btwattch2_rs.Prelude.{
  ℕ, ◌≡◌, arith, Bool, true, false, List, [], ◌∷◌, Option, none, some, is_some, Bytes, Result, ok,
  err,
}
use btwattch2_rs.Chrono.{Chrono}
use btwattch2_rs.Float.{Float}
use btwattch2_rs.Connection.Assembler.{FrameKind}
use btwattch2_rs.Connection.Measure.{Measurement}
use btwattch2_rs.Connection.Replies.{Stream}
use btwattch2_rs.Connection.Replies.Feeding.{apply_all}
use btwattch2_rs.Connection.Replies.Order.{next_matching_frame_in_order}
use btwattch2_rs.Connection.Link.{Op, ◌>>=◌, ◌>>◌}
use btwattch2_rs.Agent.Protocol.{from_measurement, write_failed}
use btwattch2_rs.Agent.Status.{record_sample}
use btwattch2_rs.Agent.Clients.{broadcast}
use btwattch2_rs.Agent.Link.{Link}
use btwattch2_rs.Agent.Actor.{
  StreamError, Subscribers, Actor, on_conn, relistened, relisten, apply_subscription, publish,
  on_frame, wait_on, wait_for_frame, resubscribe, write_and_wait, teardown, oneshot_from, oneshot,
}

module _ (fl : Float) (c : Chrono) (l : Link) where
  -- Kept by a measurement that arrives, is recorded and goes to the subscribers.
  abbrev pub KeepsSample : (Subscribers fl c l → Type 0) → Type 0
  KeepsSample P =
      (now : ℕ) (m : Measurement fl c) (s : Subscribers fl c l)
      → P s
      → P (
          broadcast (from_measurement fl c l.Error m)
            (record s { stats = record_sample now m s.stats }))

  module _ (P : Subscribers fl c l → Type 0) (at_sample : KeepsSample P) where
    abbrev pub Holds {ℓ} : {A : Type ℓ} → A × Actor fl c l → Type 0
    Holds x = P x.1.clients

    pub on_conn-Holds :
        {A : Type 0} (g : l.Error → StreamError fl c l) (m : Op l.Conn l.Error A) (a : Actor fl c l)
        → P a.clients
        → Holds (on_conn fl c l g m a)
    on_conn-Holds g m a h = rw same h
      where
        same : (on_conn fl c l g m a).1.clients ≡ a.clients
        same = ground arith

    pub relisten-Holds : (a : Actor fl c l) → P a.clients → Holds (relisten fl c l a)
    unfolding relisten relistened apply_subscription
    relisten-Holds a h = rw same h
      where
        same : (relisten fl c l a).1.clients ≡ a.clients
        same = ground arith

    publish-P :
        (now : ℕ) (o : Option (Measurement fl c)) (s : Subscribers fl c l)
        → P s
        → P (publish fl c l now o s)
    unfolding publish
    publish-P now none s h = h
    publish-P now (some m) s h = at_sample now m s h

    pub on_frame-P :
        (now : ℕ) (f : Bytes) (s : Subscribers fl c l) → P s → P (on_frame fl c l now f s)
    unfolding on_frame
    on_frame-P now f s h = publish-P now _ s h

    apply_all-P :
        (now : ℕ) (fs : List Bytes) (s : Subscribers fl c l)
        → P s
        → P (apply_all (on_frame fl c l now) fs s)
    apply_all-P now [] s h = h
    apply_all-P now (f ∷ fs) s h =
        apply_all-P now fs (on_frame fl c l now f s) (on_frame-P now f s h)

    wait_on-Holds :
        (now : ℕ) (kind : FrameKind) (o : Option Stream) (a : Actor fl c l)
        → P a.clients
        → Holds (wait_on fl c l now kind o a)
    unfolding wait_on
    wait_on-Holds now kind none a h = h
    wait_on-Holds now kind (some st) a h =
        let (before, misses, hits, handled, order) =
          next_matching_frame_in_order kind (on_frame fl c l now) st a.assembler a.clients in
        rw handled (apply_all-P now before a.clients h)

    wait_for_frame-Holds :
        (now : ℕ) (kind : FrameKind) (a : Actor fl c l)
        → P a.clients
        → Holds (wait_for_frame fl c l now kind a)
    unfolding wait_for_frame
    wait_for_frame-Holds now kind a h = wait_on-Holds now kind a.notifications a h

    resubscribe-Holds : (f : Bool) (a : Actor fl c l) → P a.clients → Holds (resubscribe fl c l f a)
    unfolding resubscribe
    resubscribe-Holds true a h = relisten-Holds a h
    resubscribe-Holds false a h = h

    pub bind-Holds :
        {A B : Type 0} (m : Op (Actor fl c l) (StreamError fl c l) A)
        (f : A → Op (Actor fl c l) (StreamError fl c l) B) (a : Actor fl c l)
        → Holds (m a)
        → ((x : A) (b : Actor fl c l) → P b.clients → Holds (f x b))
        → Holds ((m >>= f) a)
    bind-Holds {A} {B} m f a h k = go (m a) h
      where
        go :
            (x : Result (StreamError fl c l) A × Actor fl c l)
            → Holds x
            → Holds (
                let y : Result (StreamError fl c l) B × Actor fl c l = elim x.0 [
                  | ok y ↦ f y x.1
                  | err e ↦ (err e, x.1)
                ] in
                y)
        go (ok y, b) h = k y b h
        go (err e, b) h = h

    write_and_wait-Holds :
        (now : ℕ) (p : Bytes) (kind : FrameKind) (a : Actor fl c l)
        → P a.clients
        → Holds (write_and_wait fl c l now p kind a)
    unfolding write_and_wait
    write_and_wait-Holds now p kind a h =
        bind-Holds (on_conn fl c l write_failed (l.write p))
          (λ f. resubscribe fl c l f >> wait_for_frame fl c l now kind) a
          (on_conn-Holds write_failed (l.write p) a h)
          λ f b hb.
            bind-Holds (resubscribe fl c l f) (λ _. wait_for_frame fl c l now kind) b
              (resubscribe-Holds f b hb) λ u d hd. wait_for_frame-Holds now kind d hd

    teardown-Holds :
        (up : Bool) (x : Result (StreamError fl c l) Bytes × Actor fl c l)
        → Holds x
        → Holds (teardown fl c l up x)
    unfolding teardown
    teardown-Holds true (r, a) h = h
    teardown-Holds false (r, a) h = h

    oneshot_from-Holds :
        (up : Bool) (now : ℕ) (p : Bytes) (kind : FrameKind) (a : Actor fl c l)
        → P a.clients
        → Holds (oneshot_from fl c l up now p kind a)
    unfolding oneshot_from
    oneshot_from-Holds true now p kind a h = write_and_wait-Holds now p kind a h
    oneshot_from-Holds false now p kind a h =
        bind-Holds (relisten fl c l)
          (λ _ b. teardown fl c l false (write_and_wait fl c l now p kind b)) a (relisten-Holds a h)
          λ u b hb.
            teardown-Holds false (write_and_wait fl c l now p kind b)
              (write_and_wait-Holds now p kind b hb)

    pub oneshot-Holds :
        (now : ℕ) (p : Bytes) (kind : FrameKind) (a : Actor fl c l)
        → P a.clients
        → Holds (oneshot fl c l now p kind a)
    unfolding oneshot
    oneshot-Holds now p kind a h = oneshot_from-Holds (is_some a.notifications) now p kind a h
