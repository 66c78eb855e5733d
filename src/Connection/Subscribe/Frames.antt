-- ===== src/Connection/Subscribe/Frames.antt =====
-- The frames that a subscription hands over.
use btwattch2_rs.Prelude.{
  ◌==◌, ◌≡◌, refl, sym, subst, ap, if◌then◌else◌, Bool, true, false, Bool-cases, Option-cases, inl,
  inr, List, [], ◌∷◌, ◌++◌, Option, none, some, Bytes, Result, ok, flatten,
}
use btwattch2_rs.Connection.Assembler.{feed}
use btwattch2_rs.Connection.Assembler.Chunks.{feed_all, feed_all-Runs, feed-Runs, Runs-unique, stop}
use btwattch2_rs.Connection.Assembler.Scan.{round-nil}
use btwattch2_rs.Connection.Replies.{Stream, ValueNotification, c_rx}
use btwattch2_rs.Connection.Ble.{Ble}
use btwattch2_rs.Connection.Link.{LinkError, Connection, write}
use btwattch2_rs.Connection.Subscribe.{
  Turn, ticked, notified, Ended, next_event, hand_frames, on_tick, on_event, on_notified,
  subscribe_loop, stopped,
}

feed_all-feed : (values : List Bytes) → (feed_all [] values).0 ≡ (feed [] (flatten values)).0
feed_all-feed values =
    (Runs-unique (feed_all-Runs values (stop round-nil)) (feed-Runs [] (flatten values))).0

abbrev rx_value : ValueNotification → List Bytes → List Bytes
rx_value n values = if n.uuid == c_rx then n.value ∷ values else values

-- What the turns have taken off the RX characteristic.
abbrev pub arrived : List Turn → Stream → List Bytes
arrived [] st = []
arrived (ticked ∷ turns) st = arrived turns st
arrived (notified ∷ turns) st = elim (next_event st) [
  | some (n, rest) ↦ rx_value n (arrived turns rest)
  | none ↦ []
]

-- The stream does not end before the turns do.
abbrev pub Lasts : List Turn → Stream → Type 0
Lasts [] st = Unit
Lasts (ticked ∷ turns) st = Lasts turns st
Lasts (notified ∷ turns) st = elim (next_event st) [ some (n, rest) ↦ Lasts turns rest | none ↦ ⊥ ]

module _ (b : Ble) where
  -- Writes that find the link up.
  pub record Polls {κ} (payload : Bytes) (Up : Connection b → Type κ) : Type κ where
    pub next : Connection b → Connection b
    pub writes : (c : Connection b) → Up c → write b payload c ≡ (ok false, next c)
    pub stays : (c : Connection b) → Up c → Up (next c)

  abbrev pub outcome_of : Bool → Option (Result (LinkError b.Error) (Unit {0}))
  outcome_of true = some (ok tt)
  outcome_of false = none

module _ {ℓ} {S : Type ℓ} (b : Ble) (on_frame : Bytes → S → Bool × S) where
  abbrev Ran : Ended b S → Bool × S → Type ℓ
  Ran e p = (e.outcome ≡ outcome_of b (p.0)) × (e.state ≡ p.1)

  hand_frames-append :
      (fs gs : List Bytes) (s : S)
      → hand_frames b on_frame (fs ++ gs) s ≡ (
          if (hand_frames b on_frame fs s).0
          then hand_frames b on_frame fs s
          else hand_frames b on_frame gs (hand_frames b on_frame fs s).1)
  unfolding hand_frames
  hand_frames-append [] gs s = refl
  hand_frames-append (f ∷ fs) gs s = elim (Bool-cases (on_frame f s).0) [
    | inl h ↦ rw h
    | inr h ↦ rw (h, hand_frames-append fs gs (on_frame f s).1)
  ]

  module _ {κ} (payload : Bytes) (Up : Connection b → Type κ) (polls : Polls b payload Up) where
    on_event-Ran :
        (again : Stream → Bytes → S → Connection b → Ended b S) (n : ValueNotification)
        (rest : Stream) (values : List Bytes) (buf : Bytes) (s : S) (c : Connection b)
        → ((buf : Bytes) (s : S)
            → Ran (again rest buf s c) (hand_frames b on_frame (feed_all buf values).0 s))
        → Ran
            (on_event b on_frame again n rest buf s c)
            (hand_frames b on_frame (feed_all buf (rx_value n values)).0 s)
    unfolding on_event stopped feed_all
    on_event-Ran again n rest values buf s c ih = elim (Bool-cases (n.uuid == c_rx)) [
      | inr h ↦ rw h (ih buf s)
      | inl h ↦
          let fed = feed buf n.value in
          let split = hand_frames-append (fed.0) (feed_all (fed.1) values).0 s in
          elim (Bool-cases (hand_frames b on_frame (fed.0) s).0) [
            | inl k ↦ rw (h, split, k) (sym (ap (outcome_of b) k), refl)
            | inr k ↦ rw (h, split, k) (ih (fed.1) (hand_frames b on_frame (fed.0) s).1)
          ]
    ]

    on_tick-up :
        (again : Stream → Bytes → S → Connection b → Ended b S) (st : Stream) (buf : Bytes) (s : S)
        (c : Connection b)
        → Up c
        → on_tick b on_frame again payload st buf s c ≡ again st buf s (polls.next c)
    unfolding on_tick
    on_tick-up again st buf s c up =
        rw (on_tick, polls.writes c up) (ap (λ w. again st buf s (w.1)) (polls.writes c up))

    on_notified-event :
        (again : Stream → Bytes → S → Connection b → Ended b S) (st rest : Stream)
        (n : ValueNotification) (buf : Bytes) (s : S) (c : Connection b)
        → next_event st ≡ some (n, rest)
        → on_notified b on_frame again st buf s c ≡ on_event b on_frame again n rest buf s c
    unfolding on_notified
    on_notified-event again st rest n buf s c h = rw (on_notified, h) refl

    subscribe_loop-Ran :
        (turns : List Turn) (st : Stream) (buf : Bytes) (s : S) (c : Connection b)
        → Up c
        → Lasts turns st
        → Ran
            (subscribe_loop b on_frame payload turns st buf s c)
            (hand_frames b on_frame (feed_all buf (arrived turns st)).0 s)
    unfolding subscribe_loop on_tick on_notified hand_frames feed_all
    subscribe_loop-Ran [] st buf s c up lasts = (refl, refl)
    subscribe_loop-Ran (ticked ∷ turns) st buf s c up lasts =
        subst (λ e. Ran e (hand_frames b on_frame (feed_all buf (arrived turns st)).0 s))
          (sym (on_tick-up (subscribe_loop b on_frame payload turns) st buf s c up))
          (subscribe_loop-Ran turns st buf s (polls.next c) (polls.stays c up) lasts)
    subscribe_loop-Ran (notified ∷ turns) st buf s c up lasts =
        elim (Option-cases (next_event st)) [
          | inl h ↦ absurd (rw (Lasts, h) at lasts)
          | inr ((n, rest), h) ↦
              let again = subscribe_loop b on_frame payload turns in
              subst
                (λ e.
                  Ran e (hand_frames b on_frame (feed_all buf (arrived (notified ∷ turns) st)).0 s))
                (sym (on_notified-event again st rest n buf s c h))
                (rw (arrived, h)
                  (on_event-Ran again n rest (arrived turns rest) buf s c
                    (λ buf s. subscribe_loop-Ran turns rest buf s c up (rw (Lasts, h) at lasts))))
        ]

    -- While the polls find the link up and the stream lasts, a subscription hands over the frames
    -- of all the bytes that arrived, joined, in order, up to the first break: neither the polls in
    -- between nor the cuts of the link show, and it ends, without an error, exactly at a break.
    pub subscribe_frames :
        (turns : List Turn) (st : Stream) (s : S) (c : Connection b)
        → Up c
        → Lasts turns st
        → ((subscribe_loop b on_frame payload turns st [] s c).outcome
            ≡ outcome_of b (hand_frames b on_frame (feed [] (flatten (arrived turns st))).0 s).0)
          × ((subscribe_loop b on_frame payload turns st [] s c).state
              ≡ (hand_frames b on_frame (feed [] (flatten (arrived turns st))).0 s).1)
    subscribe_frames turns st s c up lasts =
        subst
          (λ fs.
            Ran (subscribe_loop b on_frame payload turns st [] s c) (hand_frames b on_frame fs s))
          (feed_all-feed (arrived turns st)) (subscribe_loop-Ran turns st [] s c up lasts)
