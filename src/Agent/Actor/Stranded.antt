-- ===== src/Agent/Actor/Stranded.antt =====
-- src/agent/server.rs, `write_and_wait`: when a one-shot request loses the subscription in place.
use btwattch2_rs.Prelude.{
  ℕ, ◌≡◌, ◌↔◌, refl, ap, sym, subst, ◌∙◌, arith, Bool, true, false, [], Option, none, some, Bytes,
  Result, ok, err,
}
use btwattch2_rs.Chrono.{Chrono}
use btwattch2_rs.Float.{Float}
use btwattch2_rs.Connection.Assembler.{FrameKind}
use btwattch2_rs.Connection.Replies.{Stream, next_matching_frame}
use btwattch2_rs.Agent.Protocol.{listen_failed, write_failed}
use btwattch2_rs.Agent.Link.{Link}
use btwattch2_rs.Agent.Actor.{
  StreamError, Actor, relistened, relisten, apply_subscription, resubscribe, write_and_wait,
  oneshot_from, oneshot, wait_on, wait_for_frame, on_frame,
}

module _ (fl : Float) (c : Chrono) (l : Link) where
  -- A write that re-established the link, after which the subscription is not taken out again.
  abbrev pub IsDeaf : Bytes → Actor fl c l → l.Error → Type 0
  IsDeaf p a e =
      (conn : l.Conn) × (conn' : l.Conn) × (l.write p a.conn ≡ (ok true, conn))
      × (l.listen conn ≡ (err e, conn'))

  abbrev pub LosesStream :
      Bytes → Actor fl c l → Result (StreamError fl c l) Bytes × Actor fl c l → Type 0
  LosesStream p a x =
      (x.1.notifications ≡ none ↔ (e : l.Error) × IsDeaf p a e)
      × ((e : l.Error) → IsDeaf p a e → (x.0 ≡ err (listen_failed e)) × (x.1.clients ≡ a.clients))

  abbrev Keeps : Result (StreamError fl c l) Bytes × Actor fl c l → Type 0
  Keeps x = (st : Stream) × (x.1.notifications ≡ some st)

  wait_on-Keeps :
      (now : ℕ) (kind : FrameKind) (o : Option Stream) (st : Stream) (a : Actor fl c l)
      → o ≡ some st
      → Keeps (wait_on fl c l now kind o a)
  unfolding wait_on
  wait_on-Keeps now kind none st a h = absurd (cc)
  wait_on-Keeps now kind (some st) _ a h =
      ((next_matching_frame kind (on_frame fl c l now) st a.assembler a.clients).stream, refl)

  wait_for_frame-Keeps :
      (now : ℕ) (kind : FrameKind) (st : Stream) (a : Actor fl c l)
      → a.notifications ≡ some st
      → Keeps (wait_for_frame fl c l now kind a)
  unfolding wait_for_frame
  wait_for_frame-Keeps now kind st a h = wait_on-Keeps now kind a.notifications st a h

  module _ (p : Bytes) (a : Actor fl c l) where
    Keeps-LosesStream :
        (x : Result (StreamError fl c l) Bytes × Actor fl c l)
        → Keeps x
        → ((e : l.Error) → ¬ IsDeaf p a e)
        → LosesStream p a x
    Keeps-LosesStream x (st, h) hears =
        ((λ gone. absurd (cc), λ d. absurd (hears d.0 d.1)), λ e d. absurd (hears e d))

    deaf-LosesStream :
        (x : Result (StreamError fl c l) Bytes × Actor fl c l) (conn conn' : l.Conn) (e : l.Error)
        → l.write p a.conn ≡ (ok true, conn)
        → l.listen conn ≡ (err e, conn')
        → x ≡ (err (listen_failed e), record a { conn = conn'; notifications = none })
        → LosesStream p a x
    deaf-LosesStream x conn conn' e w le same = (
      (λ gone. (e, (conn, conn', w, le)), λ d. ap (λ x. x.1.notifications) same),
      λ e' (con, con', w', le').
          let again : conn ≡ con = cc in
          let read : ◌≡◌ {A = Result l.Error Stream × l.Conn} (err e, conn') (err e', con') =
            sym le ∙ ap l.listen again ∙ le' in
          let error : e ≡ e' = cc in
          (ap (λ x. x.0) same ∙ ap (λ e. err (listen_failed e)) error, ap (λ x. x.1.clients) same),
    )

  -- While a subscription is in place, a one-shot request ends without one exactly when its write
  -- re-established the link and the subscription could not be taken out again. It then reports
  -- that to its own client alone: the streaming clients stay subscribed, none is told, and the
  -- counters, with the link as connected if it counted as that, are what they were.
  pub oneshot_strands :
      (now : ℕ) (p : Bytes) (kind : FrameKind) (a : Actor fl c l) (st : Stream)
      → a.notifications ≡ some st
      → LosesStream p a (oneshot fl c l now p kind a)
  unfolding oneshot oneshot_from write_and_wait resubscribe relisten relistened apply_subscription
  oneshot_strands now p kind a st h = written (l.write p a.conn) refl
    where
      heard :
          (conn : l.Conn) (x : Result l.Error Stream × l.Conn)
          → l.write p a.conn ≡ (ok true, conn)
          → l.listen conn ≡ x
          → LosesStream p a (oneshot fl c l now p kind a)
      heard conn (err e, conn') w le =
          deaf-LosesStream p a (oneshot fl c l now p kind a) conn conn' e w le (ground arith)
      heard conn (ok n, conn') w le =
          let same : oneshot fl c l now p kind a
              ≡ wait_for_frame fl c l now kind
                  (record a { conn = conn'; notifications = some n; assembler = [] }) =
            ground arith in
          subst (LosesStream p a) (sym same) (
            Keeps-LosesStream p a
              (wait_for_frame fl c l now kind
                (record a { conn = conn'; notifications = some n; assembler = [] }))
              (wait_for_frame-Keeps now kind n
                (record a { conn = conn'; notifications = some n; assembler = [] }) refl)
              (λ e (con, con', w', le'). let again : conn ≡ con = cc in cc))

      written :
          (x : Result l.Error Bool × l.Conn)
          → l.write p a.conn ≡ x
          → LosesStream p a (oneshot fl c l now p kind a)
      written (err e, conn) w =
          let same : oneshot fl c l now p kind a
              ≡ (err (write_failed e), record a { conn = conn }) =
            ground arith in
          subst (LosesStream p a) (sym same) (
            Keeps-LosesStream p a (err (write_failed e), record a { conn = conn }) (st, h)
              (λ e (con, con', w', le'). cc))
      written (ok false, conn) w =
          let same : oneshot fl c l now p kind a
              ≡ wait_for_frame fl c l now kind (record a { conn = conn }) =
            ground arith in
          subst (LosesStream p a) (sym same) (
            Keeps-LosesStream p a (wait_for_frame fl c l now kind (record a { conn = conn }))
              (wait_for_frame-Keeps now kind st (record a { conn = conn }) h)
              (λ e (con, con', w', le'). cc))
      written (ok true, conn) w = heard conn (l.listen conn) w refl
