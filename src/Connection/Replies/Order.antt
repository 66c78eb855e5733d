-- ===== src/Connection/Replies/Order.antt =====
-- Waiting for a reply loses no frame and keeps their order.
use btwattch2_rs.Prelude.{
  ◌≡◌, sym, ap, ◌∙◌, subst, ◌==◌, if◌then◌else◌, Bool-cases, inl, inr, List, [], ◌∷◌, ◌++◌, Option,
  none, some, Bytes, All, All-append, flatten, append_assoc, append-nil,
}
use btwattch2_rs.Connection.Assembler.{FrameKind, feed}
use btwattch2_rs.Connection.Assembler.Chunks.{Runs, Runs-append, Runs-unique, feed-Runs}
use btwattch2_rs.Connection.Replies.{
  Stream, closed, deadline, event, c_rx, Wait, found, ended, timed_out, Waited, feed_until, on_fed,
  next_matching_frame,
}
use btwattch2_rs.Connection.Replies.Feeding.{
  option_list, Hits, Misses, apply_all, apply_all-append, Takes, nothing, feed_until-Until,
}

-- The values that arrive on the RX characteristic.
abbrev pub rx_values : Stream → List Bytes
rx_values closed = []
rx_values (deadline rest) = rx_values rest
rx_values (event n rest) = if n.uuid == c_rx then n.value ∷ rx_values rest else rx_values rest

abbrev pub reply_of : Wait → Option Bytes
reply_of (found f) = some f
reply_of ended = none
reply_of timed_out = none

module _ {ℓ} {S : Type ℓ} (kind : FrameKind) (on_other : Bytes → S → S) where
  -- More bytes behind both buffers.
  Takes-append :
      {b rest : Bytes} {s t : S} {reply : Option Bytes} (d : Bytes)
      → Takes kind on_other b s reply rest t
      → Takes kind on_other (b ++ d) s reply (rest ++ d) t
  Takes-append {b} {rest} {s} {t} {reply} d u = record {
    before = u.before;
    misses = u.misses;
    hits = u.hits;
    handled = u.handled;
    onward = λ after r x.
        let first = feed rest [] in
        let start : Runs rest first.0 first.1 =
          subst (λ z. Runs z first.0 first.1) (append-nil rest) (feed-Runs rest []) in
        let more = feed first.1 d in
        let (frames, left) = Runs-unique x (Runs-append d start (feed-Runs first.1 d)) in
        rw
          (
            frames,
            left,
            ← append_assoc (option_list reply) first.0 more.0,
            ← append_assoc u.before (option_list reply ++ first.0) more.0,
          )
          (Runs-append d (u.onward first.0 first.1 start) (feed-Runs first.1 d));
  }

  -- A wait that found nothing, and then another.
  Takes-then :
      {b c rest : Bytes} {s t v : S} {reply : Option Bytes}
      → Takes kind on_other b s none c t
      → Takes kind on_other c t reply rest v
      → Takes kind on_other b s reply rest v
  Takes-then {s = s} {reply = reply} u w = record {
    before = u.before ++ w.before;
    misses = All-append (Misses kind) u.before w.before u.misses w.misses;
    hits = w.hits;
    handled =
        w.handled
        ∙ ap (apply_all on_other w.before) u.handled
        ∙ sym (apply_all-append on_other u.before w.before s);
    onward = λ after r x.
        rw (append_assoc u.before w.before (option_list reply ++ after))
          (u.onward _ r (w.onward after r x));
  }

  -- What a wait on the stream `st` comes to, with the values that are still to arrive.
  abbrev IsWait : Bytes → S → Stream → Waited S → Type ℓ
  IsWait b s st out =
      Takes kind on_other (b ++ flatten (rx_values st)) s (reply_of out.result)
        (out.buf ++ flatten (rx_values out.stream)) out.state

  on_fed-IsWait :
      (again : Bytes → S → Waited S) (rest : Stream) (b d : Bytes) (s : S) (reply : Option Bytes)
      (c : Bytes) (t : S)
      → Takes kind on_other (b ++ d) s reply c t
      → ((c : Bytes) (t : S) → IsWait c t rest (again c t))
      → let out = on_fed kind on_other again rest reply c t in
        Takes kind on_other
          (b ++ (d ++ flatten (rx_values rest)))
          s
          (reply_of out.result)
          (out.buf ++ flatten (rx_values out.stream))
          out.state
  unfolding on_fed
  on_fed-IsWait again rest b d s (some f) c t u ih =
      rw (← append_assoc b d (flatten (rx_values rest))) (Takes-append (flatten (rx_values rest)) u)
  on_fed-IsWait again rest b d s none c t u ih =
      rw (← append_assoc b d (flatten (rx_values rest)))
        (Takes-then (Takes-append (flatten (rx_values rest)) u) (ih c t))

  next_matching_frame-IsWait :
      (st : Stream) (b : Bytes) (s : S) → IsWait b s st (next_matching_frame kind on_other st b s)
  unfolding next_matching_frame
  next_matching_frame-IsWait closed b s = nothing kind on_other _ s
  next_matching_frame-IsWait (deadline rest) b s = nothing kind on_other _ s
  next_matching_frame-IsWait (event n rest) b s = elim (Bool-cases (n.uuid == c_rx)) [
    | inr e ↦ rw e (next_matching_frame-IsWait rest b s)
    | inl e ↦
        let fed = feed_until kind on_other b n.value s in
        rw e (
          on_fed-IsWait (next_matching_frame kind on_other rest) rest b n.value s fed.reply fed.buf
            fed.state (feed_until-Until kind on_other b n.value s)
            (next_matching_frame-IsWait rest))
  ]

  -- Over the frames that the stream's RX values complete, in order: those before the reply do not
  -- match and each went to the callback once; the reply, if one was found, matches; and the frames
  -- behind it are exactly those that the buffer and the stream left behind still complete.
  pub next_matching_frame_in_order :
      (st : Stream) (b : Bytes) (s : S)
      → let out = next_matching_frame kind on_other st b s in
        (before : List Bytes) × All (Misses kind) before
        × Hits kind (reply_of out.result)
        × (out.state ≡ apply_all on_other before s)
        × ((feed b (flatten (rx_values st))).0
            ≡ before
              ++ (option_list (reply_of out.result)
                  ++ (feed out.buf (flatten (rx_values out.stream))).0))
  next_matching_frame_in_order st b s =
      let u = next_matching_frame-IsWait st b s in
      let later = next_matching_frame kind on_other st b s in
      (
        u.before,
        u.misses,
        u.hits,
        u.handled,
        (Runs-unique (feed-Runs b (flatten (rx_values st)))
            (u.onward _ _ (feed-Runs later.buf (flatten (rx_values later.stream))))).0,
      )
