-- ===== src/Connection/Scan/Found.antt =====
-- What a scan keeps of the devices it has seen.
use btwattch2_rs.Prelude.{
  ℕ, zero, suc, ◌≡◌, refl, subst, false, Bool-cases, inl, inr, List, [], ◌∷◌, Option, none, some,
  or_else, ok,
}
use btwattch2_rs.Prelude.Text.{Text}
use btwattch2_rs.Prelude.Int.{ℤ}
use btwattch2_rs.Connection.Link.{lift}
use btwattch2_rs.Connection.Link.Post.{Post, Post->>=, Post-any, Post-map}
use btwattch2_rs.Connection.Radio.{Radio, Properties, DecidesEq}
use btwattch2_rs.Connection.Scan.{
  Seen, found_at, merge, merge_at, merge_seen, pure, is_named, visit, visit_all, radio, poll_round,
  poll_devices,
}

module _ (r : Radio) (decides : DecidesEq r) where
  open r use {Host, Adapter, Device, BdAddr, Error, eq_addr}

  -- What was known of an address and is known of it later: a name stays as it is, and an RSSI that
  -- was seen may be followed by another one.
  abbrev pub Kept : Option (Option Text × Option ℤ) → Option (Option Text × Option ℤ) → Type 0
  Kept none new = Unit
  Kept (some (some name, rssi)) new = new ≡ some (some name, rssi)
  Kept (some (none, none)) new = Unit
  Kept (some (none, some rssi)) new =
      (name : Option Text) × (rssi' : ℤ) × (new ≡ some (name, some rssi'))

  Kept-refl : (o : Option (Option Text × Option ℤ)) → Kept o o
  Kept-refl none = tt
  Kept-refl (some (some name, rssi)) = refl
  Kept-refl (some (none, none)) = tt
  Kept-refl (some (none, some rssi)) = (none, rssi, refl)

  Kept-trans : (o p q : Option (Option Text × Option ℤ)) → Kept o p → Kept p q → Kept o q
  Kept-trans none p q h k = tt
  Kept-trans (some (some name, rssi)) p q h k = subst (λ z. Kept z q) h k
  Kept-trans (some (none, none)) p q h k = tt
  Kept-trans (some (none, some rssi)) p q (name, rssi', e) k = go name (subst (λ z. Kept z q) e k)
    where
      go : (name : Option Text) → Kept (some (name, some rssi')) q → Kept (some (none, some rssi)) q
      go none k = k
      go (some name) k = (some name, rssi', k)

  Kept-merge :
      (p : Properties) (entry : Option Text × Option ℤ)
      → is_named r (some entry) ≡ false
      → Kept (some entry) (some (merge r p entry))
  unfolding is_named merge
  Kept-merge p (some name, rssi) h = absurd (cc)
  Kept-merge p (none, none) h = tt
  Kept-merge p (none, some rssi) h = go p.rssi
    where
      go :
          (seen : Option ℤ)
          → Kept
              (some (none, some rssi))
              (some (or_else p.local_name none, or_else seen (some rssi)))
      go none = (_, rssi, refl)
      go (some rssi') = (_, rssi', refl)

  merge_at-Kept :
      (a b : BdAddr) (p : Properties) (found : Seen r)
      → is_named r (found_at r found a) ≡ false
      → Kept (found_at r found b) (found_at r (merge_at r a p found) b)
  unfolding found_at merge_at
  merge_at-Kept a b p [] h = tt
  merge_at-Kept a b p (e ∷ found) h = elim (Bool-cases (eq_addr (e.0) a)) [
    | inl k ↦ (elim (Bool-cases (eq_addr (e.0) b)) [
      | inl l ↦ rw (k, l) (Kept-merge p (e.1) (rw k at h))
      | inr l ↦ rw (k, l) (Kept-refl (found_at r found b))
    ])
    | inr k ↦ (elim (Bool-cases (eq_addr (e.0) b)) [
      | inl l ↦ rw (k, l) (Kept-refl (some (e.1)))
      | inr l ↦ rw (k, l) (merge_at-Kept a b p found (rw k at h))
    ])
  ]

  abbrev Keeps : BdAddr → Seen r → Seen r → Type 0
  Keeps b found after = Kept (found_at r found b) (found_at r after b)

  visit-Kept :
      (b : BdAddr) (dev : Device) (found : Seen r) (s : Host)
      → Post (Keeps b found) (visit r dev found s)
  unfolding visit merge_seen
  visit-Kept b dev found s = elim (Bool-cases (is_named r (found_at r found (r.address dev)))) [
    | inl h ↦ rw (visit, h) (Kept-refl (found_at r found b))
    | inr h ↦
        rw (visit, h)
          (Post->>= (Keeps b found) (lift radio (r.properties dev))
            (λ props. pure (merge_seen r (r.address dev) found props)) s
            (Post-any (lift radio (r.properties dev) s)) (λ props t u. seen h props))
  ]
    where
      seen :
          is_named r (found_at r found (r.address dev)) ≡ false
          → (props : Option Properties) → Keeps b found (merge_seen r (r.address dev) found props)
      seen h none = Kept-refl (found_at r found b)
      seen h (some p) = merge_at-Kept (r.address dev) b p found h

  visit_all-Kept :
      (b : BdAddr) (devs : List Device) (found : Seen r) (s : Host)
      → Post (Keeps b found) (visit_all r devs found s)
  unfolding visit_all
  visit_all-Kept b [] found s = Kept-refl (found_at r found b)
  visit_all-Kept b (dev ∷ devs) found s =
      Post->>= (Keeps b found) (visit r dev found) (visit_all r devs) s (visit-Kept b dev found s)
        (λ mid t h.
          Post-map
            (λ after. Kept-trans (found_at r found b) (found_at r mid b) (found_at r after b) h)
            (visit_all r devs mid t) (visit_all-Kept b devs mid t))

  poll_round-Kept :
      (b : BdAddr) (adapter : Adapter) (found : Seen r) (s : Host)
      → Post (Keeps b found) (poll_round r adapter found s)
  unfolding poll_round
  poll_round-Kept b adapter found s =
      Post->>= (Keeps b found) (lift radio (r.peripherals adapter)) (λ devs. visit_all r devs found)
        s (Post-any (lift radio (r.peripherals adapter) s))
        (λ devs t u. visit_all-Kept b devs found t)

  poll_devices-Post :
      (b : BdAddr) (adapter : Adapter) (rounds : ℕ) (found : Seen r) (s : Host)
      → Post (Keeps b found) (poll_devices r adapter rounds found s)
  unfolding poll_devices
  poll_devices-Post b adapter zero found s = poll_round-Kept b adapter found s
  poll_devices-Post b adapter (suc rounds) found s =
      Post->>= (Keeps b found) (poll_round r adapter found) (poll_devices r adapter rounds) s
        (poll_round-Kept b adapter found s)
        (λ mid t h.
          Post-map
            (λ after. Kept-trans (found_at r found b) (found_at r mid b) (found_at r after b) h)
            (poll_devices r adapter rounds mid t) (poll_devices-Post b adapter rounds mid t))

  -- However many rounds a scan polls, what it has found of an address stays found: where only an
  -- RSSI was seen there is an RSSI at the end, and a name is kept as it is with the RSSI that is
  -- beside it. With a name and no RSSI, an address gets none any more, whatever it advertises.
  pub poll_devices-Kept :
      (b : BdAddr) (adapter : Adapter) (rounds : ℕ) (found after : Seen r) (s t : Host)
      → poll_devices r adapter rounds found s ≡ (ok after, t)
      → Kept (found_at r found b) (found_at r after b)
  poll_devices-Kept b adapter rounds found after s t h =
      subst (Post (Keeps b found)) h (poll_devices-Post b adapter rounds found s)
