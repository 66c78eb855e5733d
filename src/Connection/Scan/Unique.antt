-- ===== src/Connection/Scan/Unique.antt =====
-- A scan lists each device once.
use btwattch2_rs.Prelude.{
  ℕ, zero, suc, arith, ◌≡◌, ◌≢◌, subst, Bool-cases, inl, inr, List, [], ◌∷◌, Option, none, some,
  Result, ok, err, All,
}
use btwattch2_rs.Connection.Link.{◌>>=◌, lift}
use btwattch2_rs.Connection.Link.Post.{Post, Post->>=, Post-any}
use btwattch2_rs.Connection.Radio.{Radio, Properties, DecidesEq}
use btwattch2_rs.Connection.Scan.{
  ScannedDevice, ScanError, OnHost, Seen, found_at, merge_at, merge_seen, pure, is_named, visit,
  visit_all, radio, start_scan_failed, poll_round, poll_devices, listed, scan, find_adapter,
  while_scanning, adapter_name,
}

abbrev pub Distinct {ℓ} : {A : Type ℓ} → List A → Type ℓ
Distinct [] = Unit
Distinct (x ∷ xs) = All (λ y. x ≢ y) xs × Distinct xs

module _ (r : Radio) (decides : DecidesEq r) where
  open r use {Host, Adapter, Device, BdAddr, Error, eq_addr}

  abbrev addresses : Seen r → List BdAddr
  addresses [] = []
  addresses (e ∷ found) = e.0 ∷ addresses found

  abbrev IsMap : Seen r → Type 0
  IsMap found = Distinct (addresses found)

  merge_at-All :
      (a x : BdAddr) (p : Properties) (found : Seen r)
      → x ≢ a
      → All (λ y. x ≢ y) (addresses found)
      → All (λ y. x ≢ y) (addresses (merge_at r a p found))
  unfolding merge_at
  merge_at-All a x p [] h k = (h, tt)
  merge_at-All a x p (e ∷ found) h k = elim (Bool-cases (eq_addr (e.0) a)) [
    | inl l ↦ rw l k
    | inr l ↦ rw l (k.0, merge_at-All a x p found h k.1)
  ]

  merge_at-IsMap :
      (a : BdAddr) (p : Properties) (found : Seen r) → IsMap found → IsMap (merge_at r a p found)
  unfolding merge_at
  merge_at-IsMap a p [] h = (tt, tt)
  merge_at-IsMap a p (e ∷ found) h = elim (Bool-cases (eq_addr (e.0) a)) [
    | inl l ↦ rw l h
    | inr l ↦
        let other : e.0 ≢ a = λ same. absurd (ground (arith, decides (e.0) a)) in
        rw l (merge_at-All a (e.0) p found other h.0, merge_at-IsMap a p found h.1)
  ]

  visit-IsMap :
      (dev : Device) (found : Seen r) (s : Host) → IsMap found → Post IsMap (visit r dev found s)
  unfolding visit merge_seen
  visit-IsMap dev found s h = elim (Bool-cases (is_named r (found_at r found (r.address dev)))) [
    | inl k ↦ rw (visit, k) h
    | inr k ↦
        rw (visit, k)
          (Post->>= IsMap (lift radio (r.properties dev))
            (λ props. pure (merge_seen r (r.address dev) found props)) s
            (Post-any (lift radio (r.properties dev) s)) (λ props t u. seen props))
  ]
    where
      seen : (props : Option Properties) → IsMap (merge_seen r (r.address dev) found props)
      seen none = h
      seen (some p) = merge_at-IsMap (r.address dev) p found h

  visit_all-IsMap :
      (devs : List Device) (found : Seen r) (s : Host)
      → IsMap found
      → Post IsMap (visit_all r devs found s)
  unfolding visit_all
  visit_all-IsMap [] found s h = h
  visit_all-IsMap (dev ∷ devs) found s h =
      Post->>= IsMap (visit r dev found) (visit_all r devs) s (visit-IsMap dev found s h)
        (visit_all-IsMap devs)

  poll_round-IsMap :
      (adapter : Adapter) (found : Seen r) (s : Host)
      → IsMap found
      → Post IsMap (poll_round r adapter found s)
  unfolding poll_round
  poll_round-IsMap adapter found s h =
      Post->>= IsMap (lift radio (r.peripherals adapter)) (λ devs. visit_all r devs found) s
        (Post-any (lift radio (r.peripherals adapter) s))
        (λ devs t u. visit_all-IsMap devs found t h)

  poll_devices-IsMap :
      (adapter : Adapter) (rounds : ℕ) (found : Seen r) (s : Host)
      → IsMap found
      → Post IsMap (poll_devices r adapter rounds found s)
  unfolding poll_devices
  poll_devices-IsMap adapter zero found s h = poll_round-IsMap adapter found s h
  poll_devices-IsMap adapter (suc rounds) found s h =
      Post->>= IsMap (poll_round r adapter found) (poll_devices r adapter rounds) s
        (poll_round-IsMap adapter found s h) (poll_devices-IsMap adapter rounds)

  abbrev addrs : List (ScannedDevice BdAddr) → List BdAddr
  addrs [] = []
  addrs (d ∷ ds) = d.addr ∷ addrs ds

  listed-All :
      (x : BdAddr) (found : Seen r)
      → All (λ y. x ≢ y) (addresses found)
      → All (λ y. x ≢ y) (addrs (listed r found))
  unfolding listed
  listed-All x [] h = tt
  listed-All x ((a, (name, some rssi)) ∷ found) h = (h.0, listed-All x found h.1)
  listed-All x ((a, (name, none)) ∷ found) h = listed-All x found h.1

  listed-Distinct : (found : Seen r) → IsMap found → Distinct (addrs (listed r found))
  unfolding listed
  listed-Distinct [] h = tt
  listed-Distinct ((a, (name, some rssi)) ∷ found) h =
      (listed-All a found h.0, listed-Distinct found h.1)
  listed-Distinct ((a, (name, none)) ∷ found) h = listed-Distinct found h.1

  while_scanning-Post {ℓ} :
      {A : Type 0} (P : A → Type ℓ) (adapter : Adapter) (body : OnHost r A)
      → ((s : Host) → Post P (body s))
      → (s : Host) → Post P (while_scanning r adapter body s)
  unfolding while_scanning
  while_scanning-Post {A = A} P adapter body h s =
      Post->>= P (lift start_scan_failed (r.start_scan adapter))
        (λ u s. ((body s).0, (r.stop_scan adapter (body s).1).1)) s
        (Post-any (lift start_scan_failed (r.start_scan adapter) s)) (λ u t v. go (body t) (h t))
    where
      go :
          (x : Result (ScanError Error) A × Host)
          → Post P x
          → Post P (x.0, (r.stop_scan adapter (x.1)).1)
      go (ok a, t) p = p
      go (err e, t) p = tt

  scan-Post :
      (index rounds : ℕ) (s : Host) → Post (λ ds. Distinct (addrs ds)) (scan r index rounds s)
  unfolding scan
  scan-Post index rounds s =
      Post->>= (λ ds. Distinct (addrs ds)) (find_adapter r (adapter_name index))
        (λ adapter. while_scanning r adapter (poll_devices r adapter rounds []) >>= λ found.
          pure (listed r found))
        s (Post-any (find_adapter r (adapter_name index) s))
        (λ adapter t u.
          Post->>= (λ ds. Distinct (addrs ds))
            (while_scanning r adapter (poll_devices r adapter rounds []))
            (λ found. pure (listed r found)) t
            (while_scanning-Post IsMap adapter (poll_devices r adapter rounds [])
              (λ s. poll_devices-IsMap adapter rounds [] s tt) t)
            (λ found t. listed-Distinct found))

  -- The devices that a scan lists have different addresses, however often each was reported.
  pub scan-Distinct :
      (index rounds : ℕ) (ds : List (ScannedDevice BdAddr)) (s t : Host)
      → scan r index rounds s ≡ (ok ds, t)
      → Distinct (addrs ds)
  scan-Distinct index rounds ds s t h =
      subst (Post (λ ds. Distinct (addrs ds))) h (scan-Post index rounds s)
