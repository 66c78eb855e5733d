-- ===== src/Connection/Link/LetGo.antt =====
-- src/connection.rs, `drop_connection`: when the link is down.
use btwattch2_rs.Prelude.{
  ℕ, zero, suc, ◌+◌, ◌-◌, ◌≡◌, ◌≢◌, ◌⊎◌, refl, sym, ap, ◌∙◌, if◌then◌else◌, Bool, true, false,
  Bool-cases, inl, inr, List, [], ◌∷◌, ◌==◌, Result, ok, err,
}
use btwattch2_rs.Connection.Ble.{Ble}
use btwattch2_rs.Connection.Link.{
  LinkError, characteristic_not_found, connect_retries, Op, ◌>>=◌, drop_connection, try_connect,
  retry_connect, connect_loop, find_char, establish, attach,
}
use btwattch2_rs.Connection.Link.Post.{Ends, Ends->>=}
use btwattch2_rs.Connection.Replies.{c_tx, c_rx}

module _ (b : Ble) where
  -- Not known to be up.
  abbrev pub IsDown : b.Peripheral → Type 0
  IsDown d = (b.is_connected d).0 ≢ ok true

  -- Asking does not bring the link up, and letting go, where it works, brings it down.
  pub record Obeys : Type 0 where
    pub asking : (d : b.Peripheral) → IsDown d → IsDown (b.is_connected d).1
    pub leaving : (d : b.Peripheral) → (b.disconnect d).0 ≡ ok tt → IsDown (b.disconnect d).1

  abbrev IsMissing : LinkError b.Error → Type 0
  IsMissing (characteristic_not_found u) = Unit
  IsMissing _ = ⊥

  -- As letting go left it, which was refused.
  abbrev pub IsRefused : b.Peripheral → Type 0
  IsRefused d = (before : b.Peripheral) × (e : b.Error) × (b.disconnect before ≡ (err e, d))

  abbrev pub IsLetGo : b.Peripheral → Type 0
  IsLetGo d = IsDown d ⊎ IsRefused d

  -- The link was let go of, or it came up and lacks a characteristic.
  abbrev pub Left : LinkError b.Error → b.Peripheral → Type 0
  Left e d = IsLetGo d ⊎ IsMissing e

  module _ (obeys : Obeys) where
    pub drop_connection-IsLetGo : (d : b.Peripheral) → IsLetGo (drop_connection b d)
    unfolding drop_connection
    drop_connection-IsLetGo d = dropped (b.is_connected d).0 refl
      where
        dropped :
            (r : Result b.Error Bool)
            → (b.is_connected d).0 ≡ r
            → IsLetGo (elim r [
              | ok up ↦ if up then (b.disconnect (b.is_connected d).1).1 else (b.is_connected d).1
              | err e ↦ (b.is_connected d).1
            ])
        dropped (ok true) e = let_go (b.disconnect (b.is_connected d).1) refl
          where
            let_go :
                (x : Result b.Error (Unit {0}) × b.Peripheral)
                → b.disconnect (b.is_connected d).1 ≡ x
                → IsLetGo (b.disconnect (b.is_connected d).1).1
            let_go (ok u, left) h = inl (obeys.leaving (b.is_connected d).1 (ap (λ x. x.0) h))
            let_go (err e, left) h =
                inr ((b.is_connected d).1, e, h ∙ ap (λ y. (err e, y)) (sym (ap (λ x. x.1) h)))
        dropped (ok false) e = inl (obeys.asking d (λ up. cc))
        dropped (err x) e = inl (obeys.asking d (λ up. cc))

    abbrev Attempt {ℓ} : {A : Type ℓ} → Result (LinkError b.Error) A × b.Peripheral → Type 0
    Attempt x = Ends (λ a d. Unit {0}) Left x

    retry_connect-Ends :
        (again : ℕ → b.Peripheral → Result (LinkError b.Error) (Unit {0}) × b.Peripheral)
        (left attempt : ℕ) (x : Result b.Error (Unit {0}) × b.Peripheral)
        → ((n : ℕ) (d : b.Peripheral) → Attempt (again n d))
        → Attempt (retry_connect b again left attempt x)
    unfolding retry_connect
    retry_connect-Ends again left attempt (ok u, d) h = tt
    retry_connect-Ends again zero attempt (err e, d) h = inl (drop_connection-IsLetGo d)
    retry_connect-Ends again (suc left) attempt (err e, d) h = h (attempt + 1) (drop_connection b d)

    connect_loop-Ends :
        (left attempt : ℕ) (d : b.Peripheral) → Attempt (connect_loop b left attempt d)
    unfolding connect_loop
    connect_loop-Ends zero attempt d =
        retry_connect-Ends (λ n d. (ok tt, d)) zero attempt (try_connect b d) (λ n d. tt)
    connect_loop-Ends (suc left) attempt d =
        retry_connect-Ends _ (suc left) attempt (try_connect b d) (connect_loop-Ends left)

    find_char-Ends :
        (u : ℕ) (cs : List b.Characteristic) (d : b.Peripheral) → Attempt (find_char b u cs, d)
    unfolding find_char
    find_char-Ends u [] d = inr tt
    find_char-Ends u (x ∷ cs) d = elim (Bool-cases (b.uuid x == u)) [
      | inl e ↦ rw e tt
      | inr e ↦ rw e (find_char-Ends u cs d)
    ]

    then-Attempt {ℓ κ} :
        {A : Type ℓ} {B : Type κ} (m : Op b.Peripheral (LinkError b.Error) A)
        (f : A → Op b.Peripheral (LinkError b.Error) B) (d : b.Peripheral)
        → Attempt (m d)
        → ((a : A) (d : b.Peripheral) → Attempt (f a d))
        → Attempt ((m >>= f) d)
    then-Attempt m f d h k =
        Ends->>= (λ a d. Unit {0}) (λ a d. Unit {0}) Left m f d h (λ a d u. k a d)

    abbrev find : ℕ → Op b.Peripheral (LinkError b.Error) b.Characteristic
    find u d = (find_char b u (b.characteristics d), d)

    abbrev both : Op b.Peripheral (LinkError b.Error) (b.Characteristic × b.Characteristic)
    both = do tx ← find c_tx; rx ← find c_rx; λ d. (ok (tx, rx), d)

    both-Attempt : (d : b.Peripheral) → Attempt (both d)
    both-Attempt d =
        then-Attempt (find c_tx) (λ tx. do rx ← find c_rx; λ d. (ok (tx, rx), d)) d
          (find_char-Ends c_tx (b.characteristics d) d)
          (λ tx d.
            then-Attempt (find c_rx) (λ rx d. (ok (tx, rx), d)) d
              (find_char-Ends c_rx (b.characteristics d) d) (λ rx d. tt))

    -- However attaching fails, the link is down or refused to be let go of, unless it came up and
    -- lacks a characteristic.
    pub attach-Ends : (d : b.Peripheral) → Ends (λ conn d. Unit {0}) Left (attach b d)
    unfolding attach establish
    attach-Ends d =
        then-Attempt (establish b)
          (λ chars d. (ok (record { device = d; tx = chars.0; rx = chars.1 }), d)) d
          (then-Attempt (connect_loop b (connect_retries - 1) 1) (λ u. both) d
            (connect_loop-Ends (connect_retries - 1) 1 d) (λ u d. both-Attempt d))
          (λ chars d. tt)
