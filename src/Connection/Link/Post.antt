-- ===== src/Connection/Link/Post.antt =====
-- What holds of the result of a call, if it succeeds.
use btwattch2_rs.Prelude.{◌≡◌, refl, ap, Result, ok, err}
use btwattch2_rs.Connection.Link.{Op, ◌>>=◌, lift}

module _ {S E : Type 0} where
  abbrev pub Post {ℓ κ} : {A : Type ℓ} → (A → Type κ) → Result E A × S → Type κ
  Post P (ok a, s) = P a
  Post P (err e, s) = Unit

  pub Post-any {ℓ} : {A : Type ℓ} (x : Result E A × S) → Post (λ a. Unit {0}) x
  Post-any (ok a, s) = tt
  Post-any (err e, s) = tt

  pub Post-map {ℓ κ μ} :
      {A : Type ℓ} {P : A → Type κ} {Q : A → Type μ}
      → ((a : A) → P a → Q a)
      → (x : Result E A × S) → Post P x
      → Post Q x
  Post-map f (ok a, s) p = f a p
  Post-map f (err e, s) p = tt

  pub Post->>= {ℓ κ μ ν} :
      {A : Type ℓ} {B : Type κ} {P : A → Type μ} (Q : B → Type ν) (m : Op S E A) (f : A → Op S E B)
      (s : S)
      → Post P (m s)
      → ((a : A) (t : S) → P a → Post Q (f a t))
      → Post Q ((m >>= f) s)
  Post->>= {A = A} {B = B} {P = P} Q m f s p q = go (m s) p
    where
      go :
          (x : Result E A × S)
          → Post P x
          → Post Q (elim (x.0) [ ok a ↦ f a (x.1) | err e ↦ (err e, x.1) ])
      go (ok a, t) p = q a t p
      go (err e, t) p = tt

  -- What holds of the result and the state of a call, on success and on failure.
  abbrev pub Ends {ℓ κ} :
      {A : Type ℓ} → (A → S → Type κ) → (E → S → Type κ) → Result E A × S → Type κ
  Ends P Q (ok a, s) = P a s
  Ends P Q (err e, s) = Q e s

  pub Ends->>= {ℓ κ μ} :
      {A : Type ℓ} {B : Type κ} (P : A → S → Type μ) (R : B → S → Type μ) (Q : E → S → Type μ)
      (m : Op S E A) (f : A → Op S E B) (s : S)
      → Ends P Q (m s)
      → ((a : A) (t : S) → P a t → Ends R Q (f a t))
      → Ends R Q ((m >>= f) s)
  Ends->>= {A = A} {B = B} P R Q m f s p q = go (m s) p
    where
      go :
          (x : Result E A × S)
          → Ends P Q x
          → Ends R Q (elim (x.0) [ ok a ↦ f a (x.1) | err e ↦ (err e, x.1) ])
      go (ok a, t) p = q a t p
      go (err e, t) p = p

  pub Ends-lift {ℓ μ} :
      {F : Type 0} {A : Type ℓ} (P : A → S → Type μ) (Q : E → S → Type μ) (g : F → E) (m : Op S F A)
      (s : S)
      → ((a : A) → (m s).0 ≡ ok a → P a (m s).1)
      → ((e : F) → Q (g e) (m s).1)
      → Ends P Q (lift g m s)
  Ends-lift {F = F} {A = A} P Q g m s p q = go (m s) p q
    where
      go :
          (x : Result F A × S)
          → ((a : A) → x.0 ≡ ok a → P a (x.1))
          → ((e : F) → Q (g e) (x.1))
          → Ends P Q (elim (x.0) [ ok a ↦ (ok a, x.1) | err e ↦ (err (g e), x.1) ])
      go (ok a, t) p q = p a refl
      go (err e, t) p q = q e

  -- A call that succeeded, and the rest of the chain.
  pub lift->>=-ok {ℓ κ} :
      {F : Type 0} {A : Type ℓ} {B : Type κ} (g : F → E) (m : Op S F A) (f : A → Op S E B) (s t : S)
      (a : A)
      → m s ≡ (ok a, t)
      → (lift g m >>= f) s ≡ f a t
  lift->>=-ok {F = F} {A = A} g m f s t a h =
      ap
        (λ (x : Result F A × S).
          let y : Result E A × S = elim (x.0) [ ok a ↦ (ok a, x.1) | err e ↦ (err (g e), x.1) ] in
          elim (y.0) [ ok a ↦ f a (y.1) | err e ↦ (err e, y.1) ])
        h
