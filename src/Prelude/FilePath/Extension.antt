-- ===== src/Prelude/FilePath/Extension.antt =====
-- What `with_extension` does to a path whose file name has an extension.
use mathlib.Core.Path.{◌≡◌, refl, sym, ap, ◌∙◌, subst}
use mathlib.Core.Logic.{◌≢◌, inl, inr}
use native.Mathlib.Omega.{arith}
use Prim.Native.Nat.{ℕ}
use mathlib.Core.Bool.{true}
use mathlib.Core.List.{
  [], ◌∷◌, ◌++◌, reverse, reverse-cons, reverse-append, reverse-reverse, append_assoc,
}
use btwattch2_rs.Prelude.Tests.{◌==◌, if◌then◌else◌, Bool-cases}
use btwattch2_rs.Prelude.Lists.{All, All-append}
use btwattch2_rs.Prelude.Text.{Text}
use btwattch2_rs.Prelude.FilePath.{
  without_trailing, split_at, stem, is_name, with_stem, with_extension,
}

-- Of one component, and without a dot.
abbrev pub IsExtension : Text → Type 0
IsExtension = All (λ c. (c ≢ b'/') × (c ≢ b'.'))

IsExtension-reverse : (s : Text) → IsExtension s → IsExtension (reverse s)
IsExtension-reverse [] h = tt
IsExtension-reverse (c ∷ s) h =
    subst IsExtension (sym (reverse-cons c s))
      (All-append _ (reverse s) (c ∷ []) (IsExtension-reverse s (h.1)) (h.0, tt))

without_trailing-name :
    (c d : ℕ) (s : Text) → c ≢ b'/' → c ≢ b'.' → without_trailing (c ∷ d ∷ s) ≡ c ∷ d ∷ s
unfolding without_trailing
without_trailing-name c d s h k = ground arith

split_at-join : (c : ℕ) (s : Text) → (split_at c s).0 ++ (split_at c s).1 ≡ s
unfolding split_at
split_at-join c [] = refl
split_at-join c (d ∷ s) = elim (Bool-cases (d == c)) [
  | inl e ↦ rw e refl
  | inr e ↦ rw e (ap (◌∷◌ d) (split_at-join c s))
]

split_at-behind :
    (c : ℕ) (s t : Text)
    → All (λ d. d ≢ c) s
    → split_at c (s ++ t) ≡ (s ++ (split_at c t).0, (split_at c t).1)
unfolding split_at
split_at-behind c [] t h = refl
split_at-behind c (d ∷ s) t h = ground (arith, h.0, split_at-behind c s t (h.1))

no_slash : (s : Text) → IsExtension s → All (λ d. d ≢ b'/') s
no_slash [] h = tt
no_slash (c ∷ s) h = ((h.0).0, no_slash s (h.1))

no_dot : (s : Text) → IsExtension s → All (λ d. d ≢ b'.') s
no_dot [] h = tt
no_dot (c ∷ s) h = ((h.0).1, no_dot s (h.1))

-- A path read from its end: an extension, a dot, and a character of the file's name.
without_trailing-extension :
    (e : ℕ) (r t : Text)
    → IsExtension (e ∷ r)
    → without_trailing ((e ∷ r) ++ (b'.' ∷ t)) ≡ (e ∷ r) ++ (b'.' ∷ t)
without_trailing-extension e [] t h = without_trailing-name e b'.' t (h.0).0 (h.0).1
without_trailing-extension e (d ∷ r) t h =
    without_trailing-name e d (r ++ (b'.' ∷ t)) (h.0).0 (h.0).1

split_at-name :
    (r : Text) (c : ℕ) (t : Text)
    → IsExtension r
    → c ≢ b'/'
    → split_at b'/' (r ++ (b'.' ∷ c ∷ t))
      ≡ (r ++ (b'.' ∷ c ∷ (split_at b'/' t).0), (split_at b'/' t).1)
split_at-name r c t h k =
    split_at-behind b'/' r (b'.' ∷ c ∷ t) (no_slash r h)
    ∙ ap (λ (p : Text × Text). (r ++ p.0, p.1)) there
  where
    there : split_at b'/' (b'.' ∷ c ∷ t) ≡ (b'.' ∷ c ∷ (split_at b'/' t).0, (split_at b'/' t).1)
    there = unfold split_at in ground arith

stem-name :
    (name r : Text) (c : ℕ) (u : Text)
    → IsExtension r
    → stem name (split_at b'.' (r ++ (b'.' ∷ c ∷ u))) ≡ c ∷ u
unfolding split_at
stem-name name r c u h = ap (stem name) (split_at-behind b'.' r (b'.' ∷ c ∷ u) (no_dot r h)) ∙ there
  where
    there : stem name (r ++ [], b'.' ∷ c ∷ u) ≡ c ∷ u
    there = unfold stem in refl

is_name-word : (e : ℕ) (s : Text) → e ≢ b'.' → is_name (e ∷ s) ≡ true
unfolding is_name
is_name-word e s h = ground arith

with_stem-name :
    (path new : Text) (e : ℕ) (r : Text) (c : ℕ) (u dir : Text)
    → IsExtension (e ∷ r)
    → with_stem path new ((e ∷ r) ++ (b'.' ∷ c ∷ u), dir) ≡ reverse (c ∷ (u ++ dir)) ++ (b'.' ∷ new)
unfolding with_stem
with_stem-name path new e r c u dir h =
    let name = (e ∷ r) ++ (b'.' ∷ c ∷ u) in
    ap (λ b. if b then reverse (stem name (split_at b'.' name) ++ dir) ++ (b'.' ∷ new) else path)
      (is_name-word e (r ++ (b'.' ∷ c ∷ u)) (h.0).1)
    ∙ ap (λ s. reverse (s ++ dir) ++ (b'.' ∷ new)) (stem-name name (e ∷ r) c u h)

with_extension-reversed :
    (path new r : Text) (c : ℕ) (t : Text)
    → IsExtension r
    → r ≢ []
    → c ≢ b'/'
    → reverse path ≡ r ++ (b'.' ∷ c ∷ t)
    → with_extension path new ≡ reverse (c ∷ t) ++ (b'.' ∷ new)
unfolding with_extension
with_extension-reversed path new [] c t h some_r k e = absurd (some_r refl)
with_extension-reversed path new (d ∷ r) c t h some_r k e =
    ap (λ s. with_stem path new (split_at b'/' (without_trailing s))) e
    ∙ ap (λ s. with_stem path new (split_at b'/' s)) (without_trailing-extension d r (c ∷ t) h)
    ∙ ap (with_stem path new) (split_at-name (d ∷ r) c t h k)
    ∙ with_stem-name path new d r c (split_at b'/' t).0 (split_at b'/' t).1 h
    ∙ ap (λ s. reverse (c ∷ s) ++ (b'.' ∷ new)) (split_at-join b'/' t)

-- The extension of a file's name is what is replaced.
pub with_extension_lem :
    (base : Text) (c : ℕ) (extension new : Text)
    → c ≢ b'/'
    → IsExtension extension
    → extension ≢ []
    → with_extension (base ++ (c ∷ b'.' ∷ extension)) new ≡ (base ++ (c ∷ [])) ++ (b'.' ∷ new)
with_extension_lem base c extension new k h some_extension =
    with_extension-reversed (base ++ (c ∷ b'.' ∷ extension)) new (reverse extension) c
      (reverse base) (IsExtension-reverse extension h) not_empty k turned
    ∙ ap (λ s. s ++ (b'.' ∷ new)) back
  where
    not_empty : reverse extension ≢ []
    not_empty e = some_extension (sym (reverse-reverse extension) ∙ ap reverse e)

    turned :
        reverse (base ++ (c ∷ b'.' ∷ extension)) ≡ reverse extension ++ (b'.' ∷ c ∷ reverse base)
    turned =
        reverse-append base (c ∷ b'.' ∷ extension)
        ∙ ap (λ s. s ++ reverse base)
            (reverse-cons c (b'.' ∷ extension)
              ∙ ap (λ s. s ++ (c ∷ [])) (reverse-cons b'.' extension))
        ∙ append_assoc (reverse extension ++ (b'.' ∷ [])) (c ∷ []) (reverse base)
        ∙ append_assoc (reverse extension) (b'.' ∷ []) (c ∷ reverse base)

    back : reverse (c ∷ reverse base) ≡ base ++ (c ∷ [])
    back = reverse-cons c (reverse base) ∙ ap (λ s. s ++ (c ∷ [])) (reverse-reverse base)
