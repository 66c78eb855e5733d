-- ===== src/Cli/Settings/Overlay.antt =====
-- The laws of laying settings over one another.
use btwattch2_rs.Prelude.{◌≡◌, refl, Option, none, some, or_else}
use btwattch2_rs.Cli.Foreign.{Foreign}
use btwattch2_rs.Cli.Settings.{Settings, default_settings, or}

or_else_assoc {ℓ} :
    {A : Type ℓ} (a b c : Option A) → or_else (or_else a b) c ≡ or_else a (or_else b c)
or_else_assoc none b c = refl
or_else_assoc (some a) b c = refl

or_else-none {ℓ} : {A : Type ℓ} (a : Option A) → or_else a none ≡ a
or_else-none none = refl
or_else-none (some a) = refl

module _ (f : Foreign) where
  -- Overlaying is associative, so that the order in which the command line, a device's section and
  -- the file's defaults are merged does not matter, and empty settings change nothing on either side.
  or_laws :
      (a b c : Settings f)
      → (or f (or f a b) c ≡ or f a (or f b c))
        × (or f a (default_settings f) ≡ a)
        × (or f (default_settings f) a ≡ a)
  unfolding or
  or_laws a b c = (simp or_else_assoc refl, simp or_else-none refl, refl)
