-- ===== src/Cli/Config/Profile.antt =====
-- The default of an accepted file.
use btwattch2_rs.Prelude.{
  ◌≡◌, refl, arith, inl, inr, Option, none, some, Option-cases, subst, ok, bind-ok,
}
use btwattch2_rs.Prelude.Text.{Text, lines}
use btwattch2_rs.Cli.Foreign.{Foreign}
use btwattch2_rs.Cli.Settings.{Settings, or}
use btwattch2_rs.Cli.Config.{
  lookup, FileConfig, Reader, read_lines, check_default, empty_config, parse_config, named, profile,
}

module _ (f : Foreign) where
  -- An accepted configuration names, or has, what it falls back on.
  abbrev Resolves : FileConfig f → Option Text → Type 0
  Resolves config o = (s : Settings f) × (named f config o ≡ ok s)

  check_default-ok :
      (c config : FileConfig f) (o : Option Text)
      → check_default f c o ≡ ok config
      → (c ≡ config) × Resolves c o
  unfolding check_default named
  check_default-ok c config none h = (ground (arith, h), (c.defaults, refl))
  check_default-ok c config (some name) h = elim (Option-cases (lookup name c.devices)) [
    | inl e ↦ absurd (ground (arith, e))
    | inr (s, e) ↦ (ground (arith, e), (or f s c.defaults, rw e refl))
  ]

  -- A config file that is accepted can be used without naming a device: the section that its
  -- `default` names exists.
  pub parse_config-profile :
      (text path : Text) (config : FileConfig f)
      → parse_config f text path ≡ ok config
      → (s : Settings f) × (profile f none config ≡ ok s)
  unfolding parse_config profile
  parse_config-profile text path config h =
      let start : Reader f = record { config = empty_config f path; section = none } in
      let (r, read, checked) =
        bind-ok (read_lines f 1 (lines text) start)
          (λ r. check_default f r.config r.config.default_device) config h in
      let (same, found) = check_default-ok r.config config r.config.default_device checked in
      subst (λ z. Resolves z z.default_device) same found
