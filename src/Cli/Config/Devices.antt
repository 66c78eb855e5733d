-- ===== src/Cli/Config/Devices.antt =====
-- The sections of an accepted file.
use btwattch2_rs.Prelude.{
  ℕ, ◌+◌, ◌≡◌, refl, arith, Bool, false, ◌||◌, Bool-cases, inl, inr, List, [], ◌∷◌, Option, none,
  some, unwrap_or, Option-cases, Result, ok, err, ◌>>=◌, bind-ok, ok_or, subst,
}
use btwattch2_rs.Prelude.Text.{
  Text, eq_text, eq_text_iff, is_empty_text, lines, trim, codes, strip_prefix, strip_suffix,
  starts_with, split_once,
}
use btwattch2_rs.Cli.Foreign.{Foreign}
use btwattch2_rs.Cli.Settings.{default_settings}
use btwattch2_rs.Cli.Config.{
  ConfigError, unterminated_header, unknown_section, expected_key_value, lookup, change, FileConfig,
  Reader, assign, open_section, read_header, set_default, set_key, read_pair, read_line, read_lines,
  check_default, empty_config, parse_config, unquote,
}

module _ {ℓ} {V : Type ℓ} where
  abbrev has : Text → List (Text × V) → Bool
  has k [] = false
  has k ((j, v) ∷ m) = eq_text j k || has k m

  -- No name is empty, and none stands twice.
  abbrev pub IsMap : List (Text × V) → Type 0
  IsMap [] = Unit {0}
  IsMap ((j, v) ∷ m) = (is_empty_text j ≡ false) × (has j m ≡ false) × IsMap m

  has-change :
      (g : V → V) (v : V) (k j : Text) (m : List (Text × V))
      → eq_text k j ≡ false
      → has j m ≡ false
      → has j (change g v k m) ≡ false
  has-change g v k j [] e h = rw e refl
  has-change g v k j ((i, w) ∷ m) e h = ground (arith, has-change g v k j m e)

  change-IsMap :
      (g : V → V) (v : V) (k : Text) (m : List (Text × V))
      → is_empty_text k ≡ false
      → IsMap m
      → IsMap (change g v k m)
  change-IsMap g v k [] e h = (e, refl, tt)
  change-IsMap g v k ((j, w) ∷ m) e h = elim (Bool-cases (eq_text j k)) [
    | inl same ↦ rw same (h.0, h.1, h.2)
    | inr other ↦
        let apart : eq_text k j ≡ false = ground (arith, eq_text_iff j k, eq_text_iff k j) in
        rw other (h.0, has-change g v k j m apart h.1, change-IsMap g v k m e h.2)
  ]

module _ (f : Foreign) where
  abbrev Proper : Option Text → Type 0
  Proper none = Unit {0}
  Proper (some name) = is_empty_text name ≡ false

  abbrev Tidy : Reader f → Type 0
  Tidy r = IsMap r.config.devices × Proper r.section

  abbrev TidyResult : Result ConfigError (Reader f) → Type 0
  TidyResult (ok r) = Tidy r
  TidyResult (err e) = Unit {0}

  bind-TidyResult :
      {A : Type 0} (m : Result ConfigError A) (k : A → Result ConfigError (Reader f))
      → ((a : A) → TidyResult (k a))
      → TidyResult (m >>= k)
  bind-TidyResult (ok a) k h = h a
  bind-TidyResult (err e) k h = tt

  open_section-Tidy : (n : ℕ) (d : Text) (r : Reader f) → Tidy r → TidyResult (open_section f n d r)
  unfolding open_section
  open_section-Tidy n d r h = elim (Bool-cases (is_empty_text d)) [
    | inl e ↦ rw e tt
    | inr e ↦ rw e (change-IsMap (λ s. s) (default_settings f) d r.config.devices e h.0, e)
  ]

  read_header-Tidy :
      (n : ℕ) (line header : Text) (r : Reader f)
      → Tidy r
      → TidyResult (read_header f n line header r)
  unfolding read_header
  read_header-Tidy n line header r h =
      bind-TidyResult (ok_or (strip_suffix (codes "]") header) (unterminated_header n line)) _
        λ name.
          bind-TidyResult
            (ok_or (strip_prefix (codes "devices.") (trim name)) (unknown_section n (trim name))) _
            λ device. open_section-Tidy n (unquote (trim device)) r h

  set_default-Tidy :
      (n : ℕ) (v : Text) (o : Option Text) (r : Reader f)
      → Tidy r
      → TidyResult (set_default f n v o r)
  unfolding set_default
  set_default-Tidy n v none r h = h
  set_default-Tidy n v (some name) r h = tt

  set_key-Tidy :
      (n : ℕ) (k v : Text) (o : Option Text) (r : Reader f)
      → Proper o
      → Tidy r
      → TidyResult (set_key f n k v o r)
  unfolding set_key
  set_key-Tidy n k v none r p h = bind-TidyResult (assign f k v n r.config.defaults) _ λ s. h
  set_key-Tidy n k v (some name) r p h =
      bind-TidyResult
        (assign f k v n (unwrap_or (lookup name r.config.devices) (default_settings f))) _
        λ s.
          let kept : IsMap (change (λ _. s) s name r.config.devices) × Proper r.section =
            (change-IsMap (λ _. s) s name r.config.devices p h.0, h.1) in
          kept

  read_pair-Tidy : (n : ℕ) (line : Text) (r : Reader f) → Tidy r → TidyResult (read_pair f n line r)
  unfolding read_pair
  read_pair-Tidy n line r h =
      bind-TidyResult (ok_or (split_once b'=' line) (expected_key_value n line)) _ λ kv.
        elim (Bool-cases (eq_text (trim kv.0) (codes "default"))) [
          | inl e ↦ rw e (set_default-Tidy n (unquote (trim kv.1)) r.section r h)
          | inr e ↦ rw e (set_key-Tidy n (trim kv.0) (unquote (trim kv.1)) r.section r h.1 h)
        ]

  read_line-Tidy : (n : ℕ) (line : Text) (r : Reader f) → Tidy r → TidyResult (read_line f n line r)
  unfolding read_line
  read_line-Tidy n line r h = elim (Bool-cases (is_empty_text line || starts_with b'#' line)) [
    | inl e ↦ rw e h
    | inr e ↦ elim (Option-cases (strip_prefix (codes "[") line)) [
      | inl o ↦ rw (e, o) (read_pair-Tidy n line r h)
      | inr (header, o) ↦ rw (e, o) (read_header-Tidy n line header r h)
    ]
  ]

  read_lines-Tidy :
      (n : ℕ) (ls : List Text) (r : Reader f) → Tidy r → TidyResult (read_lines f n ls r)
  unfolding read_lines
  read_lines-Tidy n [] r h = h
  read_lines-Tidy n (l ∷ ls) r h =
      go (read_line f n (trim l) r) (read_line-Tidy n (trim l) r h) (read_lines-Tidy (n + 1) ls)
    where
      go :
          (x : Result ConfigError (Reader f))
          → TidyResult x
          → ((s : Reader f) → Tidy s → TidyResult (read_lines f (n + 1) ls s))
          → TidyResult (x >>= read_lines f (n + 1) ls)
      go (ok s) t ih = ih s t
      go (err e) t ih = tt

  check_default-same :
      (c config : FileConfig f) (o : Option Text) → check_default f c o ≡ ok config → c ≡ config
  unfolding check_default
  check_default-same c config none h = ground arith
  check_default-same c config (some name) h = ground arith

  -- In an accepted config file every section has a name, and sections of the same name are one.
  pub parse_config-IsMap :
      (text path : Text) (config : FileConfig f)
      → parse_config f text path ≡ ok config
      → IsMap config.devices
  unfolding parse_config check_default
  parse_config-IsMap text path config h =
      let start : Reader f = record { config = empty_config f path; section = none } in
      let (r, read, checked) =
        bind-ok (read_lines f 1 (lines text) start)
          (λ r. check_default f r.config r.config.default_device) config h in
      let tidy : Tidy r = subst TidyResult read (read_lines-Tidy 1 (lines text) start (tt, tt)) in
      subst (λ z. IsMap z.devices)
        (check_default-same r.config config r.config.default_device checked) tidy.0
