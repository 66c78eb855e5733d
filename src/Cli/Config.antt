-- ===== src/Cli/Config.antt =====
-- src/cli.rs, `FileConfig` and `parse_config`: the config file. The map of sections is a list of
-- pairs; what an error message is made from is kept in a value, the line first.
pub mod Devices
pub mod Profile
use btwattch2_rs.Prelude.{
  ℕ, zero, suc, ◌+◌, ◌^◌, if◌then◌else◌, Bool, true, false, ◌||◌, List, [], ◌∷◌, Option, none, some,
  is_some, and_then, or_else, unwrap_or, Result, ok, err, ◌>>=◌, ok_or,
}
use btwattch2_rs.Prelude.Text.{
  Text, codes, is_empty_text, eq_text, trim, strip_prefix, strip_suffix, starts_with, split_once,
  lines, parse_radix,
}
use btwattch2_rs.Cli.Foreign.{Foreign}
use btwattch2_rs.Cli.Values.{IntervalError, parse_interval, SocketModeError, parse_socket_mode}
use btwattch2_rs.Cli.Settings.{ConnectOpts, Settings, default_settings, or}
use mathlib.Core.Option

-- Why a value was refused.
pub data ValueError : Type 0 where
  not_a_number not_an_address not_a_socket_address : ValueError
  bad_interval : IntervalError → ValueError
  bad_socket_mode : SocketModeError → ValueError

pub data ConfigError : Type 0 where
  unterminated_header unknown_section expected_key_value unknown_key : ℕ → Text → ConfigError
  unnamed_section misplaced_default : ℕ → ConfigError
  -- The line, the key, the value and the reason.
  invalid_value : ℕ → Text → Text → ValueError → ConfigError
  unknown_default unknown_device : Text → ConfigError

-- `map_err`.
abbrev map_err {ℓ} : {A : Type ℓ} {E F : Type 0} → (E → F) → Result E A → Result F A
map_err g (ok a) = ok a
map_err g (err e) = err (g e)

-- One pair of quotes.
unfoldable pub unquote : Text → Text
unquote value =
    unwrap_or (and_then (strip_prefix (codes "\"") value) (strip_suffix (codes "\""))) value

module _ {ℓ} {V : Type ℓ} where
  abbrev pub lookup : Text → List (Text × V) → Option V
  lookup k [] = none
  lookup k ((j, v) ∷ m) = let rest = lookup k m in if eq_text j k then some v else rest

  -- `entry(..).or_default()`, changed by `g`.
  abbrev pub change : (V → V) → V → Text → List (Text × V) → List (Text × V)
  change g v k [] = (k, g v) ∷ []
  change g v k ((j, w) ∷ m) =
      let rest = change g v k m in if eq_text j k then (j, g w) ∷ m else (j, w) ∷ rest

module _ (f : Foreign) where
  pub record FileConfig : Type 0 where
    pub defaults : Settings f
    pub devices : List (Text × Settings f)
    pub default_device : Option Text
    pub path : Text

  -- The configuration so far, and the section that the keys belong to.
  pub record Reader : Type 0 where
    pub config : FileConfig
    pub section : Option Text

  -- `assign`, with `place` the line.
  unfoldable pub assign : Text → Text → ℕ → Settings f → Result ConfigError (Settings f)
  assign key value place s =
      let invalid = λ (e : ValueError). invalid_value place key value e in
      let connect = s.connect in
      if eq_text key (codes "index")
      then (do
        n ← ok_or (parse_radix 10 (2 ^ 64) value) (invalid not_a_number)
        ok (record s { connect = record connect { index = some n } }))
      else if eq_text key (codes "interval")
      then (do
        i ← map_err (λ e. invalid (bad_interval e)) (parse_interval f value)
        ok (record s { connect = record connect { interval = some i } }))
      else if eq_text key (codes "addr")
      then (do
        a ← ok_or (f.parse_bd_addr value) (invalid not_an_address)
        ok (record s { connect = record connect { addr = some a } }))
      else if eq_text key (codes "socket")
      then ok (record s { socket = some value })
      else if eq_text key (codes "socket_mode")
      then (do
        m ← map_err (λ e. invalid (bad_socket_mode e)) (parse_socket_mode value)
        ok (record s { socket_mode = some m }))
      else if eq_text key (codes "metrics_listen")
      then (do
        a ← ok_or (f.parse_socket_addr value) (invalid not_a_socket_address)
        ok (record s { metrics_listen = some a }))
      else err (unknown_key place key)

  open_section : ℕ → Text → Reader → Result ConfigError Reader
  open_section place device r =
      let entered = record (r.config) {
        devices = change (λ s. s) (default_settings f) device r.config.devices;
      } in
      if is_empty_text device
      then err (unnamed_section place)
      else ok (record { config = entered; section = some device })

  -- A line that starts with a bracket; `header` is what follows it.
  read_header : ℕ → Text → Text → Reader → Result ConfigError Reader
  unfolding open_section
  read_header place line header r = do
    name ← ok_or (strip_suffix (codes "]") header) (unterminated_header place line)
    device ← ok_or (strip_prefix (codes "devices.") (trim name)) (unknown_section place (trim name))
    open_section place (unquote (trim device)) r

  set_default : ℕ → Text → Option Text → Reader → Result ConfigError Reader
  set_default place value (some name) r = err (misplaced_default place)
  set_default place value none r =
      ok (record r { config = record (r.config) { default_device = some value } })

  -- The keys of a section go to its settings, the others to the defaults.
  set_key : ℕ → Text → Text → Option Text → Reader → Result ConfigError Reader
  unfolding assign
  set_key place key value none r = do
    s ← assign key value place r.config.defaults
    ok (record r { config = record (r.config) { defaults = s } })
  set_key place key value (some name) r = do
    s ← assign key value place (unwrap_or (lookup name r.config.devices) (default_settings f))
    ok (record r {
      config = record (r.config) { devices = change (λ _. s) s name r.config.devices };
    })

  read_pair : ℕ → Text → Reader → Result ConfigError Reader
  unfolding set_default set_key unquote
  read_pair place line r = do
    (k, v) ← ok_or (split_once b'=' line) (expected_key_value place line)
    if eq_text (trim k) (codes "default")
        then set_default place (unquote (trim v)) r.section r
        else set_key place (trim k) (unquote (trim v)) r.section r

  -- One line, trimmed. Blank lines and comments are skipped.
  read_line : ℕ → Text → Reader → Result ConfigError Reader
  unfolding read_header read_pair
  read_line place line r =
      let rest : Result ConfigError Reader = elim (strip_prefix (codes "[") line) [
        | some header ↦ read_header place line header r
        | none ↦ read_pair place line r
      ] in
      if is_empty_text line || starts_with b'#' line then ok r else rest

  read_lines : ℕ → List Text → Reader → Result ConfigError Reader
  unfolding read_line
  read_lines place [] r = ok r
  read_lines place (l ∷ ls) r = do next ← read_line place (trim l) r; read_lines (place + 1) ls next

  -- A default must name a section.
  check_default : FileConfig → Option Text → Result ConfigError FileConfig
  check_default config none = ok config
  check_default config (some name) =
      if is_some (lookup name config.devices) then ok config else err (unknown_default name)

  abbrev pub empty_config : Text → FileConfig
  empty_config path = record {
    defaults = default_settings f;
    devices = [];
    default_device = none;
    path = path;
  }

  unfoldable pub parse_config : Text → Text → Result ConfigError FileConfig
  unfolding read_lines check_default
  parse_config text path = do
    r ← read_lines 1 (lines text) (record { config = empty_config path; section = none })
    check_default r.config r.config.default_device

  named : FileConfig → Option Text → Result ConfigError (Settings f)
  named config none = ok config.defaults
  named config (some name) = do
    device ← ok_or (lookup name config.devices) (unknown_device name)
    ok (or f device config.defaults)

  -- `FileConfig::profile`: the name given, or else the file's default, or else the defaults alone.
  unfoldable pub profile : Option Text → FileConfig → Result ConfigError (Settings f)
  unfolding named
  profile name config = named config (or_else name config.default_device)
