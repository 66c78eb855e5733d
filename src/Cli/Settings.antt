-- ===== src/Cli/Settings.antt =====
-- src/cli.rs, `ConnectOpts`, `Settings` and `ConnectionConfig`: what one device needs, and how the
-- sources of it are laid over one another.
pub mod Overlay
use btwattch2_rs.Prelude.{ℕ, Option, none, some, or_else, unwrap_or, Result, ok, err, ◌>>=◌, ok_or}
use btwattch2_rs.Prelude.Text.{Text}
use btwattch2_rs.Cli.Foreign.{Foreign}
use btwattch2_rs.Cli.Values.{default_interval, default_socket_mode}

abbrev pub default_index : ℕ
default_index = 0

-- The error when no address is given.
pub data SettingsError : Type 0 where
  no_device_address : SettingsError

module _ (f : Foreign) where
  pub record ConnectOpts : Type 0 where
    pub index : Option ℕ
    pub addr : Option f.BdAddr
    pub interval : Option ℕ

  pub record Settings : Type 0 where
    pub connect : ConnectOpts
    pub socket : Option Text
    pub socket_mode : Option ℕ
    pub metrics_listen : Option f.SocketAddr

  pub record ConnectionConfig : Type 0 where
    pub index : ℕ
    pub addr : f.BdAddr
    pub interval : ℕ

  -- `Settings::default`.
  abbrev pub default_settings : Settings
  default_settings = record {
    connect = record { index = none; addr = none; interval = none };
    socket = none;
    socket_mode = none;
    metrics_listen = none;
  }

  -- `ConnectOpts::or`: a field that is set in the first wins.
  unfoldable pub or_connect : ConnectOpts → ConnectOpts → ConnectOpts
  or_connect a b = record {
    index = or_else a.index b.index;
    addr = or_else a.addr b.addr;
    interval = or_else a.interval b.interval;
  }

  -- `Settings::or`.
  unfoldable pub or : Settings → Settings → Settings
  unfolding or_connect
  or a b = record {
    connect = or_connect a.connect b.connect;
    socket = or_else a.socket b.socket;
    socket_mode = or_else a.socket_mode b.socket_mode;
    metrics_listen = or_else a.metrics_listen b.metrics_listen;
  }

  unfoldable pub socket_mode_bits : Settings → ℕ
  socket_mode_bits s = unwrap_or s.socket_mode default_socket_mode

  unfoldable pub adapter_index : Settings → ℕ
  adapter_index s = unwrap_or s.connect.index default_index

  unfoldable pub connection_config : Settings → Result SettingsError ConnectionConfig
  unfolding adapter_index
  connection_config s = do
    addr ← ok_or s.connect.addr no_device_address
    ok (record {
      index = adapter_index s;
      addr = addr;
      interval = unwrap_or s.connect.interval default_interval;
    })
