-- ===== src/Cli/Foreign.antt =====
-- What the command line takes from elsewhere, as an interface: device and socket addresses with
-- their parsers, and floating-point seconds.
use btwattch2_rs.Prelude.{ℕ, Option}
use btwattch2_rs.Prelude.Text.{Text}

pub record Foreign : Type 1 where
  pub BdAddr : Type 0
  pub parse_bd_addr : Text → Option BdAddr
  pub SocketAddr : Type 0
  pub parse_socket_addr : Text → Option SocketAddr
  pub F64 : Type 0
  pub parse_f64 : Text → Option F64
  pub mul : F64 → F64 → F64
  -- `1e-3` and `1.0`.
  pub milli : F64
  pub one : F64
  -- `Duration::try_from_secs_f64`, in nanoseconds.
  pub try_from_secs_f64 : F64 → Option ℕ
