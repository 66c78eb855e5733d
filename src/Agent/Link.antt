-- ===== src/Agent/Link.antt =====
-- What the agent's actor uses of a connection (src/connection.rs), as an interface, and the
-- connection of the `Connection` modules as one that fills it.
use btwattch2_rs.Prelude.{Bool, Bytes}
use btwattch2_rs.Connection.Replies.{Stream}
use btwattch2_rs.Connection.Ble.{Ble}
use btwattch2_rs.Connection.Link.{
  Op, LinkError, Connection, listen, write, reconnect_stream, disconnect,
}

pub record Link : Type 1 where
  pub Conn : Type 0
  pub Error : Type 0
  pub listen : Op Conn Error Stream
  -- Whether the connection was re-established along the way.
  pub write : Bytes → Op Conn Error Bool
  pub reconnect_stream : Op Conn Error Stream
  pub disconnect : Conn → Conn

abbrev pub of_ble : Ble → Link
of_ble b = record {
  Conn = Connection b;
  Error = LinkError b.Error;
  listen = listen b;
  write = write b;
  reconnect_stream = reconnect_stream b;
  disconnect = disconnect b;
}
