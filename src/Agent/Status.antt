-- ===== src/Agent/Status.antt =====
-- src/agent/status.rs: what the agent knows about itself. An instant and a duration are numbers
-- of nanoseconds, and a call that reads the clock takes the instant `now`.
pub mod Fresh
use btwattch2_rs.Prelude.{
  ℕ, ◌+◌, ◌-◌, ◌*◌, ◌/◌, ◌%◌, ◌^◌, max, leb, Bool, true, false, ◌&&◌, Option, none, some, Bytes,
}
use btwattch2_rs.Float.{Float}
use btwattch2_rs.Chrono.{Chrono}
use btwattch2_rs.Connection.Measure.{Measurement}
use btwattch2_rs.Agent.Protocol.{AgentStatus}
use mathlib.Core.Option

abbrev pub second : ℕ
second = 1_000_000_000

abbrev pub min_freshness : ℕ
min_freshness = 5 * second

abbrev pub stale_after_intervals : ℕ
stale_after_intervals = 3

pub record Sample (M : Type 0) : Type 0 where
  pub reading : M
  pub at : ℕ

pub record Reading (M : Type 0) : Type 0 where
  pub measurement : Option M
  pub fresh : Bool

pub record AgentStats (M : Type 0) : Type 0 where
  pub started : ℕ
  pub interval : ℕ
  pub metrics_listen : Option Bytes
  pub connected : Bool
  pub samples : ℕ
  pub reconnects : ℕ
  pub clients : ℕ
  pub latest : Option (Sample M)

-- `elapsed` of an instant, which stops at zero.
abbrev pub elapsed : ℕ → ℕ → ℕ
elapsed now at = now - at

module _ {M : Type 0} where
  unfoldable pub new : ℕ → Option Bytes → ℕ → AgentStats M
  new interval metrics_listen now = record {
    started = now;
    interval = interval;
    metrics_listen = metrics_listen;
    connected = false;
    samples = 0;
    reconnects = 0;
    clients = 0;
    latest = none;
  }

  -- The counters wrap, as `fetch_add` does.
  unfoldable pub record_sample : ℕ → M → AgentStats M → AgentStats M
  record_sample now m s = record s {
    samples = (s.samples + 1) % 2 ^ 64;
    connected = true;
    latest = some (record { reading = m; at = now });
  }

  unfoldable pub set_connected : Bool → AgentStats M → AgentStats M
  set_connected connected s = record s { connected = connected }

  unfoldable pub record_reconnect : AgentStats M → AgentStats M
  record_reconnect s = record s { reconnects = (s.reconnects + 1) % 2 ^ 64; connected = true }

  unfoldable pub set_clients : ℕ → AgentStats M → AgentStats M
  set_clients clients s = record s { clients = clients }

  unfoldable pub stale_after : AgentStats M → ℕ
  stale_after s = max (s.interval * stale_after_intervals) min_freshness

  within : AgentStats M → ℕ → Option (Sample M) → Bool
  within s now none = false
  within s now (some sample) = leb (elapsed now sample.at) (stale_after s)

  unfoldable pub reading : ℕ → AgentStats M → Reading M
  unfolding within stale_after
  reading now s = record {
    measurement = Option.map (λ x. x.reading) s.latest;
    fresh = s.connected && within s now s.latest;
  }

  unfoldable pub sample_age : ℕ → AgentStats M → Option ℕ
  sample_age now s = Option.map (λ x. elapsed now x.at) s.latest

  -- `as_secs_f64` is an argument.
  unfoldable pub snapshot : {F : Type 0} → (ℕ → F) → ℕ → AgentStats M → AgentStatus F
  unfolding sample_age
  snapshot as_secs_f64 now s = record {
    uptime_seconds = elapsed now s.started / second;
    interval_seconds = as_secs_f64 s.interval;
    connected = s.connected;
    samples = s.samples;
    last_sample_age_seconds = Option.map as_secs_f64 (sample_age now s);
    reconnects = s.reconnects;
    clients = s.clients;
    metrics_listen = s.metrics_listen;
  }
