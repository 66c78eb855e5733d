-- ===== src/Agent/Serve.antt =====
-- src/agent/server.rs, `run`: an agent from its start to its end. Connecting, binding the metrics
-- endpoint and serving are arguments; serving is the actor and the accept loop until they stop.
use btwattch2_rs.Prelude.{ℕ, Bool, true, Option, none, some, is_some, Result, ok, err}
use btwattch2_rs.Prelude.Text.{Text}
use btwattch2_rs.Connection.Link.{Op, ◌>>=◌, ◌>>◌, lift}
use btwattch2_rs.Agent.Paths.{AgentPaths, Os, remove_files}
use btwattch2_rs.Agent.Startup.{StartError, take_over}
use btwattch2_rs.Agent.Status.{AgentStats, new, set_connected}

-- How the wait for the connection ends: a signal may come first.
pub data Connecting (Conn E : Type 0) : Type 0 where
  connected : Conn → Connecting Conn E
  connect_failed : E → Connecting Conn E
  interrupted : Connecting Conn E

pub data ServeError (E F : Type 0) : Type 0 where
  not_started : StartError E → ServeError E F
  endpoint_failed : E → ServeError E F
  no_connection serve_failed : F → ServeError E F

module _ (o : Os) (Conn F M : Type 0) where
  abbrev pub Running : Type 0 → Type 0
  Running A = Op o.System (ServeError o.Error F) A

  -- What is left to the libraries and to the other tasks.
  pub record Tasks : Type 0 where
    pub bind_metrics : Text → o.System → Result o.Error (Unit {0}) × o.System
    pub connect : o.System → Connecting Conn F × o.System
    -- With whether the device is polled when nobody is subscribed.
    pub serve : Bool → AgentStats M → Conn → o.System → Result F (Unit {0}) × o.System

  module _ (tasks : Tasks) where
    -- The guard of the files, dropped at the end.
    unfoldable pub with_files : {A : Type 0} → AgentPaths → Running A → Running A
    with_files paths m s = let (r, t) = m s in (r, remove_files o paths t)

    unfoldable pub bind_endpoint : Option Text → Running (Unit {0})
    bind_endpoint none s = (ok tt, s)
    bind_endpoint (some addr) s = lift endpoint_failed (tasks.bind_metrics addr) s

    served :
        Option Text
        → AgentStats M
        → Connecting Conn F × o.System
        → Result (ServeError o.Error F) (Unit {0}) × o.System
    served listen stats (connected conn, s) =
        lift serve_failed (tasks.serve (is_some listen) (set_connected true stats) conn) s
    served listen stats (connect_failed e, s) = (err (no_connection e), s)
    served listen stats (interrupted, s) = (ok tt, s)

    unfoldable pub run :
        {P D : Type 0}
        → (o.System → Result P D)
        → Option Text
        → AgentPaths
        → ℕ
        → ℕ
        → Option Text
        → ℕ
        → Running (Unit {0})
    unfolding with_files bind_endpoint served
    run ping parent paths mode interval metrics_listen now = do
      held ← lift not_started (take_over o ping parent paths mode)
      with_files paths (do
        bind_endpoint metrics_listen
        λ s. served metrics_listen (new interval metrics_listen now) (tasks.connect s))
