-- ===== src/Main/Command/Stop.antt =====
-- `agent stop` from end to end.
use btwattch2_rs.Prelude.{
  ℕ, zero, suc, ◌≡◌, ◌↔◌, refl, sym, ap, ◌∙◌, Bool, true, List, [], ◌∷◌, Option, some, Result, ok,
  err,
}
use btwattch2_rs.Prelude.Text.{Text, codes}
use btwattch2_rs.Float.{Float}
use btwattch2_rs.Cli.Foreign.{Foreign}
use btwattch2_rs.Cli.Options.{stop}
use btwattch2_rs.Cli.Settings.{Settings, ConnectionConfig}
use btwattch2_rs.Agent.Client.{ClientError, DaemonInfo, closed_early, send_shutdown}
use btwattch2_rs.Agent.Handler.{AgentInfo, handle_client}
use btwattch2_rs.Agent.Protocol.{Request, shutdown, Response, done}
use btwattch2_rs.Main.Command.{CommandError, not_stopped, stop_agent, run_agent_command}
use btwattch2_rs.Output.Printer.{Line, diagnostic}

module _ (f : Foreign) (fl : Float) (show : f.BdAddr → Text) {E R : Type 0}
    (run : ConnectionConfig f → Result R (Unit {0})) where
  abbrev pub stopped : Result (CommandError E R) (Unit {0}) × List Line
  stopped = (ok tt, diagnostic (codes "Agent stopped") ∷ [])

  abbrev pub lines_of : List (Response fl.F64 E) → List (Option (Response fl.F64 E))
  lines_of [] = []
  lines_of (r ∷ rs) = some r ∷ lines_of rs

  send_shutdown-done : send_shutdown {F = fl.F64} {E = E} (some done ∷ []) ≡ ok tt
  unfolding send_shutdown
  send_shutdown-done = refl

  send_shutdown-nil : send_shutdown {F = fl.F64} {E = E} [] ≡ err closed_early
  unfolding send_shutdown
  send_shutdown-nil = refl

  stop_agent-ok :
      (daemon : DaemonInfo fl.F64 f.BdAddr) (lines : List (Option (Response fl.F64 E)))
      → send_shutdown lines ≡ ok tt
      → stop_agent f fl show run (some daemon) lines ≡ stopped
  unfolding stop_agent
  stop_agent-ok daemon lines h = rw (stop_agent, h) refl

  stop_agent-err :
      (daemon : DaemonInfo fl.F64 f.BdAddr) (lines : List (Option (Response fl.F64 E)))
      (e : ClientError E)
      → send_shutdown lines ≡ err e
      → stop_agent f fl show run (some daemon) lines ≡ (err (not_stopped e), [])
  unfolding stop_agent
  stop_agent-err daemon lines e h = rw (stop_agent, h) refl

  failed-stopped : (e : ClientError E) → (err (not_stopped e), []) ≡ stopped → ⊥
  failed-stopped e h = let first : err (not_stopped e) ≡ ok tt = ap (λ p. p.0) h in absurd (cc)

  -- An `agent stop` that talks to a live agent reports it as stopped, without an error, exactly
  -- when the agent's connection handler told the agent to stop: so also when the handler could not
  -- write its answer, and then neither is the case.
  pub stop_iff_told :
      (decode : Text → Option Request) (line : Text) (room : ℕ) (gone accepted : Bool)
      (info : AgentInfo fl.F64) (replies : List (Response fl.F64 E))
      (daemon : DaemonInfo fl.F64 f.BdAddr) (settings : Settings f) (socket : Text) (pid : Option ℕ)
      → decode line ≡ some shutdown
      → let exchange = handle_client decode (some line) room gone accepted info replies in
        (run_agent_command f fl show run stop settings
            (some daemon)
            (lines_of exchange.written)
            socket
            pid
          ≡ stopped)
        ↔ (exchange.notified ≡ true)
  unfolding run_agent_command handle_client
  stop_iff_told decode line zero gone accepted info replies daemon settings socket pid asks =
      rw (handle_client, asks)
        (
          (λ h. absurd (
              failed-stopped closed_early
                (sym (stop_agent-err daemon [] closed_early send_shutdown-nil) ∙ h))),
          λ h. absurd (cc),
        )
  stop_iff_told decode line (suc room) gone accepted info replies daemon settings socket pid asks =
      rw (handle_client, asks)
        ((λ h. refl), λ h. stop_agent-ok daemon (some done ∷ []) send_shutdown-done)
