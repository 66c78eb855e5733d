-- ===== src/Agent/Signals.antt =====
-- src/agent/server.rs, `Shutdown`: the signals that end the agent.
use btwattch2_rs.Prelude.{
  ◌≡◌, refl, Bool, true, false, if◌then◌else◌, List, [], ◌∷◌, Option, none, some,
}
use btwattch2_rs.Prelude.Text.{Text, codes}

pub data SignalKind : Type 0 where
  interrupt terminate : SignalKind

-- Whether each has a handler. One that could not be registered never fires here: it keeps its
-- default, and ends the process outright.
pub record Shutdown : Type 0 where
  pub interrupt : Bool
  pub terminate : Bool

-- `register` is whether the system lets a handler be registered.
unfoldable pub new : (SignalKind → Bool) → Shutdown
new register = record {
  interrupt = register SignalKind.interrupt;
  terminate = register SignalKind.terminate;
}

wait : Shutdown → SignalKind → Bool
wait s interrupt = s.interrupt
wait s terminate = s.terminate

reason : SignalKind → Text
reason interrupt = codes "SIGINT"
reason terminate = codes "SIGTERM"

-- The first that fires of those that arrive, in the order in which the select sees them, with what arrives after it; `none` where none does.
unfoldable pub recv : Shutdown → List SignalKind → Option (Text × List SignalKind)
unfolding wait reason
recv s [] = none
recv s (kind ∷ later) =
    let rest = recv s later in if wait s kind then some (reason kind, later) else rest

test_unregistered :
    recv
      (new (λ k. elim k [ interrupt ↦ false | terminate ↦ true ]))
      (SignalKind.interrupt ∷ SignalKind.terminate ∷ [])
    ≡ some (codes "SIGTERM", [])
unfolding recv new
test_unregistered = refl
