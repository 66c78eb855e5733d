-- ===== src/Tests/Process.antt =====
-- An agent whose tasks run side by side, stopped by a client beside one that says nothing.
use btwattch2_rs.Prelude.{
  ℕ, ◌≡◌, refl, true, false, [], ◌∷◌, List, Option, some, if◌then◌else◌, none,
}
use btwattch2_rs.Prelude.Text.{Text, codes, eq_text}
use btwattch2_rs.Agent.Handler.{Exchange, handle_client}
use btwattch2_rs.Agent.Protocol.{Request, shutdown, subscribe}
use btwattch2_rs.Agent.Loop.Run.{Over}
use btwattch2_rs.Agent.Process.{
  start_tasks, Process, Label, internal, answered, told_to, over, ended, reading, relaying,
  exchanged, leave, break_off,
}
use btwattch2_rs.Agent.Process.Steps.{
  Reach, begun, then_step, accepted, line_read, take_shutdown, shut_down, let_go, joined,
}
use btwattch2_rs.Agent.Process.Told.{Told}
use btwattch2_rs.Agent.Process.Ends.{Reach-Over}
use btwattch2_rs.Tests.World.{whole_numbers, calendar, good_link}
use btwattch2_rs.Agent.Status.{second}
use btwattch2_rs.Tests.Startup.{decode, no_info}

abbrev Agent : Type 0
Agent = Process whole_numbers calendar good_link

abbrev two_connected : Agent
two_connected = record (start_tasks whole_numbers calendar good_link 0 second none 0 0) {
  tasks = reading ∷ reading ∷ [];
}

abbrev stop_read : Exchange ℕ ℕ
stop_read = handle_client decode (some (codes "stop")) 1 false true no_info []

abbrev answered_stop : Agent
answered_stop = exchanged whole_numbers calendar good_link [] (reading ∷ []) stop_read two_connected

abbrev left : Agent
left = leave whole_numbers calendar good_link (record answered_stop { shutdown = false })

abbrev broken_off : Agent
broken_off =
    break_off whole_numbers calendar good_link left.actor (record left { actor_shutdown = false })

abbrev ended_actor : Agent
ended_actor = record broken_off { actor_state = ended; pending = [] }

abbrev finished : Agent
finished = record ended_actor { phase = over told_to }

abbrev labels_to_stop : List (Label ℕ ℕ)
labels_to_stop = answered (some (codes "stop")) stop_read ∷ internal ∷ internal ∷ []

Reach-answered :
    Reach whole_numbers calendar good_link decode
      (start_tasks whole_numbers calendar good_link 0 second none 0 0)
      labels_to_stop
      answered_stop
unfolding exchanged start_tasks
Reach-answered = then_step (then_step (then_step begun (accepted _ refl)) (accepted _ refl)) (
    line_read two_connected [] (reading ∷ []) (some (codes "stop")) 1 false no_info refl
      ((λ e. absurd (cc)), λ e. absurd (cc)))

Reach-finished :
    Reach whole_numbers calendar good_link decode
      (start_tasks whole_numbers calendar good_link 0 second none 0 0)
      (internal ∷ internal ∷ internal ∷ internal ∷ labels_to_stop)
      finished
unfolding exchanged leave break_off handle_client start_tasks
Reach-finished =
    then_step
      (then_step
        (then_step (then_step Reach-answered (take_shutdown answered_stop refl refl))
          (shut_down left refl refl))
        (let_go broken_off refl))
      (joined ended_actor refl refl)

Reach-Over_example :
    (told_to ≡ told_to)
    × Told whole_numbers calendar good_link decode
        (internal ∷ internal ∷ internal ∷ internal ∷ labels_to_stop)
    × Over whole_numbers calendar good_link finished.actor
Reach-Over_example =
    Reach-Over whole_numbers calendar good_link decode 0 second none 0 0 finished
      (internal ∷ internal ∷ internal ∷ internal ∷ labels_to_stop) told_to Reach-finished refl

-- One client subscribes, but the other stops the agent before the actor takes that up.
abbrev decode_two : Text → Option Request
decode_two line = if eq_text line (codes "stop") then some shutdown else some subscribe

abbrev subscribe_read : Exchange ℕ ℕ
subscribe_read = handle_client decode_two (some (codes "listen")) 1 false true no_info []

abbrev one_waits : Agent
one_waits =
    exchanged whole_numbers calendar good_link [] (reading ∷ []) subscribe_read two_connected

abbrev stop_read_too : Exchange ℕ ℕ
stop_read_too = handle_client decode_two (some (codes "stop")) 1 false true no_info []

abbrev stop_answered_too : Agent
stop_answered_too =
    exchanged whole_numbers calendar good_link (relaying 0 ∷ []) [] stop_read_too one_waits

abbrev left_too : Agent
left_too = leave whole_numbers calendar good_link (record stop_answered_too { shutdown = false })

abbrev broken_off_too : Agent
broken_off_too =
    break_off whole_numbers calendar good_link left_too.actor
      (record left_too { actor_shutdown = false })

abbrev nobody_answers : Agent
nobody_answers = record broken_off_too { actor_state = ended; pending = [] }

abbrev hung_up_on : Agent
hung_up_on = record nobody_answers { tasks = [] }
