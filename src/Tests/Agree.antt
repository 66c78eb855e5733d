-- ===== src/Tests/Agree.antt =====
-- Two clients of an agent, one of which has taken a measurement that the other has not.
use btwattch2_rs.Prelude.{ℕ, refl, true, false, [], ◌∷◌, Option, none, some, Bytes, ok}
use btwattch2_rs.Prelude.Int.{pos}
use btwattch2_rs.Prelude.Text.{Text, codes}
use btwattch2_rs.Agent.Actor.{wants_poll, handle_notification}
use btwattch2_rs.Agent.Actor.Requests.{handle}
use btwattch2_rs.Agent.Clients.{is_empty, reap, add, broadcast}
use btwattch2_rs.Agent.Handler.{Exchange, handle_client}
use btwattch2_rs.Agent.Link.{Link}
use btwattch2_rs.Agent.Loop.{request, notification, step}
use btwattch2_rs.Agent.Protocol.{Request, Response, subscribe, measurement, from_measurement}
use btwattch2_rs.Agent.Process.{
  answering, hearing, handling, start_tasks, Process, Label, internal, answered, passed_on, reading,
  relaying, exchanged, relayed, acted,
}
use btwattch2_rs.Agent.Process.Steps.{
  Reach, begun, then_step, accepted, line_read, message_relayed, taken_up, handled,
}
use btwattch2_rs.Agent.Process.Order.{SameMeasurements, subscribers_agree}
use btwattch2_rs.Agent.Status.{second}
use btwattch2_rs.Connection.Assembler.{feed}
use btwattch2_rs.Connection.Measure.{
  try_measurement, read_measure, read_timestamp, local_datetime, u48_le,
}
use btwattch2_rs.Connection.Replies.{closed, event, c_rx}
use btwattch2_rs.Payload.{generate, crc8}
use btwattch2_rs.Tests.World.{whole_numbers, calendar, good_link}
use btwattch2_rs.Tests.Startup.{no_info}

-- A measurement of 1905, all of its bytes five.
abbrev report : Bytes
report = generate (
    5 ∷ 5 ∷ 5 ∷ 5 ∷ 5 ∷ 5 ∷ 5 ∷ 5 ∷ 5 ∷ 5 ∷ 5 ∷ 5 ∷ 5 ∷ 5 ∷ 5 ∷ 5 ∷ 5 ∷ 5 ∷ 5 ∷ 5 ∷ 5 ∷ 5 ∷ 5 ∷ 5
    ∷ 5 ∷ 5 ∷ [])

abbrev metering : Link
metering = record good_link {
  listen = λ conn. (ok (event (record { uuid = c_rx; value = report }) closed), conn);
}

abbrev Agent : Type 0
Agent = Process whole_numbers calendar metering

abbrev all_subscribe : Text → Option Request
all_subscribe line = some subscribe

abbrev subscribe_read : Exchange ℕ ℕ
subscribe_read = handle_client all_subscribe (some (codes "listen")) 1 false true no_info []

abbrev two_connected : Agent
two_connected = record (start_tasks whole_numbers calendar metering 0 second none 0 0) {
  tasks = reading ∷ reading ∷ [];
}

abbrev one_asked : Agent
one_asked = exchanged whole_numbers calendar metering [] (reading ∷ []) subscribe_read two_connected

abbrev both_asked : Agent
both_asked = exchanged whole_numbers calendar metering (relaying 0 ∷ []) [] subscribe_read one_asked

abbrev first_taken : Agent
first_taken = record both_asked {
  pending = (subscribe, 1) ∷ [];
  actor_state = handling (answering subscribe 0);
}

abbrev one_subscribed : Agent
one_subscribed =
    acted whole_numbers calendar metering
      (step whole_numbers calendar metering 0 (request subscribe 0) first_taken.actor) first_taken

abbrev second_taken : Agent
second_taken = record one_subscribed {
  pending = [];
  actor_state = handling (answering subscribe 1);
}

abbrev both_subscribed : Agent
both_subscribed =
    acted whole_numbers calendar metering
      (step whole_numbers calendar metering 0 (request subscribe 1) second_taken.actor) second_taken

abbrev notified : Agent
notified = record both_subscribed { actor_state = handling hearing }

abbrev published : Agent
published =
    acted whole_numbers calendar metering
      (step whole_numbers calendar metering 0 notification both_subscribed.actor) both_subscribed

abbrev asked : Label ℕ ℕ
asked = answered (some (codes "listen")) subscribe_read

Reach-subscribed :
    Reach whole_numbers calendar metering all_subscribe
      (start_tasks whole_numbers calendar metering 0 second none 0 0)
      (internal ∷ internal ∷ internal ∷ internal ∷ asked ∷ asked ∷ internal ∷ internal ∷ [])
      both_subscribed
unfolding exchanged acted step handle_client start_tasks
Reach-subscribed =
    then_step
      (then_step
        (then_step
          (then_step
            (then_step
              (then_step (then_step (then_step begun (accepted _ refl)) (accepted _ refl)) (
                line_read two_connected [] (reading ∷ []) (some (codes "listen")) 1 false no_info
                  refl ((λ e. absurd (cc)), λ e. absurd (cc))))
              (line_read one_asked (relaying 0 ∷ []) [] (some (codes "listen")) 1 false no_info refl
                ((λ e. absurd (cc)), λ e. absurd (cc))))
            (taken_up both_asked (answering subscribe 0) ((subscribe, 1) ∷ []) refl refl))
          (handled first_taken 0 (answering subscribe 0) refl))
        (taken_up one_subscribed (answering subscribe 1) [] refl refl))
      (handled second_taken 0 (answering subscribe 1) refl)

abbrev message : Response ℕ ℕ
message = measurement 328965 5140 328965 0 (pos 61241979905)

abbrev one_written : Agent
one_written =
    relayed whole_numbers calendar metering [] (relaying 1 ∷ []) 0 true message [] published

subscribers_agree_example :
    SameMeasurements whole_numbers calendar metering both_subscribed
      (passed_on 0 true message ∷ internal ∷ internal ∷ [])
      one_written
unfolding acted step exchanged handle_client start_tasks handle wants_poll is_empty reap add
    handle_notification feed generate crc8 try_measurement read_measure read_timestamp
    local_datetime broadcast from_measurement u48_le
subscribers_agree_example =
    subscribers_agree whole_numbers calendar metering all_subscribe 0 second none 0 0
      both_subscribed one_written
      (internal ∷ internal ∷ internal ∷ internal ∷ asked ∷ asked ∷ internal ∷ internal ∷ [])
      (passed_on 0 true message ∷ internal ∷ internal ∷ []) Reach-subscribed
      (then_step
        (then_step (then_step begun (taken_up both_subscribed hearing [] refl refl))
          (handled notified 0 hearing refl))
        (message_relayed published [] (relaying 1 ∷ []) 0 true message [] refl refl))
