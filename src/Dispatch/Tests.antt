-- ===== src/Dispatch/Tests.antt =====
-- Messages on their way to the executors, and instances of the theorems on them.
use service_excutor.Prelude.{ℕ, ◌≡◌, refl, true, false, List, [], ◌∷◌, ◌++◌, none, some, codes}
use service_excutor.Types.{
  MessageHandlerType, message_handler_normal, message_handler_service, message_handler_event,
  SaceCommand, Payload, normal_payload, service_payload, event_payload, other_payload, payload_type,
  normal_cmd_start, service_cmd_stop, event_type_add, cmd_flag_in, service_flag_normal,
  event_flag_none, same_handler,
}
use service_excutor.Dispatch.Queue.{
  Queue, pushes, posts, waiting, gone, step, Reachable, starts, steps,
}
use service_excutor.Dispatch.Progress.{run, rounds, queue_order, queue-drain}
use service_excutor.Dispatch.Routing.{
  type_cmd_to_msg, start, dispatch, sent_to, keep, is_unrouted, dispatch-start,
}
use service_excutor.Dispatch.Shutdown.{Poll, poll_wake, poll_callback, poll_timeout, poll_error}

abbrev command : Payload → ℕ → SaceCommand
command p n = record {
  sequence = n;
  label = 0;
  name = codes "c";
  command = codes "id";
  params = none;
  extra = [];
  payload = p;
}

abbrev starting : Payload
starting = normal_payload normal_cmd_start cmd_flag_in

abbrev stopping : Payload
stopping = service_payload service_cmd_stop service_flag_normal

abbrev adding : Payload
adding = event_payload event_type_add event_flag_none

abbrev handler : SaceCommand → MessageHandlerType
handler c = type_cmd_to_msg (payload_type c.payload)

abbrev commands : List SaceCommand
commands =
    command stopping 1
    ∷ command starting 2
    ∷ command (other_payload 9) 3
    ∷ command stopping 4
    ∷ command adding 5
    ∷ []

dispatch-start_example :
    let d = dispatch handler commands start in
    (sent_to message_handler_service d.excutors
      ≡ keep (λ c. same_handler (handler c) message_handler_service) commands)
    × (sent_to message_handler_normal d.excutors
        ≡ keep (λ c. same_handler (handler c) message_handler_normal) commands)
    × (sent_to message_handler_event d.excutors
        ≡ keep (λ c. same_handler (handler c) message_handler_event) commands)
    × (d.defaults ≡ keep (λ c. is_unrouted (handler c)) commands)
dispatch-start_example = dispatch-start handler commands

-- A poll without messages, some messages, an idle second, and messages that come too late.
abbrev early : List (Poll SaceCommand)
early = poll_wake ∷ poll_timeout ∷ poll_callback commands ∷ []

abbrev late : List (Poll SaceCommand)
late = poll_callback commands ∷ poll_error ∷ []

-- Two messages were sent and their tokens posted.
abbrev two_queued : Queue ℕ
two_queued = record {
  cmd_queue = 5 ∷ 6 ∷ [];
  sync_sem = 2;
  exit = false;
  posting = 0;
  thread = waiting;
  sent = 5 ∷ 6 ∷ [];
  handled = [];
}

two_queued-Reachable : Reachable two_queued
unfolding step
two_queued-Reachable =
    steps posts (steps posts (steps (pushes 6) (steps (pushes 5) starts refl) refl) refl) refl

queue_order_example : two_queued.sent ≡ [] ++ ([] ++ 5 ∷ 6 ∷ [])
queue_order_example = queue_order two_queued two_queued-Reachable

queue-drain_example :
    (r : Queue ℕ) × (run (rounds 2) two_queued ≡ some r)
    × (r.cmd_queue ≡ [])
    × (r.handled ≡ 5 ∷ 6 ∷ [])
queue-drain_example = queue-drain two_queued two_queued-Reachable refl refl refl

-- The exit was asked for with two messages in the queue.
abbrev exiting : Queue ℕ
exiting = record two_queued { exit = true; sync_sem = 3 }

abbrev after_exit : Queue ℕ
after_exit = record exiting {
  cmd_queue = 6 ∷ 7 ∷ [];
  sync_sem = 2;
  handled = 5 ∷ [];
  thread = gone;
  posting = 1;
  sent = 5 ∷ 6 ∷ 7 ∷ [];
}
