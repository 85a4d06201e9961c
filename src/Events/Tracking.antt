-- ===== src/Events/Tracking.antt =====
-- The event executor and the service executor together: the service that an event starts, the
-- label that the event runs under, and the stop that a client asks for.
use service_excutor.Prelude.{ℕ, insert, erase, nat_key, text_key}
use service_excutor.Types.{service_cmd_start, SaceCommand, SaceResult}
use service_excutor.Service.State
use service_excutor.Events.State.{Event, SaceEvent, World, clone_service_command, post_start}
use service_excutor.Events.Monitor.{forward}
use service_excutor.Events.Monitor

-- The state after the event was started and the service executor's result was handled.
abbrev tracked : World → Event → SaceResult → ℕ → SaceEvent → SaceEvent
tracked y e r label s =
    let s1 = post_start y e s in
    forward r (record s1 {
      starting_events = erase e.cmd.name s1.starting_events;
      running_events = insert e.cmd.name label s1.running_events;
    })

abbrev pub start_command : Event → SaceCommand
start_command e = clone_service_command service_cmd_start e.cmd
