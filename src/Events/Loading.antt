-- ===== src/Events/Loading.antt =====
-- `SaceEvent::onInit`: the pipe, the events of the file, and the event thread.
use service_excutor.Prelude.{
  ℕ, suc, Bool, false, List, [], ◌∷◌, Option, some, Text, Map, if◌then◌else◌, ◌>>=◌,
}
use service_excutor.Types.{SaceCommand, SaceEventParams, event_params}
use service_excutor.Params.Parsing.{Trigger}
use service_excutor.Client.Calls.{init_command}
use service_excutor.Ini.Attributes.{Stream}
use service_excutor.Ini.Sections.{Draft, parse_none}
use service_excutor.Ini.File.{read_ini_file}
use service_excutor.Events.State.{Event, SaceEvent}

abbrev pub Parsed : Type 0
Parsed = Map Text (Draft × List Trigger)

-- The command that the file's lines are for, over one that its constructor made: it stays a normal
-- command.
unfoldable pub parsed_command : Text → ℕ → Draft → SaceCommand
unfolding init_command
parsed_command self_name number d = record (init_command self_name number) {
  name = d.name;
  command = d.command;
  params = some (event_params d.params);
}

-- The events of the file as entries and objects, at addresses from `a` on; `number` is the number
-- that the command of a name got.
module _ (self_name : Text) (number : Text → ℕ) where
  unfoldable pub parsed_event : Draft × List Trigger → Event
  unfolding parsed_command
  parsed_event (d, ts) = record { triggers = ts; cmd = parsed_command self_name (number d.name) d }

  unfoldable pub loaded_events : ℕ → Parsed → Map Text ℕ
  loaded_events a [] = []
  loaded_events a ((name, p) ∷ m) = (name, a) ∷ loaded_events (suc a) m

  unfoldable pub loaded_heap : ℕ → Parsed → Map ℕ Event
  unfolding parsed_event
  loaded_heap a [] = []
  loaded_heap a ((name, p) ∷ m) = (a, parsed_event p) ∷ loaded_heap (suc a) m

  -- Into an object that has no events.
  unfoldable pub load : Parsed → SaceEvent → SaceEvent
  load m s = record s { events = loaded_events 1 m; heap = loaded_heap 1 m }

  module _ (isspace : ℕ → Bool) (y : Stream) (caps limits : Map Text ℕ)
      (fresh : SaceEventParams) where
    -- `pipe` and `thread` are whether `pipe` and `pthread_create` succeed.
    unfoldable pub on_init :
        (pipe thread : Bool)
        → (data_ini default_ini : Option Text) → SaceEvent
        → Option (Bool × SaceEvent)
    on_init pipe thread data_ini default_ini s =
        if pipe
        then (read_ini_file isspace y caps limits fresh data_ini default_ini
              (record { state = parse_none; events = [] })
            >>= λ (opened, r). some (thread, load r.events s))
        else some (false, s)
