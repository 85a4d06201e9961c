-- ===== src/Events/State.antt =====
-- The state of `SaceEvent`. A `shared_ptr<Service>` is the address of an entry of `heap`, where
-- nothing is freed while it is pointed to. A step that has undefined behaviour is `none`.
use service_excutor.Prelude.{
  ℕ, Bool, true, false, List, [], ◌∷◌, ◌++◌, Option, some, Text, Map, lookup, insert, store,
  nat_key, text_key, nat_eqb, if◌then◌else◌, ◌>>=◌,
}
use service_excutor.Types.{
  SaceCommand, SaceWriter, SaceReaderMessage, Effect, message_handler_service, message_type_normal,
  service_payload, service_cmd_start, service_flag_event, ServiceCommandType, stop_writer,
  event_writer,
}
use service_excutor.Params.Triggers.{property_triggered, boot_triggered}
use service_excutor.Params.Parsing.{Trigger, on_property, on_boot}

-- `SaceEvent::Service`
pub record Event : Type 0 where
  pub triggers : List Trigger
  pub cmd : SaceCommand

-- A message that was posted: one of its own, or `mStopMsg`, of which there is one object.
pub data Posted : Type 0 where
  own_message : SaceReaderMessage → Posted
  stop_message : Posted

abbrev pub NameSet : Type 0
NameSet = Map Text (Unit {0})

-- `stop_label` and `stop_sequence` are what changes in `mStopMsg`; `stop_cmd` is its command as it
-- was made.
pub record SaceEvent : Type 0 where
  pub events : Map Text ℕ
  pub writers : Map Text (List SaceWriter)
  pub running_events : Map Text ℕ
  pub failed_events : NameSet
  pub starting_events : NameSet
  pub heap : Map ℕ Event
  pub stop_cmd : SaceCommand
  pub posted : List Posted
  pub ini_file : Text
  pub trace : List Effect

-- What the system answers during one call: a new address, the daemon's pid, the values of
-- properties, whether the event file can be opened and created, and decimal numbers.
pub record World : Type 0 where
  pub fresh : ℕ
  pub pid : ℕ
  pub property : Text → Text
  pub exists : Bool
  pub opens : Bool
  pub streams : Bool
  pub show : ℕ → Text

unfoldable pub emit : Effect → SaceEvent → SaceEvent
emit x s = record s { trace = s.trace ++ x ∷ [] }

unfoldable pub post : Posted → SaceEvent → SaceEvent
post m s = record s { posted = s.posted ++ m ∷ [] }

abbrev pub to_services : SaceCommand → SaceWriter → SaceReaderMessage
to_services c wr = record {
  msg_handler = message_handler_service;
  msg_type = message_type_normal;
  msg_cmd = c;
  msg_writer = wr;
}

abbrev pub pipe_writer : World → SaceWriter
pipe_writer y = record { id = y.pid; channel = event_writer }

-- `SaceEventStopWriter` has the id -1.
abbrev pub silent_writer : SaceWriter
silent_writer = record { id = 4294967295; channel = stop_writer }

-- What the dispatcher's thread finds when it follows the pointer.
unfoldable pub delivered : SaceEvent → Posted → SaceReaderMessage
delivered s (own_message m) = m
delivered s stop_message = to_services s.stop_cmd silent_writer

-- `clone_service_command`, with the type of the command that the caller may set after it.
unfoldable pub clone_service_command : ServiceCommandType → SaceCommand → SaceCommand
clone_service_command t c = record c { extra = []; payload = service_payload t service_flag_event }

-- `SaceEvent::Service::triggered` over the triggers from left to right, up to the first that fires.
unfoldable pub triggered : (Text → Text) → List Trigger → Bool × List Trigger
triggered property [] = (false, [])
triggered property (on_property t ∷ ts) =
    let (fired, t') = property_triggered (property t.property_name) t in
    let rest = triggered property ts in
    if fired then (true, on_property t' ∷ ts) else (rest.0, on_property t' ∷ rest.1)
triggered property (on_boot t ∷ ts) =
    let (fired, t') = boot_triggered t in
    let rest = triggered property ts in
    if fired then (true, on_boot t' ∷ ts) else (rest.0, on_boot t' ∷ rest.1)

-- The call on the object, which keeps the changes of its triggers.
unfoldable pub poll : World → ℕ → SaceEvent → Option (Bool × SaceEvent)
unfolding triggered
poll y a s = lookup a s.heap >>= λ e.
    let (fired, ts) = triggered y.property e.triggers in
    some (fired, record s { heap = store a (record e { triggers = ts }) s.heap })

-- What `start_event` does with the object: the message, and the name among those that start.
unfoldable pub post_start : World → Event → SaceEvent → SaceEvent
post_start y e s =
    post (own_message (to_services (clone_service_command service_cmd_start e.cmd) (pipe_writer y)))
      (record s { starting_events = insert e.cmd.name tt s.starting_events })

-- `start_event`
unfoldable pub start_event : World → ℕ → SaceEvent → Option SaceEvent
start_event y a s = lookup a s.heap >>= λ e. some (post_start y e s)

-- `stop_event`: the one stop message gets the label, and the number unless it is 0.
unfoldable pub stop_event : ℕ → ℕ → SaceEvent → SaceEvent
unfolding post
stop_event label sequence s =
    let c = record s.stop_cmd { label = label } in
    let c' = if nat_eqb sequence 0 then c else record c { sequence = sequence } in
    post stop_message (record s { stop_cmd = c' })
