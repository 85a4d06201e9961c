-- ===== src/Events/Handlers.antt =====
-- `SaceEvent::excuteNormal` and `add_writers`: what a client's message does.
use service_excutor.Prelude.{
  ℕ, Bool, false, not, List, [], ◌∷◌, Option, none, some, Text, lookup, has, insert, store, erase,
  nat_key, text_key, text_eqb, nat_eqb, if◌then◌else◌, ◌>>=◌,
}
use service_excutor.Types.{
  EventType, event_type_add, event_type_del, event_type_info, event_type_other, Payload,
  normal_payload, service_payload, event_payload, other_payload, service_cmd_info, SaceCommand,
  SaceWriter, SaceReaderMessage, message_type_normal, message_type_event, ResultStatus,
  result_status_ok, result_status_fail, result_status_exists, send_result, Params, command_params,
  event_params,
}
use service_excutor.Service.State.{add_writer}
use service_excutor.Service.Handlers.{with_status, service_get_by_name}
use service_excutor.Params.Parsing.{Trigger, parse_event_params}
use service_excutor.Events.State.{
  SaceEvent, World, emit, post, own_message, to_services, pipe_writer, clone_service_command, poll,
  start_event, stop_event,
}
use service_excutor.Events.Saving.{write_ini_file}

-- `add_writers`
unfoldable pub add_writers : Text → SaceWriter → SaceEvent → SaceEvent
unfolding add_writer
add_writers name wr s = elim (lookup name s.writers) [
  | none ↦ record s { writers = insert name (wr ∷ []) s.writers }
  | some ws ↦ record s { writers = store name (add_writer wr ws) s.writers }
]

-- The label `err`.
unfoldable pub answer : ResultStatus → SaceCommand → SaceWriter → SaceEvent → SaceEvent
answer st c wr s = emit (send_result wr (with_status st c)) s

-- The end of the function: the file, then the label.
unfoldable pub save_and_answer :
    World → ResultStatus → SaceCommand → SaceWriter → SaceEvent → Option SaceEvent
save_and_answer y st c wr s = write_ini_file y s >>= λ t. some (answer st c wr t)

-- `memcpy(&stop, extra, extraLen)` into a `bool` that is false.
unfoldable pub stop_flag : List ℕ → Option Bool
stop_flag [] = some false
stop_flag (b ∷ []) = some (not (nat_eqb b 0))
stop_flag (b ∷ c ∷ bs) = none

unfoldable pub stop_running : SaceCommand → SaceWriter → SaceEvent → SaceEvent
stop_running c wr s = elim (lookup c.name s.running_events) [
  | none ↦ s
  | some label ↦ add_writers c.name wr (stop_event label c.sequence s)
]

-- SACE_EVENT_TYPE_DEL
unfoldable pub delete_event : World → SaceCommand → SaceWriter → SaceEvent → Option SaceEvent
delete_event y c wr s = stop_flag c.extra >>= λ stop.
    if has c.name s.events
    then (let t = record s { events = erase c.name s.events } in
        save_and_answer y result_status_ok c wr (if stop then stop_running c wr t else t))
    else some (answer result_status_fail c wr s)

-- The triggers of the parameters; none where there are no parameters.
unfoldable pub parse_triggers : Option Params → Option (List Trigger)
parse_triggers none = some []
parse_triggers (some (event_params p)) = parse_event_params p
parse_triggers (some (command_params p)) = none

-- `make_shared<Service>`
unfoldable pub make_event : World → List Trigger → SaceCommand → SaceEvent → SaceEvent
make_event y ts c s = record s { heap = store y.fresh (record { triggers = ts; cmd = c }) s.heap }

unfoldable pub add_new :
    World → List Trigger → SaceCommand → SaceWriter → SaceEvent → Option SaceEvent
add_new y [] c wr s = some (answer result_status_fail c wr s)
add_new y (t ∷ ts) c wr s = poll y y.fresh (make_event y (t ∷ ts) c s) >>= λ (fired, s1).
    (if fired then start_event y y.fresh s1 else some s1) >>= λ s2.
    save_and_answer y result_status_ok c wr (record s2 { events = insert c.name y.fresh s2.events })

-- SACE_EVENT_TYPE_ADD
unfoldable pub add_event : World → SaceCommand → SaceWriter → SaceEvent → Option SaceEvent
add_event y c wr s =
    if has c.name s.events
    then some (answer result_status_exists c wr s)
    else (parse_triggers c.params >>= λ ts. add_new y ts c wr s)

-- SACE_EVENT_TYPE_INFO: the service executor answers, over the event thread.
unfoldable pub info_event : World → SaceCommand → SaceWriter → SaceEvent → SaceEvent
info_event y c wr s =
    if text_eqb c.command service_get_by_name
    then (if has c.name s.running_events
        then post
            (own_message (to_services (clone_service_command service_cmd_info c) (pipe_writer y)))
            (add_writers c.name wr s)
        else answer result_status_fail c wr s)
    else answer result_status_fail c wr s

-- The chain on the type; one that names no enumerator saves the file and fails.
unfoldable pub handle : World → EventType → SaceCommand → SaceWriter → SaceEvent → Option SaceEvent
handle y event_type_del c wr s = delete_event y c wr s
handle y event_type_add c wr s = add_event y c wr s
handle y event_type_info c wr s = some (info_event y c wr s)
handle y (event_type_other n) c wr s = save_and_answer y result_status_fail c wr s

-- Reading an arm of the union that `type` does not name is undefined behaviour.
unfoldable pub excute_payload :
    World → Payload → SaceCommand → SaceWriter → SaceEvent → Option SaceEvent
excute_payload y (event_payload t f) c wr s = handle y t c wr s
excute_payload y (normal_payload t f) c wr s = none
excute_payload y (service_payload t f) c wr s = none
excute_payload y (other_payload n) c wr s = none

unfoldable pub excute_normal : World → SaceReaderMessage → SaceEvent → Option SaceEvent
excute_normal y m s = elim m.msg_type [
  | message_type_normal ↦ excute_payload y m.msg_cmd.payload m.msg_cmd m.msg_writer s
  | message_type_event ↦ some s
]
