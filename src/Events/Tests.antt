-- ===== src/Events/Tests.antt =====
-- Events that a client adds and deletes, and instances of the theorems on them.
use service_excutor.Prelude.{
  ℕ, ◌+◌, ◌≡◌, refl, true, false, List, [], ◌∷◌, ◌++◌, some, Text, codes, insert, store, nat_key,
  text_key,
}
use service_excutor.Types.{
  message_handler_event, message_type_normal, event_type_add, event_type_del, event_flag_none,
  event_flag_restart, event_payload, event_params, Payload, SaceCommandParams, SaceEventParams,
  SaceCommand, SaceWriter, SaceReaderMessage, SaceResult, SaceStatusResponse, new_result,
  socket_writer, result_status_exists, result_type_label, response_type_service,
  response_status_signal, service_payload, service_cmd_stop, service_flag_normal, c_str,
}
use service_excutor.Service.State
use service_excutor.Service.State.{wait_none, fork_parent}
use service_excutor.Params.Parsing.{on_boot, parse_event_params, property_triggers}
use service_excutor.Events.State.{Event, SaceEvent, World}
use service_excutor.Events.Saving.{
  service_str, printed, service_line, identity_lines, rlimits_words,
}
use service_excutor.Events.Handlers.{stop_flag, parse_triggers}
use service_excutor.Events.Saved.{Saves, AllSaved}
use service_excutor.Events.Registry.{
  Request, adds, deletes, registered, Asks, asks_add, asks_delete,
}
use service_excutor.Events.Refinement.{Call, run, replay, answers, run_refines}

abbrev client : SaceWriter
client = record { id = 1000; channel = socket_writer 5 }

abbrev other : SaceWriter
other = record { id = 1001; channel = socket_writer 6 }

abbrev world : World
world = record {
  fresh = 3;
  pid = 200;
  property = λ name. [];
  exists = true;
  opens = true;
  streams = true;
  show = λ n. (48 + n) ∷ [];
}

abbrev base : SaceCommandParams
base = record {
  uid = codes "1000";
  gid = codes "1000";
  supp_gids = [];
  rlimits = [];
  seclabel = codes "u:r:su:s0";
  capabilities = [];
}

abbrev on_start : SaceEventParams
on_start = record { base = base; property_key = []; property_value = []; boot = true }

abbrev named : Text → Payload → List ℕ → SaceCommand
named n p bs = record {
  sequence = 9;
  label = 0;
  name = n;
  command = codes "logcat";
  params = some (event_params on_start);
  extra = bs;
  payload = p;
}

abbrev adding : SaceCommand
adding = named (codes "log") (event_payload event_type_add event_flag_restart) []

abbrev deleting : SaceCommand
deleting = named (codes "log") (event_payload event_type_del event_flag_none) (1 ∷ [])

abbrev message : SaceCommand → SaceReaderMessage
message c = record {
  msg_handler = message_handler_event;
  msg_type = message_type_normal;
  msg_cmd = c;
  msg_writer = client;
}

abbrev call : SaceCommand → Request → Call
call c q = record { world = world; message = message c; request = q }

abbrev fresh_events : SaceEvent
fresh_events = record {
  events = [];
  writers = [];
  running_events = [];
  failed_events = [];
  starting_events = [];
  heap = [];
  stop_cmd = named [] (service_payload service_cmd_stop service_flag_normal) [];
  posted = [];
  ini_file = [];
  trace = [];
}

adding-Saves : Saves adding
unfolding service_str printed service_line identity_lines rlimits_words c_str
adding-Saves y ts = (_, refl)

-- The event is added twice and deleted twice.
abbrev calls : List Call
calls =
    call adding (adds true (codes "log"))
    ∷ call adding (adds true (codes "log"))
    ∷ call deleting (deletes (codes "log"))
    ∷ call deleting (deletes (codes "log"))
    ∷ []

adding-Asks : Asks (message adding) (adds true (codes "log"))
unfolding parse_triggers parse_event_params property_triggers
adding-Asks =
    asks_add event_flag_restart (on_boot (record { has_triggered = false }) ∷ []) refl refl refl
      adding-Saves

deleting-Asks : Asks (message deleting) (deletes (codes "log"))
unfolding stop_flag
deleting-Asks = asks_delete event_flag_none true refl refl refl

run_refines_example :
    (t : SaceEvent) × (run calls fresh_events ≡ some t)
    × AllSaved t
    × (registered t ≡ replay calls (registered fresh_events))
    × (t.trace ≡ [] ++ answers calls (registered fresh_events))
run_refines_example =
    run_refines calls fresh_events
      (adding-Asks, (adding-Asks, (deleting-Asks, (deleting-Asks, tt)))) tt

abbrev event : Event
event = record { triggers = on_boot (record { has_triggered = true }) ∷ []; cmd = adding }

abbrev with_event : SaceEvent
with_event = record fresh_events { events = insert (codes "log") 3 []; heap = store 3 event [] }

abbrev system : State.World
system = record { fresh = 11; fork = fork_parent 111; clock = codes "now"; wait = λ _. wait_none }

-- Two events run, under the labels 11 and 12.
abbrev two_running : SaceEvent
two_running = record with_event { running_events = (codes "log", 11) ∷ (codes "top", 12) ∷ [] }

abbrev killed : SaceStatusResponse
killed = record {
  label = 11;
  name = codes "log";
  type = response_type_service;
  status = response_status_signal;
  extra = [];
}

abbrev restarted : SaceResult
restarted = record new_result {
  name = codes "log";
  result_type = result_type_label;
  result_extra = 13 ∷ 0 ∷ 0 ∷ 0 ∷ 0 ∷ 0 ∷ 0 ∷ 0 ∷ [];
}

abbrev starting : SaceEvent
starting = record with_event { starting_events = insert (codes "log") tt [] }

abbrev exists_result : SaceResult
exists_result = record new_result { name = codes "log"; result_status = result_status_exists }
