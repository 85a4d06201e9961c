-- ===== src/Events/Monitor.antt =====
-- The event thread: a pass of `event_monitor_thread`, `handle_result` in its two forms and
-- `restart_event`; then `onUninit`.
use service_excutor.Prelude.{
  ℕ, Bool, true, false, List, [], ◌∷◌, ◌++◌, Option, none, some, Text, Map, lookup, has, insert,
  erase, nat_key, text_key, nat_eqb, length, map, ◌&&◌, if◌then◌else◌, ◌>>=◌, ◌⊎◌, inl, inr,
}
use service_excutor.Types.{
  event_flag_none, event_flag_restart, event_flag_other, Payload, normal_payload, service_payload,
  event_payload, other_payload, ResultStatus, result_status_ok, result_status_timeout,
  result_status_fail, result_status_secure, result_status_exists, ResultType, result_type_none,
  result_type_fd, result_type_extra, result_type_label, ResponseStatus, response_status_exit,
  response_status_signal, response_status_user, response_status_unknown, SaceWriter, SaceResult,
  SaceStatusResponse, Effect, send_result, send_response, of_bytes,
}
use service_excutor.Events.State.{SaceEvent, World, NameSet, poll, start_event, stop_event}

-- The first section of a pass: the copy of `events`, and `failed_events` taken out.
unfoldable pub snapshot : SaceEvent → Map Text ℕ × NameSet × SaceEvent
snapshot s = (s.events, s.failed_events, record s { failed_events = [] })

unfoldable pub start_triggered : World → Map Text ℕ → SaceEvent → Option SaceEvent
start_triggered y [] s = some s
start_triggered y ((name, a) ∷ cmds) s = poll y a s >>= λ (fired, s1).
    (if fired then start_event y a s1 else some s1) >>= start_triggered y cmds

unfoldable pub restart_failed : World → Map Text ℕ → NameSet → SaceEvent → Option SaceEvent
restart_failed y cmds [] s = some s
restart_failed y cmds ((name, u) ∷ names) s = elim (lookup name cmds) [
  | none ↦ restart_failed y cmds names s
  | some a ↦ start_event y a s >>= restart_failed y cmds names
]

-- `cmd->eventFlags == SACE_EVENT_FLAG_RESTART`; the arm of another type is undefined behaviour.
unfoldable pub restarts : Payload → Option Bool
restarts (event_payload t event_flag_restart) = some true
restarts (event_payload t event_flag_none) = some false
restarts (event_payload t (event_flag_other n)) = some false
restarts (normal_payload t f) = none
restarts (service_payload t f) = none
restarts (other_payload n) = none

-- `restart_event`
unfoldable pub restart_event : Text → SaceEvent → Option (Bool × SaceEvent)
restart_event name s = elim (lookup name s.events) [
  | none ↦ some (false, s)
  | some a ↦ lookup a s.heap >>= λ e. restarts e.cmd.payload >>= λ again.
      if again
      then some (true, record s { failed_events = insert name tt s.failed_events })
      else some (false, s)
]

abbrev pub responses_to : List SaceWriter → SaceStatusResponse → List Effect
responses_to ws r = map (λ w. send_response w r) ws

abbrev pub results_to : List SaceWriter → SaceResult → List Effect
results_to ws r = map (λ w. send_result w r) ws

abbrev pub writers_of : Text → SaceEvent → List SaceWriter
writers_of name s = elim (lookup name s.writers) [ none ↦ [] | some ws ↦ ws ]

-- The label `writer` of the form for responses.
unfoldable pub end_event : SaceStatusResponse → SaceEvent → SaceEvent
end_event r s = record s {
  trace = s.trace ++ responses_to (writers_of r.name s) r;
  running_events = erase r.name s.running_events;
  writers = erase r.name s.writers;
}

unfoldable pub is_signal : ResponseStatus → Bool
is_signal response_status_signal = true
is_signal response_status_exit = false
is_signal response_status_user = false
is_signal response_status_unknown = false

-- Whether the label is the one that the event runs under.
unfoldable pub is_current : SaceStatusResponse → SaceEvent → Bool
is_current r s = elim (lookup r.name s.running_events) [
  | none ↦ false
  | some label ↦ nat_eqb label r.label
]

-- `handle_result` for a response.
unfoldable pub handle_response : SaceStatusResponse → SaceEvent → Option SaceEvent
handle_response r s =
    if is_current r s && is_signal r.status
    then (restart_event r.name s >>= λ (again, t). some (if again then t else end_event r t))
    else some (end_event r s)

-- The label `writer` of the form for results.
unfoldable pub forward : SaceResult → SaceEvent → SaceEvent
forward r s = record s { trace = s.trace ++ results_to (writers_of r.name s) r }

unfoldable pub is_ok : ResultStatus → Bool
is_ok result_status_ok = true
is_ok result_status_timeout = false
is_ok result_status_fail = false
is_ok result_status_secure = false
is_ok result_status_exists = false

unfoldable pub is_label : ResultType → Bool
is_label result_type_label = true
is_label result_type_none = false
is_label result_type_fd = false
is_label result_type_extra = false

-- `memcpy(&label, resultExtra, resultExtraLen)` into a number of eight bytes without a value.
unfoldable pub copied_label : List ℕ → Option ℕ
copied_label bs = if nat_eqb (length bs) 8 then some (of_bytes bs) else none

unfoldable pub started : SaceResult → SaceEvent → Option SaceEvent
started r s =
    if is_label r.result_type
    then (copied_label r.result_extra >>= λ label. some (
        forward r (record s {
          starting_events = erase r.name s.starting_events;
          running_events = insert r.name label s.running_events;
        })))
    else some (forward r s)

unfoldable pub start_failed : World → SaceResult → SaceEvent → Option SaceEvent
start_failed y r s = elim (lookup r.name s.events) [
  | none ↦ some (forward r s)
  | some a ↦ start_event y a s
]

-- `handle_result` for a result.
unfoldable pub handle_result : World → SaceResult → SaceEvent → Option SaceEvent
handle_result y r s =
    if has r.name s.starting_events
    then (if is_ok r.result_status then started r s else start_failed y r s)
    else some (forward r s)

-- What the pipe holds when `select` returns, if anything.
unfoldable pub receive :
    World → Option (SaceResult ⊎ SaceStatusResponse) → SaceEvent → Option SaceEvent
receive y none s = some s
receive y (some (inl r)) s = handle_result y r s
receive y (some (inr r)) s = handle_response r s

-- A pass without another thread's steps between its sections.
unfoldable pub pass :
    World → Option (SaceResult ⊎ SaceStatusResponse) → SaceEvent → Option SaceEvent
pass y input s =
    let (cmds, names, s1) = snapshot s in
    start_triggered y cmds s1 >>= restart_failed y cmds names >>= receive y input

-- The loop of `onUninit`, once the thread has ended.
unfoldable pub stop_all : Map Text ℕ → SaceEvent → SaceEvent
stop_all [] s = s
stop_all ((name, label) ∷ m) s = stop_all m (stop_event label 0 s)

unfoldable pub on_uninit : SaceEvent → SaceEvent
on_uninit s = stop_all s.running_events s
