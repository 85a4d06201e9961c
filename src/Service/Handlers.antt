-- ===== src/Service/Handlers.antt =====
-- `SaceServiceExcutor::excuteNormal`, `handleServiceInfo`, `excuteTimeout`, `onUninit` and the
-- destructor. The child's side of `fork` is `Excutor.Child`.
use service_excutor.Prelude.{
  ℕ, Bool, true, false, [], ◌∷◌, ◌++◌, Option, none, some, Text, codes, lookup, has, insert, store,
  length, ltb, nat_key, text_key, ◌==◌, if◌then◌else◌, ◌>>=◌, take,
}
use service_excutor.Types.{
  ServiceCommandType, service_cmd_start, service_cmd_stop, service_cmd_pause, service_cmd_restart,
  service_cmd_info, service_cmd_other, ServiceFlags, ServiceState, service_paused, service_running,
  service_finishing_user, ResultStatus, result_status_ok, result_status_fail, result_status_exists,
  result_type_none, result_type_label, result_type_extra, SaceCommand, SaceWriter, SaceResult,
  send_result, kill, new_result, le_bytes, service_info_bytes, same_flags, cmd_buffer_len,
  extra_bufer_len,
}
use service_excutor.Service.State.{
  ServiceInfo, ServiceExcutor, World, fork_failed, fork_parent, emit, set_state, add_writer,
}
use service_excutor.Service.Monitor.{sigterm, monitor_service_status}

abbrev pub sigint : ℕ
sigint = 2

abbrev pub sigkill : ℕ
sigkill = 9

abbrev pub sigcont : ℕ
sigcont = 18

abbrev pub sigstop : ℕ
sigstop = 19

-- `SaceServiceInfo::SERVICE_GET_BY_NAME`
abbrev pub service_get_by_name : Text
service_get_by_name = codes "GET_BY_NAME"

-- The result that a handler fills in.
unfoldable pub failed_result : SaceCommand → SaceResult
unfolding new_result
failed_result c = record new_result {
  sequence = c.sequence;
  name = c.name;
  result_status = result_status_fail;
  result_type = result_type_none;
}

abbrev pub with_status : ResultStatus → SaceCommand → SaceResult
unfolding failed_result
with_status st c = record (failed_result c) { result_status = st }

unfoldable pub label_result : ℕ → SaceCommand → SaceResult
unfolding failed_result le_bytes
label_result a c = record (failed_result c) {
  result_status = result_status_ok;
  result_type = result_type_label;
  result_extra = le_bytes 8 a;
}

unfoldable pub new_service : World → ℕ → SaceCommand → ServiceFlags → SaceWriter → ServiceInfo
unfolding add_writer
new_service w pid c f wr = record {
  name = c.name;
  pid = pid;
  start_time = w.clock;
  state = service_running;
  cmd_line = c.command;
  writer = add_writer wr [];
  label = w.fresh;
  flags = f;
}

-- A handler's answer: the new state and the result to send, or undefined behaviour.
abbrev pub Answer : Type 0
Answer = Option (ServiceExcutor × SaceResult)

unfoldable pub add_service : ServiceInfo → ServiceExcutor → ServiceExcutor
add_service i s = record s {
  running = s.running ++ i.label ∷ [];
  seq = insert i.label i.label s.seq;
  names = insert i.name i.label s.names;
  heap = store i.label i s.heap;
}

-- SACE_SERVICE_CMD_START. The command is copied into `char cmd[CMD_BUFFER_LEN]` with no check.
unfoldable pub start : World → SaceCommand → ServiceFlags → SaceWriter → ServiceExcutor → Answer
unfolding failed_result label_result new_service add_service
start w c f wr s =
    if has c.name s.names
    then some (s, with_status result_status_exists c)
    else if ltb cmd_buffer_len (length c.command)
    then none
    else elim w.fork [
      | fork_failed ↦ some (s, failed_result c)
      | fork_parent pid ↦ some (add_service (new_service w pid c f wr) s, label_result w.fresh c)
    ]

-- A state in which SACE_SERVICE_CMD_STOP sends a signal.
unfoldable pub is_stoppable : ServiceState → Bool
is_stoppable service_running = true
is_stoppable service_paused = true
is_stoppable _ = false

unfoldable pub is_running : ServiceState → Bool
is_running service_running = true
is_running _ = false

unfoldable pub is_paused : ServiceState → Bool
is_paused service_paused = true
is_paused _ = false

-- `mSeqService.find(label)` and the object that it leads to.
unfoldable pub find_service : ℕ → ServiceExcutor → Option (Option (ℕ × ServiceInfo))
find_service l s = elim (lookup l s.seq) [
  | none ↦ some none
  | some a ↦ lookup a s.heap >>= λ i. some (some (a, i))
]

-- What the three commands that name a service by its label do once it is found.
unfoldable pub stop : SaceCommand → ServiceExcutor → Answer
unfolding find_service failed_result emit set_state is_stoppable
stop c s = find_service c.label s >>= elim [
  | none ↦ some (s, failed_result c)
  | some (a, i) ↦ some (
    if is_stoppable i.state
        then set_state a i service_finishing_user (emit (kill i.pid sigterm) s)
        else s,
    with_status result_status_ok c,
  )
]

unfoldable pub pause : SaceCommand → ServiceExcutor → Answer
unfolding find_service failed_result emit set_state is_running
pause c s = find_service c.label s >>= elim [
  | none ↦ some (s, failed_result c)
  | some (a, i) ↦ some (
      if is_running i.state
      then (
        set_state a i service_paused (emit (kill i.pid sigstop) s),
        with_status result_status_ok c,
      )
      else (s, failed_result c))
]

unfoldable pub restart : SaceCommand → ServiceExcutor → Answer
unfolding find_service failed_result emit set_state is_paused
restart c s = find_service c.label s >>= elim [
  | none ↦ some (s, failed_result c)
  | some (a, i) ↦ some (
      if is_paused i.state
      then (
        let t = set_state a i service_running (emit (kill i.pid sigcont) s) in
            record t { running = t.running ++ a ∷ [] },
        with_status result_status_ok c,
      )
      else (s, failed_result c))
]

unfoldable pub info_result : ServiceInfo → SaceCommand → SaceResult
unfolding failed_result service_info_bytes
info_result i c = record (failed_result c) {
  result_status = result_status_ok;
  result_type = result_type_extra;
  result_extra = take extra_bufer_len (service_info_bytes i.name i.cmd_line i.state i.label);
}

-- `handleServiceInfo`
unfoldable pub handle_service_info :
    SaceCommand → ServiceFlags → SaceWriter → ServiceExcutor → Answer
unfolding failed_result info_result add_writer same_flags
handle_service_info c f wr s =
    if c.command == service_get_by_name
    then (elim (lookup c.name s.names) [
      | none ↦ some (s, failed_result c)
      | some a ↦ lookup a s.heap >>= λ i. some (
          if same_flags i.flags f
          then (
            record s { heap = store a (record i { writer = add_writer wr i.writer }) s.heap },
            info_result i c,
          )
          else (s, failed_result c))
    ])
    else some (s, failed_result c)

-- The body of `excuteNormal` up to the label `end`.
unfoldable pub handle :
    World → ServiceCommandType → SaceCommand → ServiceFlags → SaceWriter → ServiceExcutor → Answer
unfolding start stop pause restart handle_service_info failed_result
handle w service_cmd_start c f wr s = start w c f wr s
handle w service_cmd_stop c f wr s = stop c s
handle w service_cmd_pause c f wr s = pause c s
handle w service_cmd_restart c f wr s = restart c s
handle w service_cmd_info c f wr s = handle_service_info c f wr s
handle w (service_cmd_other n) c f wr s = some (s, failed_result c)

-- From `end` on.
unfoldable pub finish : World → SaceWriter → ServiceExcutor × SaceResult → Option ServiceExcutor
unfolding emit monitor_service_status
finish w wr (s, r) = monitor_service_status w (emit (send_result wr r) s)
