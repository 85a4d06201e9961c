-- ===== src/Service/Tests.antt =====
-- Runs of the service executor on small states, and instances of its theorems.
use service_excutor.Prelude.{
  ℕ, ◌+◌, ◌≡◌, refl, true, false, List, [], ◌∷◌, ◌++◌, none, some, Map, Text, codes, lookup, insert,
  store, has, contains, All, nat_eqb, nat_key, text_key, text_eqb, arith,
}
use service_excutor.Types.{
  message_handler_service, message_type_normal, service_cmd_start, service_cmd_stop,
  service_cmd_pause, service_cmd_restart, service_flag_normal, ServiceCommandType, ServiceState,
  service_running, service_paused, service_finishing_user, SaceCommand, SaceResult, SaceWriter,
  SaceReaderMessage, service_payload, socket_writer, Effect, kill, send_result, of_bytes,
  result_status_ok,
}
use service_excutor.Service.State.{
  ServiceInfo, ServiceExcutor, World, WaitResult, wait_none, wait_exited, fork_parent, empty,
  set_state, emit,
}
use service_excutor.Service.Monitor.{sigterm, is_watched, is_gone, monitor_service_status}
use service_excutor.Service.Handlers.{
  sigstop, pause, find_service, is_running, failed_result, start, stop, handle, is_paused,
  new_service, with_status,
}
use service_excutor.Service.Excute.{excute_normal, excute_timeout}
use service_excutor.Service.Invariant.{Inv, empty-Inv, IsConsistent-add}
use service_excutor.Service.Scanning.{ends_at, notices_all}
use service_excutor.Service.Reaping.{ended, survivors, monitor_two_ended}
use service_excutor.Service.Transitions.{Moves}
use service_excutor.Service.Following.{handle-Moves}
use service_excutor.Service.Handling.{IsSignal}
use service_excutor.Service.Message.{excute_normal-Inv, exited, restart_faults}
use service_excutor.Service.Lifecycle.{Starts, start-stop}

abbrev client : SaceWriter
client = record { id = 1000; channel = socket_writer 5 }

abbrev service_named : Text → ℕ → ServiceState → ServiceInfo
service_named n a st = record {
  name = n;
  pid = a + 100;
  start_time = [];
  state = st;
  cmd_line = codes "logcat";
  writer = client ∷ [];
  label = a;
  flags = service_flag_normal;
}

abbrev logger : ServiceState → ServiceInfo
logger = service_named (codes "log") 7

abbrev tracer : ServiceInfo
tracer = service_named (codes "trace") 9 service_running

abbrev with_one : ServiceState → ServiceExcutor
with_one st = record {
  running = [] ++ 7 ∷ [];
  seq = insert 7 7 [];
  names = insert (codes "log") 7 [];
  heap = store 7 (logger st) [];
  trace = [];
}

abbrev with_two : ServiceState → ServiceExcutor
with_two st = record {
  running = (with_one st).running ++ 9 ∷ [];
  seq = insert 9 9 (with_one st).seq;
  names = insert (codes "trace") 9 (with_one st).names;
  heap = store 9 tracer (with_one st).heap;
  trace = [];
}

with_one-Inv : (st : ServiceState) → Inv (with_one st)
unfolding lookup empty
with_one-Inv st = IsConsistent-add [] [] [] [] 7 (logger st) empty-Inv refl refl refl

with_two-Inv : (st : ServiceState) → Inv (with_two st)
unfolding lookup insert store text_eqb
with_two-Inv st =
    IsConsistent-add (with_one st).running (with_one st).seq (with_one st).names (with_one st).heap
      9 tracer (with_one-Inv st) refl refl refl

abbrev world : (ℕ → WaitResult) → World
world wait = record { fresh = 11; fork = fork_parent 111; clock = codes "now"; wait = wait }

abbrev idle : World
idle = world λ _. wait_none

-- Every child has exited with code 1.
abbrev all_exited : World
all_exited = world λ _. wait_exited 1

-- The child of the first service alone.
abbrev one_exited : World
one_exited = world λ pid. elim (nat_eqb pid 107) [ true ↦ wait_exited 1 | false ↦ wait_none ]

abbrev command : ServiceCommandType → ℕ → SaceCommand
command k l = record {
  sequence = 3;
  label = l;
  name = codes "new";
  command = codes "id";
  params = none;
  extra = [];
  payload = service_payload k service_flag_normal;
}

abbrev message : ServiceCommandType → ℕ → SaceReaderMessage
message k l = record {
  msg_handler = message_handler_service;
  msg_type = message_type_normal;
  msg_cmd = command k l;
  msg_writer = client;
}

monitor_two_ended_example : monitor_service_status all_exited (with_two service_running) ≡ none
unfolding ended ends_at lookup store insert is_watched is_gone
monitor_two_ended_example =
    monitor_two_ended all_exited (with_two service_running) (with_two-Inv service_running)
      (omega arith)

ended-idle : (h : Map ℕ ServiceInfo) (l : List ℕ) → ended idle h l ≡ 0
unfolding ended ends_at is_gone
ended-idle h [] = refl
ended-idle h (a ∷ l) = ground (arith, ended-idle h l)

excute_normal-Inv_example :
    (p : ServiceExcutor × SaceResult) × (t : ServiceExcutor) × (handle idle service_cmd_start
        (command service_cmd_start 0)
        service_flag_normal
        client
        (with_two service_running)
      ≡ some p)
    × (excute_normal idle (message service_cmd_start 0) (with_two service_running) ≡ some t)
    × Inv t
    × (t.running ≡ survivors idle p.0.heap p.0.running)
    × ((signals : List Effect) × All IsSignal signals
        × (t.trace
            ≡ (signals ++ send_result client p.1 ∷ []) ++ notices_all idle p.0.heap p.0.running))
unfolding lookup store insert
excute_normal-Inv_example =
    excute_normal-Inv idle (message service_cmd_start 0) (with_two service_running)
      service_cmd_start service_flag_normal (record { normal = refl; service = refl })
      (with_two-Inv service_running) (λ e. cc) (omega arith) refl
      (λ p e. omega (arith, ended-idle p.0.heap p.0.running))

restart_faults_example :
    (t : ServiceExcutor) × (excute_normal one_exited
        (message service_cmd_restart 7)
        (with_two service_paused)
      ≡ some t)
    × ((later : World) → excute_timeout later t ≡ none)
unfolding lookup store insert ends_at is_paused is_watched is_gone
restart_faults_example =
    restart_faults one_exited (message service_cmd_restart 7) (with_two service_paused)
      service_flag_normal (record { normal = refl; service = refl }) (logger service_paused)
      (with_two-Inv service_paused) refl refl refl (exited 1) quiet
  where
    quiet :
        (b : ℕ)
        → contains b (with_two service_paused).running ≡ true
        → nat_eqb 7 b ≡ false
        → ends_at one_exited (with_two service_paused).heap b ≡ false
    quiet b c ne = ground arith

handle-Moves_example :
    (j : ServiceInfo) × (lookup 7
        (set_state 7
          (logger service_running)
          service_paused
          (emit (kill 107 sigstop) (with_one service_running))).heap
      ≡ some j)
    × Moves service_running j.state
unfolding lookup store insert handle pause find_service is_running failed_result
handle-Moves_example =
    handle-Moves (command service_cmd_pause 7) (with_one service_running) idle refl
      service_cmd_pause service_flag_normal client
      (
        set_state 7 (logger service_running) service_paused
            (emit (kill 107 sigstop) (with_one service_running)),
        with_status result_status_ok (command service_cmd_pause 7),
      )
      refl 7 (logger service_running) refl

new-Starts : Starts idle (command service_cmd_start 0) (with_one service_running) 111
unfolding has insert text_eqb lookup store
new-Starts = record { unused = refl; fits = omega arith; fresh = refl; forked = refl }

start-stop_example :
    (p q : ServiceExcutor × SaceResult) × (start idle
        (command service_cmd_start 0)
        service_flag_normal
        client
        (with_one service_running)
      ≡ some p)
    × (stop (record (command service_cmd_stop 0) { label = of_bytes p.1.result_extra }) p.0
        ≡ some q)
    × (q.1.result_status ≡ result_status_ok)
    × (q.0.trace ≡ [] ++ kill 111 sigterm ∷ [])
    × (lookup 11 q.0.heap
        ≡ some
            (record (new_service idle 111
              (command service_cmd_start 0)
              service_flag_normal
              client) { state = service_finishing_user }))
start-stop_example =
    start-stop idle (command service_cmd_start 0) service_flag_normal client
      (with_one service_running) 111 new-Starts (command service_cmd_stop 0)
      (with_one-Inv service_running) (omega arith)
