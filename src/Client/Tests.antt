-- ===== src/Client/Tests.antt =====
-- A client over an executor, and instances of the theorems.
use service_excutor.Prelude.{
  ℕ, ◌≡◌, refl, true, false, [], ◌∷◌, ◌++◌, none, some, codes, lookup, insert, store, has, nat_key,
  text_key, ◌≤◌, length,
}
use service_excutor.Types.{
  SaceCommand, SaceResult, SaceWriter, new_result, result_status_fail, socket_writer,
  service_flag_normal, service_running, service_died_unknown, SaceStatusResponse,
  response_type_service, response_status_user, service_cmd_start, le_bytes, result_type_label,
  extra_bufer_len,
}
use service_excutor.Service.State.{
  ServiceInfo, ServiceExcutor, World, wait_none, fork_parent, empty,
}
use service_excutor.Service.Handlers.{new_service, handle, start, add_service, label_result}
use service_excutor.Service.Invariant.{Inv, empty-Inv, IsConsistent-add}
use service_excutor.Client.Calls.{CommandSender}
use service_excutor.Client.Objects.{
  ServiceObj, returned, terminated, stop, pause, restart, get_state, new_service_obj,
  failed_command, err_unknown, read,
}
use service_excutor.Client.Manager.{SaceManager, Defaults, on_response}
use service_excutor.Client.Responses.{on_response-control, later_call}
use service_excutor.Client.Daemon.{daemon, get_state-daemon}
use service_excutor.Client.Lifetime.{start_command}
use service_excutor.Client.Bounds.{handle-is_copied, copied_size, is_copied}

abbrev quiet : World
quiet = record { fresh = 11; fork = fork_parent 111; clock = codes "now"; wait = λ pid. wait_none }

abbrev peer : SaceWriter
peer = record { id = 1000; channel = socket_writer 5 }

-- The other executors know no name.
abbrev denied : SaceCommand → SaceResult
unfolding new_result
denied c = record new_result { result_status = result_status_fail }

abbrev ids : Defaults
ids = record { cap_count = 3; aid_root = codes "0"; aid_system = codes "1000" }

abbrev service : CommandSender (ℕ × ServiceExcutor)
service = daemon quiet peer (codes "7:7") denied

abbrev logger : ServiceInfo
logger = record {
  name = codes "log";
  pid = 107;
  start_time = [];
  state = service_running;
  cmd_line = codes "logcat";
  writer = peer ∷ [];
  label = 7;
  flags = service_flag_normal;
}

abbrev running : ServiceExcutor
running = record {
  running = [] ++ 7 ∷ [];
  seq = insert 7 7 [];
  names = insert (codes "log") 7 [];
  heap = store 7 logger [];
  trace = [];
}

running-Inv : Inv running
unfolding lookup empty
running-Inv = IsConsistent-add [] [] [] [] 7 logger empty-Inv refl refl refl

get_state-daemon_example :
    get_state service (new_service_obj 7 (codes "log") (codes "logcat")) (0, running)
    ≡ some (returned (some service_died_unknown), (1, running))
unfolding new_service_obj
get_state-daemon_example =
    get_state-daemon quiet peer (codes "7:7") denied
      (new_service_obj 7 (codes "log") (codes "logcat")) 7 0 running (λ pid. refl) running-Inv refl
      refl

abbrev manager : (ℕ × ServiceExcutor) → SaceManager (ℕ × ServiceExcutor)
manager s = record {
  services = [];
  commands = [];
  service_objs = [];
  command_objs = [];
  next = 1;
  callback = false;
  told = [];
  sender = s;
}

abbrev asked : SaceCommand
asked =
    start_command quiet peer (codes "7:7") denied ids (λ pid. refl) (codes "new") (codes "id") none
      2

abbrev holding : SaceManager (ℕ × ServiceExcutor)
holding = record (manager (0, running)) {
  services = (7, 1) ∷ [];
  service_objs = (1, new_service_obj 7 (codes "log") (codes "logcat")) ∷ [];
  next = 2;
}

abbrev by_user : SaceStatusResponse
by_user = record {
  label = 7;
  name = codes "log";
  type = response_type_service;
  status = response_status_user;
  extra = [];
}

on_response-control_example :
    (t : SaceManager (ℕ × ServiceExcutor)) × (p : ServiceObj) × (on_response by_user holding
      ≡ some t)
    × (lookup 7 t.services ≡ none)
    × (lookup 1 t.service_objs ≡ some p)
    × ((s : ℕ × ServiceExcutor)
        → (stop service p s ≡ some (later_call response_status_user, s))
          × (pause service p s ≡ some (later_call response_status_user, s))
          × (restart service p s ≡ some (later_call response_status_user, s)))
unfolding lookup
on_response-control_example =
    on_response-control service by_user holding 1 (new_service_obj 7 (codes "log") (codes "logcat"))
      refl refl refl

-- A user's stop, the end of the service, and a second stop: the client's process ends.
second_stop : later_call response_status_user ≡ terminated
unfolding later_call
second_stop = refl

-- Reading from a command that did not start uses a field that is not set.
read_failed : read (failed_command err_unknown) ≡ none
unfolding read failed_command
read_failed = refl

-- A start that the executor carries out.
begun :
    handle quiet service_cmd_start asked service_flag_normal peer empty
    ≡ some (
      add_service (new_service quiet 111 asked service_flag_normal peer) empty,
      label_result 11 asked,
    )
unfolding handle start has empty
begun = refl

handle-is_copied_example :
    (length (le_bytes 8 11) ≡ copied_size result_type_label)
    × (length (le_bytes 8 11) ≤ extra_bufer_len)
    × (is_copied result_type_label (le_bytes 8 11) ≡ true)
unfolding label_result
handle-is_copied_example =
    handle-is_copied quiet asked service_flag_normal peer empty service_cmd_start
      (
        add_service (new_service quiet 111 asked service_flag_normal peer) empty,
        label_result 11 asked,
      )
      begun
