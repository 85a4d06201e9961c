-- ===== src/Normal/Tests.antt =====
-- Runs of the normal excutor on a state with one command, and instances of its theorems.
use service_excutor.Prelude.{
  ℕ, ◌≡◌, refl, true, false, List, [], ◌∷◌, ◌++◌, none, some, codes, lookup, insert, store, nat_key,
  arith, inl,
}
use service_excutor.Types.{
  message_handler_normal, message_type_normal, normal_cmd_start, normal_cmd_close,
  NormalCommandType, cmd_flag_in, cmd_flag_out, SaceCommand, SaceResult, SaceWriter,
  SaceReaderMessage, normal_payload, socket_writer, close_fd, wait_pid, send_result,
  result_status_ok, of_bytes,
}
use service_excutor.Service.State.{fork_parent}
use service_excutor.Normal.Popen.{PidEntry, Spawn, sace_popen, sace_pclose, pclose-popen}
use service_excutor.Normal.Child.{Fds, child_fds, child_fds_lem}
use service_excutor.Normal.Handlers.{
  NormalExcutor, failed, fd_result, start_normal_cmd, close_normal_cmd, excute_normal,
}
use service_excutor.Normal.Invariant.{Inv, Answers, excute_normal_answered}
use service_excutor.Normal.Closing.{Spawns, start-close}

abbrev client : SaceWriter
client = record { id = 1000; channel = socket_writer 5 }

-- A pipe on the descriptors 4 and 6.
abbrev system : Spawn
system = record {
  fresh = 11;
  pipe = some (4, 6);
  memory = true;
  fork = fork_parent 111;
  reap = λ pid. some 0;
}

abbrev with_children : List PidEntry → NormalExcutor
with_children cs = record {
  running = 7 ∷ [];
  seq = insert 7 7 [];
  heap =
      store 7
        (record { fd = some 4; cmd_line = codes "logcat"; label = 7; writer = client; pid = 107 })
        [];
  children = record { pidlist = cs; trace = [] };
}

-- One command, on descriptor 4, open and after its close.
abbrev with_one : NormalExcutor
with_one = with_children (record { fd = 4; pid = 107 } ∷ [])

abbrev closed_one : NormalExcutor
closed_one = with_children []

with_children-Inv : (cs : List PidEntry) → Inv (with_children cs)
unfolding lookup insert store
with_children-Inv cs = record {
  live = λ a c. (
    record { fd = some 4; cmd_line = codes "logcat"; label = 7; writer = client; pid = 107 },
    ground arith,
  );
  by_label = λ l a e. ground arith;
}

abbrev command : NormalCommandType → ℕ → SaceCommand
command k l = record {
  sequence = 3;
  label = l;
  name = [];
  command = codes "id";
  params = none;
  extra = [];
  payload = normal_payload k cmd_flag_in;
}

abbrev message : NormalCommandType → ℕ → SaceReaderMessage
message k l = record {
  msg_handler = message_handler_normal;
  msg_type = message_type_normal;
  msg_cmd = command k l;
  msg_writer = client;
}

abbrev ok_result : NormalCommandType → ℕ → SaceResult
ok_result k l = record (failed (command k l)) { result_status = result_status_ok }

pclose-popen_example :
    let opened = sace_popen system false with_one.children in
    (opened.0 ≡ some (4, 111))
    × (sace_pclose system 4 opened.1 ≡ (
      some 0,
      record {
        pidlist = with_one.children.pidlist;
        trace = (([] ++ close_fd 6 ∷ []) ++ close_fd 4 ∷ []) ++ wait_pid 111 ∷ [];
      },
    ))
pclose-popen_example = pclose-popen system system false with_one.children 4 6 111 refl refl refl

excute_normal_answered_example :
    (t : NormalExcutor) × (excute_normal system (message normal_cmd_start 0) with_one ≡ some t)
    × Inv t
    × Answers client t
unfolding lookup store
excute_normal_answered_example =
    excute_normal_answered system (message normal_cmd_start 0) with_one normal_cmd_start cmd_flag_in
      refl (inl refl) (with_children-Inv (record { fd = 4; pid = 107 } ∷ [])) refl

spawns : Spawns system 4 6 111
spawns = record { piped = refl; memory = refl; forked = refl }

start-close_example :
    (t : NormalExcutor) × (close_normal_cmd system
        (command normal_cmd_close 11)
        client
        (start_normal_cmd system (command normal_cmd_start 0) cmd_flag_out client closed_one)
      ≡ some t)
    × (t.children.pidlist ≡ [])
    × (t.children.trace ≡ (
        (((([] ++ close_fd 4 ∷ [])
              ++ send_result client (fd_result 11 6 (command normal_cmd_start 0)) ∷ [])
            ++ close_fd 6 ∷ [])
          ++ wait_pid 111 ∷ [])
        ++ send_result client (ok_result normal_cmd_close 11) ∷ []))
unfolding lookup insert fd_result of_bytes
start-close_example =
    start-close system 4 6 111 spawns cmd_flag_out closed_one system (command normal_cmd_start 0)
      (command normal_cmd_close 11) client client refl (omega arith) refl

-- The daemon's descriptors: its own three, one of an earlier child, and a new pipe.
abbrev open_fds : Fds
open_fds = (0, 100) ∷ (1, 101) ∷ (2, 102) ∷ (5, 105) ∷ (7, 107) ∷ (8, 108) ∷ []

child_fds_lem_example :
    lookup 1 (child_fds (record { fd = 5; pid = 107 } ∷ []) (7, 8) false open_fds) ≡ some 108
unfolding lookup
child_fds_lem_example =
    child_fds_lem (record { fd = 5; pid = 107 } ∷ []) 7 8 1 108 false open_fds (ground arith) refl
      refl refl
