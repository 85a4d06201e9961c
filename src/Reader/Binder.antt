-- ===== src/Reader/Binder.antt =====
-- `SaceBinderReader::SaceManagerService`: the listeners of binder clients, and a command that comes
-- in a call. A listener is its number.
use service_excutor.Prelude.{
  ℕ, ◌≡◌, Bool, true, false, List, [], ◌∷◌, ◌++◌, Option, none, some, Map, lookup, insert, erase,
  lookup-erase, nat_key, nat_eqb_iff, arith, if◌then◌else◌,
}
use service_excutor.Types.{
  SaceCommand, SaceReaderMessage, SaceResult, binder_writer, message_type_normal, payload_type,
}
use service_excutor.Dispatch.Routing.{type_cmd_to_msg}
use service_excutor.Reader.Sockets.{result_by_failure}

pub record ManagerService : Type 0 where
  pub exit : Bool
  pub pid_listener : Map ℕ ℕ
  pub posted : List SaceReaderMessage

unfoldable pub binder_message : ℕ → ℕ → SaceCommand → SaceReaderMessage
binder_message pid listener c = record {
  msg_handler = type_cmd_to_msg (payload_type c.payload);
  msg_type = message_type_normal;
  msg_cmd = c;
  msg_writer = record { id = pid; channel = binder_writer (some listener) };
}

-- What a call of `sendCommand` does before it waits: the result at once, or the message that is
-- posted. The listener of a caller that has none is read from the end of the map.
pub data Called : Type 0 where
  returns : SaceResult → Called
  waits_for : SaceReaderMessage → Called

unfoldable pub send_command : ℕ → SaceCommand → ManagerService → Option (Called × ManagerService)
send_command pid c s =
    if s.exit then some (returns result_by_failure, s) else elim (lookup pid s.pid_listener) [
      | none ↦ none
      | some listener ↦
          let m = binder_message pid listener c in
          some (waits_for m, record s { posted = s.posted ++ m ∷ [] })
    ]

-- A listener that is null is only logged. `insert` of the map keeps the listener that a process
-- has already.
unfoldable pub register_listener : ℕ → Option ℕ → ManagerService → ManagerService
register_listener pid none s = s
register_listener pid (some listener) s =
    if s.exit then s else record s { pid_listener = insert pid listener s.pid_listener }

unfoldable pub unregister_listener : ℕ → ManagerService → ManagerService
unregister_listener pid s =
    if s.exit then s else record s { pid_listener = erase pid s.pid_listener }

-- `stopRead` of the binder reader.
unfoldable pub stop : ManagerService → ManagerService
stop s = record s { exit = true }

-- A client that took its listener back and sends a command: the service reads past its map.
pub send_command-unregister :
    (pid : ℕ) (c : SaceCommand) (s : ManagerService)
    → s.exit ≡ false
    → send_command pid c (unregister_listener pid s) ≡ none
unfolding send_command unregister_listener
send_command-unregister pid c s e =
    ground (arith, lookup-erase pid pid s.pid_listener, nat_eqb_iff pid pid)
