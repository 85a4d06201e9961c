-- ===== src/Reader/Sockets.antt =====
-- `SaceSocketReader`: the table of clients, and one round of `recv_data_or_connection`. A
-- descriptor of -1 is `none`. What the system answers is a record; the parcel is a parameter.
use service_excutor.Prelude.{
  ℕ, zero, suc, Bool, true, false, ◌&&◌, List, [], ◌∷◌, ◌++◌, Option, none, some, contains, ltb,
  nat_eqb, nat_key, if◌then◌else◌, ◌>>=◌,
}
use service_excutor.Types.{
  SaceCommand, SaceReaderMessage, SaceResult, socket_writer, message_type_normal, new_result,
  result_type_none, result_status_secure, result_status_fail, payload_type,
}
use service_excutor.Dispatch.Routing.{type_cmd_to_msg}
use service_excutor.Wire.Parcel.{Parcel}
use service_excutor.Wire.Command.{read_command}

abbrev pub max_client_num : ℕ
max_client_num = 5

abbrev pub max_socket_buf : ℕ
max_socket_buf = 1024

-- `parcelSize()` of a command's header: two numbers of four bytes, and a byte.
abbrev pub command_header_size : ℕ
command_header_size = 9

-- What is there for a client's `read`: nothing more, or a number of bytes as a parcel.
pub data Input (P : Type 0) : Type 0 where
  ended : Input P
  received : ℕ → P → Input P

-- What the system answers during one round: how `select` ends, the descriptors that `fstat` no
-- longer knows, a new client, what a client sent, the parcel of the first bytes of a longer one,
-- and who the client is.
pub data Selected : Type 0 where
  select_timeout select_failed : Selected
  select_ready : List ℕ → Selected

pub record World (P : Type 0) : Type 0 where
  pub select : Selected
  pub unknown : ℕ → Bool
  pub accept : Option ℕ
  pub input : ℕ → Input P
  pub first : ℕ → P → P
  pub pid : ℕ → ℕ
  pub uid : ℕ → ℕ

-- `open_fds` are the client descriptors that the process has open; `posted` are the messages;
-- `running` and `exit_pending` are the monitor thread's.
pub record SocketReader : Type 0 where
  pub sock_fd : Option ℕ
  pub clients : List (Option ℕ)
  pub open_fds : List ℕ
  pub posted : List SaceReaderMessage
  pub running : Bool
  pub exit_pending : Bool

abbrev pub free_slots : ℕ → List (Option ℕ)
free_slots zero = []
free_slots (suc n) = none ∷ free_slots n

-- The constructor.
abbrev pub new_reader : SocketReader
new_reader = record {
  sock_fd = none;
  clients = free_slots max_client_num;
  open_fds = [];
  posted = [];
  running = false;
  exit_pending = false;
}

unfoldable pub without : ℕ → List ℕ → List ℕ
without fd [] = []
without fd (x ∷ xs) = let rest = without fd xs in if nat_eqb x fd then rest else x ∷ rest

-- `secured_by_uid_pid`
abbrev pub secured_by_uid_pid : ℕ → ℕ → Bool
secured_by_uid_pid uid pid = true

unfoldable pub result_by_secure : SaceResult
result_by_secure = record new_result {
  result_type = result_type_none;
  result_status = result_status_secure;
}

unfoldable pub result_by_failure : SaceResult
result_by_failure = record new_result {
  result_type = result_type_none;
  result_status = result_status_fail;
}

-- The first slot that is free takes the descriptor; without one it stays open and unknown.
unfoldable pub place_client : ℕ → List (Option ℕ) → List (Option ℕ)
place_client fd [] = []
place_client fd (none ∷ cs) = some fd ∷ cs
place_client fd (some x ∷ cs) = some x ∷ place_client fd cs

-- A client that is watched: its descriptor is above 0.
unfoldable pub is_watched : Option ℕ → Bool
is_watched none = false
is_watched (some fd) = ltb 0 fd

unfoldable pub any_watched : List (Option ℕ) → Bool
any_watched [] = false
any_watched (c ∷ cs) = if is_watched c then true else any_watched cs

-- After `select` failed.
unfoldable pub drop_unknown : (ℕ → Bool) → List (Option ℕ) → List (Option ℕ)
drop_unknown unknown [] = []
drop_unknown unknown (none ∷ cs) = none ∷ drop_unknown unknown cs
drop_unknown unknown (some fd ∷ cs) =
    (if ltb 0 fd && unknown fd then none else some fd) ∷ drop_unknown unknown cs

module _ {P : Type 0} (y : Parcel P) (cap_count : ℕ) where
  unfoldable pub socket_message : World P → ℕ → SaceCommand → SaceReaderMessage
  socket_message w fd c = record {
    msg_handler = type_cmd_to_msg (payload_type c.payload);
    msg_type = message_type_normal;
    msg_cmd = c;
    msg_writer = record { id = w.pid fd; channel = socket_writer fd };
  }

  -- `handle_socket_msg`, whose test never fails.
  unfoldable pub handle_socket_msg : World P → ℕ → SaceCommand → SocketReader → SocketReader
  handle_socket_msg w fd c s =
      if secured_by_uid_pid (w.uid fd) (w.pid fd)
      then record s { posted = s.posted ++ socket_message w fd c ∷ [] }
      else s

  -- The bytes of one `read`: too few for a header, fewer than the header says, or a command.
  unfoldable pub recv_bytes : World P → ℕ → ℕ → P → SocketReader → Option SocketReader
  recv_bytes w fd size p s =
      if ltb size command_header_size
      then some s
      else if ltb size (y.read_uint32 p).0
      then some s
      else (read_command y cap_count p >>= λ (len, c, rest). some (handle_socket_msg w fd c s))

  -- A `read` into the buffer takes no more than fits.
  unfoldable pub recv_data : World P → ℕ → ℕ → P → SocketReader → Option SocketReader
  recv_data w fd size p s =
      if ltb max_socket_buf size
      then recv_bytes w fd max_socket_buf (w.first max_socket_buf p) s
      else recv_bytes w fd size p s

  -- One client of the loop: its slot after the round, and the reader.
  unfoldable pub recv_client : World P → ℕ → SocketReader → Option (Option ℕ × SocketReader)
  recv_client w fd s = elim (w.input fd) [
    | ended ↦ some (none, record s { open_fds = without fd s.open_fds })
    | received size p ↦ recv_data w fd size p s >>= λ t. some (some fd, t)
  ]

  -- The loop over the table. `FD_ISSET` of a descriptor that is not watched is false.
  unfoldable pub recv_clients :
      World P → List ℕ → List (Option ℕ) → SocketReader → Option (List (Option ℕ) × SocketReader)
  recv_clients w ready [] s = some ([], s)
  recv_clients w ready (none ∷ cs) s =
      recv_clients w ready cs s >>= λ (rest, t). some (none ∷ rest, t)
  recv_clients w ready (some fd ∷ cs) s =
      (if ltb 0 fd && contains fd ready then recv_client w fd s else some (some fd, s))
      >>= λ (c, s1). recv_clients w ready cs s1 >>= λ (rest, t). some (c ∷ rest, t)

  unfoldable pub accept_client : World P → SocketReader → SocketReader
  accept_client w s = elim w.accept [
    | none ↦ s
    | some fd ↦ record s { clients = place_client fd s.clients; open_fds = fd ∷ s.open_fds }
  ]

  -- `FD_ISSET` of -1, for a listening socket that is gone, is undefined.
  unfoldable pub recv_ready : World P → List ℕ → SocketReader → Option SocketReader
  recv_ready w ready s = elim s.sock_fd [
    | none ↦ none
    | some fd ↦
        if contains fd ready
        then some (accept_client w s)
        else (recv_clients w ready s.clients s >>= λ (cs, t). some (record t { clients = cs }))
  ]

  unfoldable pub select_fails : World P → SocketReader → SocketReader
  select_fails w s = record s {
    clients = drop_unknown w.unknown s.clients;
    sock_fd = elim s.sock_fd [ none ↦ none | some fd ↦ if w.unknown fd then none else some fd ];
  }

  unfoldable pub has_socket : SocketReader → Bool
  has_socket s = elim s.sock_fd [ none ↦ any_watched s.clients | some fd ↦ true ]

  -- What follows `select`: whether there may be more, and the reader after it.
  unfoldable pub recv_selected : World P → Selected → SocketReader → Option (Bool × SocketReader)
  recv_selected w select_timeout s = some (false, s)
  recv_selected w select_failed s = some (true, select_fails w s)
  recv_selected w (select_ready ready) s = recv_ready w ready s >>= λ t. some (true, t)

  unfoldable pub recv_data_or_connection : World P → SocketReader → Option (Bool × SocketReader)
  recv_data_or_connection w s = if has_socket s then recv_selected w w.select s else some (false, s)
