-- ===== src/Reader/Tests.antt =====
-- A reader with two clients, of which one sends a command, and instances of the theorems on it.
use service_excutor.Prelude.{
  ℕ, ◌≡◌, refl, true, false, List, [], ◌∷◌, none, some, contains, length, arith, nat_eqb, insert,
  has, ◌+◌, ◌*◌, if◌then◌else◌, nat_key,
}
use service_excutor.Types.{payload_type}
use service_excutor.Wire.Parcel.{Item}
use service_excutor.Wire.Listed.{listed, listed-IsParcel, adding}
use service_excutor.Wire.Codes.{event_type_named, event_flag_named}
use service_excutor.Wire.Command.{
  write_command, command_items, is_named, for_event, write_payload, write_optional,
}
use service_excutor.Wire.Params.{write_params, write_event_params, write_command_params}
use service_excutor.Reader.Sockets.{
  World, SocketReader, new_reader, Input, ended, received, select_ready, select_failed,
  recv_data_or_connection, socket_message, place_client, has_socket, recv_selected, recv_ready,
  accept_client, select_fails, drop_unknown, any_watched, is_watched,
}
use service_excutor.Reader.Table.{holds, distinct, all_open, IsTable}
use service_excutor.Reader.Rounds.{recv_data_or_connection-IsTable}
use service_excutor.Reader.Delivery.{recv_data_or_connection-write_command}
use service_excutor.Reader.Monitor.{thread_loop}
use service_excutor.Reader.Binder.{ManagerService, register_listener}

abbrev two_clients : SocketReader
two_clients = record new_reader {
  sock_fd = some 3;
  clients = some 4 ∷ none ∷ some 7 ∷ none ∷ none ∷ [];
  open_fds = 7 ∷ 4 ∷ [];
}

abbrev says : ℕ → Input (List Item)
says fd =
    if nat_eqb fd 7
    then received (4 * length (command_items adding)) (write_command listed adding)
    else ended

abbrev one_ready : World (List Item)
one_ready = record {
  select = select_ready (7 ∷ []);
  unknown = λ fd. false;
  accept = some 9;
  input = says;
  first = λ n p. [];
  pid = λ fd. 100 + fd;
  uid = λ fd. 1000;
}

two_clients-IsTable : IsTable two_clients.clients two_clients.open_fds
unfolding distinct all_open holds
two_clients-IsTable = record { size = refl; apart = refl; known = refl }

recv_data_or_connection-write_command_example :
    recv_data_or_connection listed 3 one_ready two_clients
    ≡ some (true, record two_clients { posted = socket_message listed 3 one_ready 7 adding ∷ [] })
unfolding holds distinct is_named event_type_named event_flag_named payload_type command_items
    write_payload write_optional write_params write_event_params write_command_params
recv_data_or_connection-write_command_example =
    recv_data_or_connection-write_command listed 3 one_ready 7 3 (4 * length (command_items adding))
      adding two_clients refl refl (omega arith) refl refl refl refl refl listed-IsParcel
      (omega arith) refl (for_event refl) (omega arith) (omega arith) (omega arith) (omega arith)
      (omega arith)

-- A new client takes the first slot that is free.
abbrev one_comes : World (List Item)
one_comes = record one_ready { select = select_ready (3 ∷ []) }

abbrev three_clients : SocketReader
three_clients = record two_clients {
  clients = some 4 ∷ some 9 ∷ some 7 ∷ none ∷ none ∷ [];
  open_fds = 9 ∷ 7 ∷ 4 ∷ [];
}

comes : recv_data_or_connection listed 3 one_comes two_clients ≡ some (true, three_clients)
unfolding recv_data_or_connection has_socket recv_selected recv_ready accept_client place_client
comes = refl

nine_is_new : (fd : ℕ) → one_comes.accept ≡ some fd → contains fd two_clients.open_fds ≡ false
nine_is_new fd e = ground arith

recv_data_or_connection-IsTable_example : IsTable three_clients.clients three_clients.open_fds
recv_data_or_connection-IsTable_example =
    recv_data_or_connection-IsTable listed 3 one_comes true two_clients three_clients nine_is_new
      two_clients-IsTable comes

-- With every slot taken, the sixth client is connected and in no slot.
abbrev full : SocketReader
full = record two_clients {
  clients = some 4 ∷ some 5 ∷ some 7 ∷ some 6 ∷ some 8 ∷ [];
  open_fds = 8 ∷ 7 ∷ 6 ∷ 5 ∷ 4 ∷ [];
}

sixth :
    recv_data_or_connection listed 3 one_comes full
    ≡ some (true, record full { open_fds = 9 ∷ 8 ∷ 7 ∷ 6 ∷ 5 ∷ 4 ∷ [] })
unfolding recv_data_or_connection has_socket recv_selected recv_ready accept_client place_client
sixth = refl

-- After `select` failed for a listening socket that is gone, a client that speaks is looked for
-- in the place of the socket.
abbrev bad_socket : World (List Item)
bad_socket = record one_ready { select = select_failed; unknown = λ fd. nat_eqb fd 3 }

no_socket : thread_loop listed 3 (bad_socket ∷ one_ready ∷ []) two_clients ≡ none
unfolding thread_loop recv_data_or_connection has_socket recv_selected recv_ready select_fails
    drop_unknown any_watched is_watched
no_socket = refl

-- The binder.
abbrev manager : ManagerService
manager = record { exit = false; pid_listener = (41, 7) ∷ []; posted = [] }

-- The second listener of a process is not taken.
second_listener : (register_listener 41 (some 8) manager).pid_listener ≡ manager.pid_listener
unfolding register_listener insert has
second_listener = refl
