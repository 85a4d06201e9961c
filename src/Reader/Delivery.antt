-- ===== src/Reader/Delivery.antt =====
-- What becomes of the command that a client writes to its socket.
use service_excutor.Prelude.{
  ℕ, ◌≡◌, ◌≤◌, ◌<◌, ◌^◌, ◌%◌, refl, true, false, List, [], ◌∷◌, ◌++◌, Option, none, some, nat_eqb,
  nat_key, length, arith, nat_eqb_iff,
}
use service_excutor.Types.{SaceCommand, payload_type, extra_bufer_len}
use service_excutor.Wire.Parcel.{Parcel, IsParcel, write_size}
use service_excutor.Wire.Command.{write_command, command_items, is_named, Fits, read-write_command}
use service_excutor.Reader.Sockets.{
  World, SocketReader, max_socket_buf, recv_data, recv_bytes, recv_client, recv_clients, recv_ready,
  has_socket, recv_data_or_connection, recv_selected, handle_socket_msg, received, select_ready,
  socket_message, command_header_size,
}
use service_excutor.Reader.Table.{holds, distinct}

module _ {P : Type 0} (y : Parcel P) (cap_count : ℕ) where
  -- Only the client that has something to say changes anything.
  recv_clients-silent :
      (w : World P) (fd : ℕ) (cs : List (Option ℕ)) (s : SocketReader)
      → holds fd cs ≡ false
      → recv_clients y cap_count w (fd ∷ []) cs s ≡ some (cs, s)
  unfolding recv_clients holds
  recv_clients-silent w fd [] s h = refl
  recv_clients-silent w fd (none ∷ cs) s h = ground (arith, recv_clients-silent w fd cs s)
  recv_clients-silent w fd (some x ∷ cs) s h =
      ground (arith, recv_clients-silent w fd cs s, nat_eqb_iff x fd, nat_eqb_iff fd x)

  recv_clients-one :
      (w : World P) (fd : ℕ) (cs : List (Option ℕ)) (s t : SocketReader)
      → 0 < fd
      → holds fd cs ≡ true
      → distinct cs ≡ true
      → recv_client y cap_count w fd s ≡ some (some fd, t)
      → recv_clients y cap_count w (fd ∷ []) cs s ≡ some (cs, t)
  unfolding recv_clients holds distinct
  recv_clients-one w fd [] s t pos h d e = ground arith
  recv_clients-one w fd (none ∷ cs) s t pos h d e =
      ground (arith, recv_clients-one w fd cs s t pos h d e)
  recv_clients-one w fd (some x ∷ cs) s t pos h d e = ground (
    arith,
    recv_clients-one w fd cs s t,
    recv_clients-silent w fd cs t,
    nat_eqb_iff x fd,
    nat_eqb_iff fd x,
    e,
  )

  -- The first number that is read is the size of what was written.
  header_lem :
      (c : SaceCommand)
      → IsParcel y
      → (y.read_uint32 (y.holding (write_command y c))).0 ≡ y.data_size (command_items c) % 2 ^ 32
  unfolding write_command command_items write_size
  header_lem c law =
      let fit : y.data_size (command_items c) % 2 ^ 32 < 2 ^ 32 = omega arith in
      simp (law.reads_uint32, fit) refl

  recv_client-write_command :
      (w : World P) (fd size : ℕ) (c : SaceCommand) (s : SocketReader)
      → size ≡ y.data_size (command_items c)
      → w.input fd ≡ received size (y.holding (write_command y c))
      → IsParcel y
      → cap_count ≤ 64
      → is_named c.payload ≡ true
      → Fits y cap_count (payload_type c.payload) c.params
      → c.sequence < 2 ^ 32
      → c.label < 2 ^ 64
      → length c.extra ≤ extra_bufer_len
      → command_header_size ≤ size
      → size ≤ max_socket_buf
      → recv_client y cap_count w fd s
        ≡ some (some fd, record s { posted = s.posted ++ socket_message y cap_count w fd c ∷ [] })
  unfolding recv_client recv_data recv_bytes handle_socket_msg
  recv_client-write_command w fd size c s is input law bound named fits seq label room head fit =
      let same : size % 2 ^ 32 ≡ size = omega (arith, fit) in
      ground (
        arith,
        input,
        header_lem c law,
        read-write_command y cap_count c law bound named fits seq label room,
      )

  -- A client whose slot is in the table writes a command that `write_command` can write and
  -- `read_command` can read, of at most 1024 bytes, which are there whole and alone, and no other descriptor is ready: the round
  -- posts one message, with the command as the client wrote it, and changes nothing else.
  pub recv_data_or_connection-write_command :
      (w : World P) (fd l size : ℕ) (c : SaceCommand) (s : SocketReader)
      → s.sock_fd ≡ some l
      → nat_eqb l fd ≡ false
      → 0 < fd
      → holds fd s.clients ≡ true
      → distinct s.clients ≡ true
      → w.select ≡ select_ready (fd ∷ [])
      → size ≡ y.data_size (command_items c)
      → w.input fd ≡ received size (y.holding (write_command y c))
      → IsParcel y
      → cap_count ≤ 64
      → is_named c.payload ≡ true
      → Fits y cap_count (payload_type c.payload) c.params
      → c.sequence < 2 ^ 32
      → c.label < 2 ^ 64
      → length c.extra ≤ extra_bufer_len
      → command_header_size ≤ size
      → size ≤ max_socket_buf
      → recv_data_or_connection y cap_count w s
        ≡ some (true, record s { posted = s.posted ++ socket_message y cap_count w fd c ∷ [] })
  unfolding recv_data_or_connection has_socket recv_selected recv_ready
  recv_data_or_connection-write_command w fd l size c s sock other pos slot apart ready is input law
        bound named fits seq label room head fit =
      ground (
        arith,
        sock,
        other,
        ready,
        nat_eqb_iff l fd,
        nat_eqb_iff fd l,
        recv_clients-one w fd s.clients s
            (record s { posted = s.posted ++ socket_message y cap_count w fd c ∷ [] }) pos slot
            apart
            (recv_client-write_command w fd size c s is input law bound named fits seq label room
              head fit),
      )
