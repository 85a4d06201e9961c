-- ===== src/Sender/Arrival.antt =====
-- `recv_thread_run` of `SaceSocketSender`: one round with bytes on the socket, and what a writer
-- of the daemon sent as it arrives.
use service_excutor.Prelude.{
  ℕ, ◌%◌, ◌<◌, ◌≤◌, ◌^◌, ◌≡◌, refl, false, Option, none, some, length, ltb, nat_eqb, if◌then◌else◌,
  arith, ◌>>=◌,
}
use service_excutor.Types.{
  SaceResult, SaceStatusResponse, ResultType, result_type_none, result_type_fd, result_type_extra,
  result_type_label, extra_bufer_len,
}
use service_excutor.Wire.Codes.{
  result_type_of-result_type_code, result_status_of-result_status_code,
}
use service_excutor.Wire.Parcel.{Parcel, IsParcel, write_size}
use service_excutor.Wire.Result.{
  read_result, read_response, read_fd, write_fd, write_result, result_items, HasFd, with_fd,
  without_fd,
}
use service_excutor.Writers.{Packet, result_packet}

-- What is on the socket when `recvmsg` is called: the end, or a number of bytes as a parcel, the
-- parcels of their first bytes, and a descriptor.
pub data Arrival (P : Type 0) : Type 0 where
  closed : Arrival P
  arrived : ℕ → P → (ℕ → P) → Option ℕ → Arrival P

-- `SACE_RESULT_BUF_SIZE`, the size of `buf`.
abbrev pub sace_result_buf_size : ℕ
sace_result_buf_size = 1024

-- What `recvmsg` puts into a buffer: all of it, or the first bytes.
unfoldable pub received : {P : Type 0} → ℕ → ℕ → P → (ℕ → P) → ℕ × P
received room size p first = if ltb room size then (room, first room) else (size, p)

-- What the thread does with it.
pub data Handled : Type 0 where
  exits dropped : Handled
  handles_result : SaceResult → Handled
  handles_response : SaceStatusResponse → Handled

-- `SaceResultHeader::parcelSize`
abbrev pub result_header_size : ℕ
result_header_size = 5

-- The receiver's number of a descriptor that the kernel passed on.
unfoldable pub passed : (ℕ → ℕ) → Option ℕ → Option ℕ
passed pass none = none
passed pass (some fd) = some (pass fd)

module _ {P : Type 0} (y : Parcel P) where
  unfoldable pub receive_result : ℕ → ℕ → P → Option ℕ → Option Handled
  receive_result size len p fd =
      if ltb size len
      then some dropped
      else (read_result y p >>= λ (l, r, rest). some (handles_result (record r { result_fd = fd })))

  unfoldable pub receive_response : ℕ → ℕ → P → Option Handled
  receive_response size len p =
      if ltb size len
      then some dropped
      else (read_response y p >>= λ (l, r, rest). some (handles_response r))

  -- One round, with the bytes that are in the buffer.
  unfoldable pub receive_bytes : Option ℕ → ℕ × P → Option Handled
  receive_bytes fd (size, p) =
      let (len, p1) = y.read_uint32 p in
      let (type, p2) = y.read_byte p1 in
      if ltb size result_header_size
      then some dropped
      else if nat_eqb type 0
      then receive_result size len p fd
      else if nat_eqb type 1
      then receive_response size len p
      else some dropped

  unfoldable pub receive : Arrival P → Option Handled
  receive closed = some exits
  receive (arrived size p first fd) = receive_bytes fd (received sace_result_buf_size size p first)

  -- Whatever the parcel makes of the descriptor in it.
  read_result_lem :
      (r : SaceResult)
      → IsParcel y
      → r.sequence < 2 ^ 32
      → length r.result_extra ≤ extra_bufer_len
      → (fd : Option ℕ) × (q : P) × (read_result y (y.holding (write_result y r))
          ≡ some (y.data_size (result_items r) % 2 ^ 32, record r { result_fd = fd }, q))
  unfolding read_result write_result result_items write_size
  read_result_lem r law seq room =
      let size : y.data_size (result_items r) % 2 ^ 32 < 2 ^ 32 = omega arith in
      let header : 0 < 2 ^ 7 = omega arith in
      let (et, bt) = result_type_of-result_type_code r.result_type in
      let (es, bs) = result_status_of-result_status_code r.result_status in
      let few : length r.result_extra < 2 ^ 32 = omega (arith, room) in
      let fit : ltb 256 (length r.result_extra) ≡ false = ground (arith, room) in
      (
        (read_fd y r.result_type (y.holding (write_fd r.result_type r.result_fd))).0,
        (read_fd y r.result_type (y.holding (write_fd r.result_type r.result_fd))).1,
        simp
            (
              law.reads_uint32, law.reads_utf8, law.reads_bytes, law.reads_byte, size, header, bt,
              bs, seq, few, et, es, fit,
            )
            refl,
      )

  header_lem :
      (r : SaceResult)
      → IsParcel y
      → ((y.read_uint32 (y.holding (write_result y r))).0 ≡ y.data_size (result_items r) % 2 ^ 32)
        × ((y.read_byte (y.read_uint32 (y.holding (write_result y r))).1).0 ≡ 0)
  unfolding write_result result_items write_size
  header_lem r law =
      let size : y.data_size (result_items r) % 2 ^ 32 < 2 ^ 32 = omega arith in
      let header : 0 < 2 ^ 7 = omega arith in
      (
        simp (law.reads_uint32, size) refl,
        simp (law.reads_uint32, law.reads_byte, size, header) refl,
      )

  packet_lem :
      (r : SaceResult) (t : ResultType) (fd : Option ℕ)
      → r.result_type ≡ t
      → r.result_fd ≡ fd
      → HasFd y t fd
      → result_packet y r ≡ some (record { items = write_result y r; control = r.result_fd })
  unfolding result_packet
  packet_lem r result_type_fd (some n) t f with_fd = ground (arith, t, f)
  packet_lem r result_type_fd none t f (without_fd d) = absurd (d refl)
  packet_lem r result_type_none none t f (without_fd d) = ground (arith, t, f)
  packet_lem r result_type_extra none t f (without_fd d) = ground (arith, t, f)
  packet_lem r result_type_label none t f (without_fd d) = ground (arith, t, f)
  packet_lem r result_type_none (some n) t f h = elim h [ ]
  packet_lem r result_type_extra (some n) t f h = elim h [ ]
  packet_lem r result_type_label (some n) t f h = elim h [ ]

  -- A result that has a descriptor exactly if its type says so, whose number and extra bytes fit
  -- and whose packet is on the socket whole and alone and has at most the 1024 bytes of the
  -- receiver's buffer: the writer sends it, and the thread handles the same result, with the
  -- descriptor that the control message brought.
  pub receive-result_packet :
      (r : SaceResult) (pass : ℕ → ℕ) (size : ℕ) (first : ℕ → P)
      → IsParcel y
      → HasFd y r.result_type r.result_fd
      → r.sequence < 2 ^ 32
      → length r.result_extra ≤ extra_bufer_len
      → size ≡ y.data_size (result_items r)
      → result_header_size ≤ size
      → size ≤ sace_result_buf_size
      → (s : Packet) × (result_packet y r ≡ some s)
        × (receive (arrived size (y.holding s.items) first (passed pass s.control))
            ≡ some (handles_result (record r { result_fd = passed pass r.result_fd })))
  unfolding receive receive_bytes received receive_result
  receive-result_packet r pass size first law has seq room is head fit =
      let (fd, q, e) = read_result_lem r law seq room in
      let (hl, ht) = header_lem r law in
      let same : size % 2 ^ 32 ≡ size = omega (arith, fit) in
      (
        record { items = write_result y r; control = r.result_fd },
        packet_lem r r.result_type r.result_fd refl refl has,
        ground (arith, e, hl, ht, same),
      )
