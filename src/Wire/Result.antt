-- ===== src/Wire/Result.antt =====
-- `SaceResult` and `SaceStatusResponse`: `writeToParcel` and `readFromParcel`.
use service_excutor.Prelude.{
  ℕ, ◌%◌, ◌<◌, ◌≤◌, ◌^◌, ◌≡◌, refl, false, List, [], ◌∷◌, Option, none, some, length, ltb,
  if◌then◌else◌, arith, ◌>>=◌, ◌≢◌,
}
use service_excutor.Types.{
  SaceResult, ResultType, result_type_none, result_type_fd, result_type_extra, result_type_label,
  SaceStatusResponse, extra_bufer_len,
}
use service_excutor.Wire.Codes.{
  result_type_code, result_type_of, result_status_code, result_status_of, response_type_code,
  response_type_of, response_status_code, response_status_of, result_type_of-result_type_code,
  result_status_of-result_status_code, response_type_of-response_type_code,
  response_status_of-response_status_code,
}
use service_excutor.Wire.Parcel.{
  Item, uint32, byte, uint64, utf8, bytes, file_descriptor, Parcel, IsParcel, write_first,
  write_size,
}

unfoldable pub write_fd : ResultType → Option ℕ → List Item
write_fd result_type_fd fd = file_descriptor fd ∷ []
write_fd result_type_none fd = []
write_fd result_type_extra fd = []
write_fd result_type_label fd = []

-- The header's type is `SACE_BASE_RESULT_TYPE_NORMAL`.
unfoldable pub result_items : SaceResult → List Item
result_items r =
    uint32 0
    ∷ byte 0
    ∷ uint32 r.sequence
    ∷ utf8 r.name
    ∷ byte (result_type_code r.result_type)
    ∷ byte (result_status_code r.result_status)
    ∷ uint32 (length r.result_extra)
    ∷ bytes r.result_extra
    ∷ write_fd r.result_type r.result_fd

-- The header's type is `SACE_BASE_RESULT_TYPE_RESPONSE`.
unfoldable pub response_items : SaceStatusResponse → List Item
response_items r =
    uint32 0
    ∷ byte 1
    ∷ uint64 r.label
    ∷ utf8 r.name
    ∷ byte (response_type_code r.type)
    ∷ byte (response_status_code r.status)
    ∷ uint32 (length r.extra)
    ∷ bytes r.extra
    ∷ []

module _ {P : Type 0} (y : Parcel P) where
  unfoldable pub write_result : SaceResult → List Item
  write_result r = write_size y (result_items r)

  unfoldable pub write_response : SaceStatusResponse → List Item
  write_response r = write_size y (response_items r)

  unfoldable pub read_fd : ResultType → P → Option ℕ × P
  read_fd result_type_fd p = y.read_file_descriptor p
  read_fd result_type_none p = (none, p)
  read_fd result_type_extra p = (none, p)
  read_fd result_type_label p = (none, p)

  unfoldable pub read_result : P → Option (ℕ × SaceResult × P)
  read_result p =
      let (len, p1) = y.read_uint32 p in
      let (header_type, p2) = y.read_byte p1 in
      let (sequence, p3) = y.read_uint32 p2 in
      let (name, p4) = y.read_utf8 p3 in
      let (type_byte, p5) = y.read_byte p4 in
      let (status_byte, p6) = y.read_byte p5 in
      let (extra_len, p7) = y.read_uint32 p6 in
      let (extra, p8) = y.read_bytes extra_len p7 in
      if ltb extra_bufer_len extra_len then none else (do
        type ← result_type_of type_byte
        status ← result_status_of status_byte
        some (
          len,
          record {
            sequence = sequence;
            name = name;
            result_type = type;
            result_status = status;
            result_extra = extra;
            result_fd = (read_fd type p8).0;
          },
          (read_fd type p8).1,
        ))

  unfoldable pub read_response : P → Option (ℕ × SaceStatusResponse × P)
  read_response p =
      let (len, p1) = y.read_uint32 p in
      let (header_type, p2) = y.read_byte p1 in
      let (label, p3) = y.read_uint64 p2 in
      let (name, p4) = y.read_utf8 p3 in
      let (type_byte, p5) = y.read_byte p4 in
      let (status_byte, p6) = y.read_byte p5 in
      let (extra_len, p7) = y.read_uint32 p6 in
      let (extra, p8) = y.read_bytes extra_len p7 in
      if ltb extra_bufer_len extra_len then none else (do
        type ← response_type_of type_byte
        status ← response_status_of status_byte
        some (
          len,
          record { label = label; name = name; type = type; status = status; extra = extra },
          p8,
        ))

  -- A result of type FD has a descriptor, and one of another type has none.
  pub data HasFd : ResultType → Option ℕ → Type 0 where
    with_fd : {n : ℕ} → HasFd result_type_fd (some n)
    without_fd : {t : ResultType} → t ≢ result_type_fd → HasFd t none

  fd_lem :
      (t : ResultType) (fd : Option ℕ)
      → IsParcel y
      → HasFd t fd
      → read_fd t (y.holding (write_fd t fd)) ≡ (fd, y.holding [])
  unfolding read_fd write_fd
  fd_lem result_type_fd (some n) law with_fd = law.reads_file_descriptor n []
  fd_lem result_type_fd none law (without_fd d) = elim (d refl) [ ]
  fd_lem result_type_none none law (without_fd d) = refl
  fd_lem result_type_extra none law (without_fd d) = refl
  fd_lem result_type_label none law (without_fd d) = refl
  fd_lem result_type_none (some n) law h = elim h [ ]
  fd_lem result_type_extra (some n) law h = elim h [ ]
  fd_lem result_type_label (some n) law h = elim h [ ]

  -- A result that has a descriptor exactly if its type says so, with a sequence number and extra
  -- bytes that fit their fields, with any length before it: what is read is the result.
  pub read_result_lem :
      (n : ℕ) (r : SaceResult)
      → IsParcel y
      → n < 2 ^ 32
      → HasFd r.result_type r.result_fd
      → r.sequence < 2 ^ 32
      → length r.result_extra ≤ extra_bufer_len
      → read_result (y.holding (write_first n (result_items r))) ≡ some (n, r, y.holding [])
  unfolding read_result result_items
  read_result_lem n r law size has seq room =
      let header : 0 < 2 ^ 7 = omega arith in
      let (et, bt) = result_type_of-result_type_code r.result_type in
      let (es, bs) = result_status_of-result_status_code r.result_status in
      let few : length r.result_extra < 2 ^ 32 = omega (arith, room) in
      let fit : ltb 256 (length r.result_extra) ≡ false = ground (arith, room) in
      let fd = fd_lem r.result_type r.result_fd law has in
      simp
        (
          law.reads_uint32, law.reads_utf8, law.reads_bytes, law.reads_byte, size, header, bt, bs,
          seq, few, et, es, fd, fit,
        )
        refl

  -- The length that is written is the parcel's size.
  pub read-write_result :
      (r : SaceResult)
      → IsParcel y
      → HasFd r.result_type r.result_fd
      → r.sequence < 2 ^ 32
      → length r.result_extra ≤ extra_bufer_len
      → read_result (y.holding (write_result r))
        ≡ some (y.data_size (result_items r) % 2 ^ 32, r, y.holding [])
  unfolding write_result write_size
  read-write_result r law has seq room =
      read_result_lem (y.data_size (result_items r) % 2 ^ 32) r law (omega arith) has seq room

  -- The same for a response wherever the length was written.
  pub read_response_lem :
      (n : ℕ) (r : SaceStatusResponse)
      → IsParcel y
      → n < 2 ^ 32
      → r.label < 2 ^ 64
      → length r.extra ≤ extra_bufer_len
      → read_response (y.holding (write_first n (response_items r))) ≡ some (n, r, y.holding [])
  unfolding read_response response_items
  read_response_lem n r law size label room =
      let header : 1 < 2 ^ 7 = omega arith in
      let (et, bt) = response_type_of-response_type_code r.type in
      let (es, bs) = response_status_of-response_status_code r.status in
      let few : length r.extra < 2 ^ 32 = omega (arith, room) in
      let fit : ltb 256 (length r.extra) ≡ false = ground (arith, room) in
      simp
        (
          law.reads_uint32, law.reads_uint64, law.reads_utf8, law.reads_bytes, law.reads_byte, size,
          header, bt, bs, label, few, et, es, fit,
        )
        refl

  pub read-write_response :
      (r : SaceStatusResponse)
      → IsParcel y
      → r.label < 2 ^ 64
      → length r.extra ≤ extra_bufer_len
      → read_response (y.holding (write_response r))
        ≡ some (y.data_size (response_items r) % 2 ^ 32, r, y.holding [])
  unfolding write_response write_size
  read-write_response r law label room =
      read_response_lem (y.data_size (response_items r) % 2 ^ 32) r law (omega arith) label room
