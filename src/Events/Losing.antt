-- ===== src/Events/Losing.antt =====
-- What the event thread makes of packets that wait in its pipe together.
use service_excutor.Prelude.{
  ℕ, ◌%◌, ◌^◌, ◌<◌, ◌≤◌, ◌≡◌, ◌≢◌, refl, sym, ap, ◌∙◌, true, false, List, [], ◌∷◌, ◌++◌, none, some,
  leb, ltb, length, has, lookup, erase, insert, lookup-insert, text_key, ◌⊎◌, inl, inr, arith,
}
use service_excutor.Types.{
  SaceResult, ResultType, result_type_none, result_type_fd, result_type_extra, result_type_label,
  SaceStatusResponse, extra_bufer_len, result_status_ok, le_bytes, of_bytes, of_bytes-le_bytes,
  length-le_bytes,
}
use service_excutor.Wire.Parcel.{Item, Parcel, IsParcel, write_first, write_size}
use service_excutor.Wire.Codes.{
  result_type_of-result_type_code, result_status_of-result_status_code,
  response_type_of-response_type_code, response_status_of-response_status_code,
}
use service_excutor.Wire.Result.{
  result_items, response_items, write_result, write_response, read_result, read_response, read_fd,
  write_fd,
}
use service_excutor.Events.State.{SaceEvent, World}
use service_excutor.Events.Monitor.{
  receive, handle_result, started, forward, copied_label, is_ok, is_label, results_to, writers_of,
}
use service_excutor.Events.Pipe.{concat, packet, parse_packet, receive_pipe, sace_result_buf_size}

module _ {P : Type 0} (y : Parcel P) where
  no_fd :
      (t : ResultType) (rest : List Item)
      → t ≢ result_type_fd
      → (write_fd t none ≡ []) × (read_fd y t (y.holding rest) ≡ (none, y.holding rest))
  unfolding write_fd read_fd
  no_fd result_type_fd rest d = elim (d refl) [ ]
  no_fd result_type_none rest d = (refl, refl)
  no_fd result_type_extra rest d = (refl, refl)
  no_fd result_type_label rest d = (refl, refl)

  result_lem :
      (n : ℕ) (r : SaceResult) (rest : List Item)
      → IsParcel y
      → n < 2 ^ 32
      → r.result_type ≢ result_type_fd
      → r.result_fd ≡ none
      → r.sequence < 2 ^ 32
      → length r.result_extra ≤ extra_bufer_len
      → parse_packet y (y.holding (write_first n (result_items r) ++ rest)) ≡ some (some (inl r))
  unfolding parse_packet read_result result_items
  result_lem n r rest law size plain empty seq room =
      let header : 0 < 2 ^ 7 = omega arith in
      let (et, bt) = result_type_of-result_type_code r.result_type in
      let (es, bs) = result_status_of-result_status_code r.result_status in
      let few : length r.result_extra < 2 ^ 32 = omega (arith, room) in
      let fit : ltb 256 (length r.result_extra) ≡ false = ground (arith, room) in
      let (written, given) = no_fd r.result_type rest plain in
      simp
        (
          empty, written, law.reads_uint32, law.reads_utf8, law.reads_bytes, law.reads_byte, size,
          header, bt, bs, seq, few, et, es, given, fit,
        )
        (ap (λ fd. some (some (inl (record r { result_fd = fd })))) (sym empty))

  response_lem :
      (n : ℕ) (r : SaceStatusResponse) (rest : List Item)
      → IsParcel y
      → n < 2 ^ 32
      → r.label < 2 ^ 64
      → length r.extra ≤ extra_bufer_len
      → parse_packet y (y.holding (write_first n (response_items r) ++ rest)) ≡ some (some (inr r))
  unfolding parse_packet read_response response_items
  response_lem n r rest law size label room =
      let header : 1 < 2 ^ 7 = omega arith in
      let (et, bt) = response_type_of-response_type_code r.type in
      let (es, bs) = response_status_of-response_status_code r.status in
      let few : length r.extra < 2 ^ 32 = omega (arith, room) in
      let fit : ltb 256 (length r.extra) ≡ false = ground (arith, room) in
      simp
        (
          law.reads_uint32, law.reads_uint64, law.reads_utf8, law.reads_bytes, law.reads_byte, size,
          header, bt, bs, label, few, et, es, fit,
        )
        refl

  -- A packet that a parcel holds whole and whose result has no descriptor.
  pub data Whole : SaceResult ⊎ SaceStatusResponse → Type 0 where
    whole_result :
        {r : SaceResult}
        → r.result_type ≢ result_type_fd
        → r.result_fd ≡ none
        → r.sequence < 2 ^ 32
        → length r.result_extra ≤ extra_bufer_len
        → Whole (inl r)
    whole_response :
        {r : SaceStatusResponse}
        → r.label < 2 ^ 64
        → length r.extra ≤ extra_bufer_len
        → Whole (inr r)

  packet_lem :
      (x : SaceResult ⊎ SaceStatusResponse) (rest : List Item)
      → IsParcel y
      → Whole x
      → parse_packet y (y.holding (packet y x ++ rest)) ≡ some (some x)
  unfolding packet write_result write_response write_size
  packet_lem (inl r) rest law (whole_result plain empty seq room) =
      result_lem (y.data_size (result_items r) % 2 ^ 32) r rest law (omega arith) plain empty seq
        room
  packet_lem (inr r) rest law (whole_response label room) =
      response_lem (y.data_size (response_items r) % 2 ^ 32) r rest law (omega arith) label room

  -- A result without a descriptor or a response is in the pipe, and behind it any packets, not more
  -- than 1024 bytes in all: the read hands over the first as it was sent, and takes the others out
  -- of the pipe without a look at them.
  pub receive_pipe-packet :
      (x : SaceResult ⊎ SaceStatusResponse) (others : List (List Item))
      → IsParcel y
      → Whole x
      → y.data_size (concat (packet y x ∷ others)) ≤ sace_result_buf_size
      → receive_pipe y (packet y x ∷ others) ≡ some (some x, [])
  unfolding receive_pipe concat
  receive_pipe-packet x others law v room =
      let fits : leb (y.data_size (packet y x ++ concat others)) sace_result_buf_size ≡ true =
        ground (arith, room) in
      simp (fits, packet_lem x (concat others) law v) refl

  -- An event is being started, and its service ends before the event thread reads its pipe, so that
  -- the result of the start, with the label, and the response for the end are in the pipe together:
  -- after the read the event runs under the label, the response is out of the pipe, and nothing was
  -- made of it.
  pub receive_pipe-keeps_running :
      (r : SaceResult) (q : SaceStatusResponse) (label : ℕ) (w : World) (s : SaceEvent)
      → IsParcel y
      → r.result_type ≡ result_type_label
      → r.result_status ≡ result_status_ok
      → r.result_fd ≡ none
      → r.result_extra ≡ le_bytes 8 label
      → r.sequence < 2 ^ 32
      → label < 256 ^ 8
      → has r.name s.starting_events ≡ true
      → lookup r.name s.running_events ≡ none
      → y.data_size (concat (packet y (inl r) ∷ packet y (inr q) ∷ [])) ≤ sace_result_buf_size
      → (t : SaceEvent) × (receive_pipe y (packet y (inl r) ∷ packet y (inr q) ∷ [])
          ≡ some (some (inl r), []))
        × (receive w (some (inl r)) s ≡ some t)
        × (lookup r.name t.running_events ≡ some label)
        × (t.trace ≡ s.trace ++ results_to (writers_of r.name s) r)
  unfolding receive handle_result started forward copied_label is_ok is_label
  receive_pipe-keeps_running r q label w s law type ok empty extra seq small waits idle room =
      let size : length r.result_extra ≡ 8 = ap length extra ∙ length-le_bytes 8 label in
      let value : of_bytes r.result_extra ≡ label =
        ap of_bytes extra ∙ of_bytes-le_bytes 8 label small in
      let copied : copied_label r.result_extra ≡ some label = ground (arith, size, value) in
      let plain : r.result_type ≢ result_type_fd = ground (arith, type) in
      let fits : length r.result_extra ≤ extra_bufer_len = omega (arith, size) in
      let t : SaceEvent = forward r (record s {
        starting_events = erase r.name s.starting_events;
        running_events = insert r.name label s.running_events;
      }) in
      (
        t,
        receive_pipe-packet (inl r) (packet y (inr q) ∷ []) law (whole_result plain empty seq fits)
            room,
        ground (arith, waits, ok, type, copied),
        ground (
          arith,
          lookup-insert r.name r.name label s.running_events idle,
          text_key.beq_iff r.name r.name,
        ),
        refl,
      )
