-- ===== src/Events/Pipe.antt =====
-- `SaceEventWriter`, and the read of the event thread at the other end of its pipe.
use service_excutor.Prelude.{
  ℕ, List, [], ◌∷◌, ◌++◌, Option, none, some, nat_eqb, leb, if◌then◌else◌, ◌>>=◌, ◌⊎◌, inl, inr,
}
use service_excutor.Types.{SaceResult, SaceStatusResponse}
use service_excutor.Wire.Parcel.{Item, Parcel}
use service_excutor.Wire.Result.{write_result, write_response, read_result, read_response}

-- How a `write` to the pipe ended; all but the first are only logged.
pub data Sent : Type 0 where
  sent_whole peer_closed write_failed sent_part : Sent

abbrev pub sace_result_buf_size : ℕ
sace_result_buf_size = 1024

-- The packets that were written, as they follow each other in the pipe.
unfoldable pub concat : List (List Item) → List Item
concat [] = []
concat (p ∷ ps) = p ++ concat ps

module _ {P : Type 0} (y : Parcel P) where
  -- `SaceEventWriter::sendResult`; `ret` is what `write` gives, none where it fails.
  unfoldable pub send_result : Option ℕ → SaceResult → Sent
  send_result none r = write_failed
  send_result (some ret) r =
      if nat_eqb ret 0
      then peer_closed
      else if nat_eqb ret (y.data_size (write_result y r))
      then sent_whole
      else sent_part

  -- `SaceEventWriter::sendResponse`
  unfoldable pub send_response : Option ℕ → SaceStatusResponse → Sent
  send_response none r = write_failed
  send_response (some ret) r =
      if nat_eqb ret 0
      then write_failed
      else if nat_eqb ret (y.data_size (write_response y r))
      then sent_whole
      else sent_part

  -- What the writers put into the pipe where they write the whole packet.
  unfoldable pub packet : SaceResult ⊎ SaceStatusResponse → List Item
  packet (inl r) = write_result y r
  packet (inr r) = write_response y r

  -- The header is read, and then the packet from its start. Another type is only logged.
  unfoldable pub parse_packet : P → Option (Option (SaceResult ⊎ SaceStatusResponse))
  parse_packet p =
      let (len, p1) = y.read_uint32 p in
      let (type, p2) = y.read_byte p1 in
      if nat_eqb type 0
      then (read_result y p >>= λ (n, r, q). some (some (inl r)))
      else if nat_eqb type 1
      then (read_response y p >>= λ (n, r, q). some (some (inr r)))
      else some none

  -- One `read` of at most 1024 bytes and the packets that are left. Where more are in the pipe, it
  -- ends within a packet, which is not followed: none.
  unfoldable pub receive_pipe :
      List (List Item) → Option (Option (SaceResult ⊎ SaceStatusResponse) × List (List Item))
  receive_pipe [] = some (none, [])
  receive_pipe (p ∷ ps) =
      if leb (y.data_size (concat (p ∷ ps))) sace_result_buf_size
      then (parse_packet (y.holding (concat (p ∷ ps))) >>= λ x. some (x, []))
      else none
