-- ===== src/Sender/Tests.antt =====
-- A client that wrote a command, and instances of the theorems on its result.
use service_excutor.Prelude.{
  ℕ, ◌≡◌, refl, true, false, List, [], ◌∷◌, some, arith, length, ◌+◌, ◌*◌,
}
use service_excutor.Types.{SaceResult, SaceStatusResponse, new_response, new_result, result_type_fd}
use service_excutor.Sender.Steps.{
  wrote, returned, Sender, Event, begins_wait, wakes, receives, responds, run,
}
use service_excutor.Sender.Handover.{IsReady, IsStuck, receive_returns, receive_deadlocks}
use service_excutor.Wire.Listed.{listed, listed-IsParcel}
use service_excutor.Wire.Result.{with_fd, result_items, write_fd}
use service_excutor.Writers.{Packet, result_packet}
use service_excutor.Sender.Arrival.{receive, arrived, passed, handles_result, receive-result_packet}

abbrev client : Sender
client = record {
  locked = false;
  sync_sequence = 0;
  result = new_result;
  phase = wrote 5;
  receiving = true;
  handed = [];
}

client-IsReady : IsReady client 5
client-IsReady = record {
  unlocked = refl;
  numbered = λ e. omega (arith, e);
  has_written = refl;
  receives_on = refl;
}

abbrev answer : ℕ → SaceResult
answer n = record new_result { sequence = n }

abbrev ended : SaceStatusResponse
ended = record new_response { label = 7 }

receive_returns_example :
    (t : Sender) × (run (begins_wait ∷ responds ended ∷ receives (answer 5) ∷ wakes ∷ []) client
      ≡ some t)
    × (t.phase ≡ returned (answer 5))
    × (t.locked ≡ false)
    × (t.handed ≡ ended ∷ [])
receive_returns_example = receive_returns client 5 (answer 5) (ended ∷ []) [] client-IsReady refl

receive_deadlocks_example :
    (t : Sender) × (run (begins_wait ∷ receives (answer 4) ∷ []) client ≡ some t)
    × IsStuck 5 t
    × ((es : List Event) (u : Sender) → run es t ≡ some u → IsStuck 5 u)
receive_deadlocks_example =
    receive_deadlocks client 5 (answer 4) client-IsReady (λ e. omega (arith, e))

abbrev piped : SaceResult
piped = record new_result {
  sequence = 5;
  result_type = result_type_fd;
  result_fd = some 9;
  result_extra = 1 ∷ 2 ∷ [];
}

receive-result_packet_example :
    (s : Packet) × (result_packet listed piped ≡ some s)
    × (receive listed (
          arrived
            (4 * length (result_items piped))
            s.items
            (λ n. [])
            (passed (λ fd. fd + 20) s.control))
        ≡ some (handles_result (record piped { result_fd = passed (λ fd. fd + 20) (some 9) })))
unfolding new_result result_items write_fd
receive-result_packet_example =
    receive-result_packet listed piped (λ fd. fd + 20) (4 * length (result_items piped)) (λ n. [])
      listed-IsParcel with_fd (omega arith) (omega arith) refl (omega arith) (omega arith)
