-- ===== src/Events/PipeTests.antt =====
-- Packets in the pipe of the event excutor, and an instance of the theorem on them.
use service_excutor.Prelude.{
  ◌≡◌, refl, [], ◌∷◌, ◌++◌, some, inl, inr, codes, lookup, has, text_key, text_eqb, arith, true,
  none,
}
use service_excutor.Types.{
  SaceResult, SaceStatusResponse, result_type_label, result_status_ok, response_type_service,
  response_status_exit, le_bytes, service_payload, service_cmd_stop, service_flag_normal,
}
use service_excutor.Client.Calls.{init_command}
use service_excutor.Wire.Parcel.{write_size}
use service_excutor.Wire.Result.{
  write_result, write_response, result_items, response_items, write_fd,
}
use service_excutor.Wire.Listed.{listed, listed-IsParcel}
use service_excutor.Events.State.{SaceEvent, World}
use service_excutor.Events.Monitor.{receive, results_to, writers_of}
use service_excutor.Events.Pipe.{packet, receive_pipe, concat}
use service_excutor.Events.Losing.{receive_pipe-keeps_running}

abbrev world : World
world = record {
  fresh = 3;
  pid = 200;
  property = λ name. [];
  exists = true;
  opens = true;
  streams = true;
  show = λ n. [];
}

abbrev waiting : SaceEvent
waiting = record {
  events = [];
  writers = [];
  running_events = [];
  failed_events = [];
  starting_events = (codes "log", tt) ∷ [];
  heap = [];
  stop_cmd = record (init_command (codes "1:1") 2) {
    payload = service_payload service_cmd_stop service_flag_normal;
  };
  posted = [];
  ini_file = [];
  trace = [];
}

abbrev began : SaceResult
began = record {
  sequence = 4;
  name = codes "log";
  result_type = result_type_label;
  result_status = result_status_ok;
  result_extra = 7 ∷ 0 ∷ 0 ∷ 0 ∷ 0 ∷ 0 ∷ 0 ∷ 0 ∷ [];
  result_fd = none;
}

abbrev ended : SaceStatusResponse
ended = record {
  label = 7;
  name = codes "log";
  type = response_type_service;
  status = response_status_exit;
  extra = 1 ∷ 0 ∷ 0 ∷ 0 ∷ [];
}

receive_pipe-keeps_running_example :
    (t : SaceEvent) × (receive_pipe listed
        (packet listed (inl began) ∷ packet listed (inr ended) ∷ [])
      ≡ some (some (inl began), []))
    × (receive world (some (inl began)) waiting ≡ some t)
    × (lookup (codes "log") t.running_events ≡ some 7)
    × (t.trace ≡ waiting.trace ++ results_to (writers_of (codes "log") waiting) began)
unfolding le_bytes has lookup text_eqb packet concat write_result write_response write_size
    result_items response_items write_fd
receive_pipe-keeps_running_example =
    receive_pipe-keeps_running listed began ended 7 world waiting listed-IsParcel refl refl refl
      refl (omega arith) (omega arith) refl refl (omega arith)
