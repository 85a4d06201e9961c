-- ===== src/Service/Excute.antt =====
-- The calls that the thread of `SaceServiceExcutor` makes: `excuteNormal` for a message,
-- `excuteTimeout` when none came, `onUninit` and the destructor at the end.
use service_excutor.Prelude.{ℕ, List, [], ◌∷◌, Option, none, some, lookup, erase, nat_key, ◌>>=◌}
use service_excutor.Types.{
  message_type_normal, message_type_event, SaceCommand, SaceWriter, SaceReaderMessage,
  SaceStatusResponse, Payload, normal_payload, service_payload, event_payload, other_payload, kill,
  response_status_signal, response_type_service,
}
use service_excutor.Service.State.{ServiceInfo, ServiceExcutor, World, emit, send_responses}
use service_excutor.Service.Monitor.{monitor_service_status}
use service_excutor.Service.Handlers.{sigint, sigkill, handle, finish}

-- Reading an arm of the union that `type` does not name is undefined behaviour.
unfoldable pub excute_payload :
    World → Payload → SaceCommand → SaceWriter → ServiceExcutor → Option ServiceExcutor
excute_payload w (service_payload t f) c wr s = handle w t c f wr s >>= finish w wr
excute_payload w (normal_payload t f) c wr s = none
excute_payload w (event_payload t f) c wr s = none
excute_payload w (other_payload n) c wr s = none

unfoldable pub excute_normal : World → SaceReaderMessage → ServiceExcutor → Option ServiceExcutor
unfolding excute_payload
excute_normal w m s = elim m.msg_type [
  | message_type_normal ↦ excute_payload w m.msg_cmd.payload m.msg_cmd m.msg_writer s
  | message_type_event ↦ some s
]

unfoldable pub excute_timeout : World → ServiceExcutor → Option ServiceExcutor
excute_timeout w s = monitor_service_status w s

-- The loop of `onUninit`.
unfoldable pub interrupt_all : List ℕ → ServiceExcutor → Option ServiceExcutor
unfolding emit
interrupt_all [] s = some s
interrupt_all (a ∷ rest) s =
    lookup a s.heap >>= λ i. interrupt_all rest (emit (kill i.pid sigint) s)

unfoldable pub on_uninit : World → ServiceExcutor → Option ServiceExcutor
unfolding interrupt_all
on_uninit w s = interrupt_all s.running s >>= monitor_service_status w

abbrev killed_response : ServiceInfo → SaceStatusResponse
killed_response i = record {
  label = i.label;
  name = i.name;
  type = response_type_service;
  status = response_status_signal;
  extra = [];
}

-- The loop of the destructor.
unfoldable pub kill_all : List ℕ → ServiceExcutor → Option ServiceExcutor
unfolding emit send_responses
kill_all [] s = some s
kill_all (a ∷ rest) s = lookup a s.heap >>= λ i.
    let t = send_responses i (killed_response i) (emit (kill i.pid sigkill) s) in
    kill_all rest (record t { heap = erase a t.heap })

unfoldable pub destroy : ServiceExcutor → Option ServiceExcutor
unfolding kill_all
destroy s = kill_all s.running s >>= λ t. some (record t { running = []; seq = []; names = [] })
