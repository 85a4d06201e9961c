-- ===== src/Service/Monitor.antt =====
-- `SaceServiceExcutor::monitor_service_status`: a pass over the running services that notes the
-- positions of those which ended, and a second pass that frees them.
use service_excutor.Prelude.{
  ℕ, suc, Bool, true, false, List, [], ◌∷◌, ◌++◌, Option, none, some, lookup, erase, length,
  get_elem?, erase_at, nat_eqb, ltb, nat_key, text_key, if◌then◌else◌, ◌>>=◌, ◌&&◌,
}
use service_excutor.Types.{
  ServiceState, service_paused, service_stoped, service_running, service_died, service_died_signal,
  service_died_unknown, service_finished, service_finishing_user, service_finished_user,
  ResponseStatus, response_status_exit, response_status_signal, response_status_user,
  response_status_unknown, response_type_service, SaceStatusResponse, le_bytes,
}
use service_excutor.Service.State.{
  ServiceInfo, ServiceExcutor, World, WaitResult, wait_none, wait_error, wait_exited, wait_signaled,
  wait_other, set_state, send_responses,
}

abbrev pub sigterm : ℕ
sigterm = 15

-- The states in which a service is waited for.
unfoldable pub is_watched : ServiceState → Bool
is_watched service_paused = true
is_watched service_running = true
is_watched service_stoped = true
is_watched service_finishing_user = true
is_watched _ = false

abbrev pub is_finishing_user : ServiceState → Bool
is_finishing_user service_finishing_user = true
is_finishing_user _ = false

abbrev response_of : ServiceInfo → ResponseStatus → List ℕ → SaceStatusResponse
response_of i st extra = record {
  label = i.label;
  name = i.name;
  type = response_type_service;
  status = st;
  extra = extra;
}

-- The new state, and the response for the clients. `extra` has four bytes, zero at first.
unfoldable pub outcome : ServiceInfo → WaitResult → Option (ServiceState × SaceStatusResponse)
unfolding le_bytes
outcome i wait_none = none
outcome i (wait_error e) = none
outcome i (wait_exited code) = some (
  if nat_eqb code 0 then service_finished else service_died,
  response_of i response_status_exit (le_bytes 4 code),
)
outcome i (wait_signaled sig) =
    if is_finishing_user i.state && nat_eqb sig sigterm
    then some (service_finished_user, response_of i response_status_user (le_bytes 4 0))
    else some (service_died_signal, response_of i response_status_signal (le_bytes 4 sig))
outcome i (wait_other status) =
    some (service_died_unknown, response_of i response_status_unknown (le_bytes 4 status))

-- The child is gone for `waitpid`: it ended, or the call failed with ECHILD.
unfoldable pub is_gone : WaitResult → Bool
is_gone wait_none = false
is_gone (wait_error e) = e
is_gone (wait_exited c) = true
is_gone (wait_signaled c) = true
is_gone (wait_other c) = true

-- One round of the first pass, at a service that is alive for the list; `true` asks to free it.
unfoldable pub visit : World → ℕ → ServiceInfo → ServiceExcutor → ServiceExcutor × Bool
unfolding is_watched is_gone
visit w a i s =
    if is_watched i.state
    then (
      elim (outcome i (w.wait i.pid)) [
        | none ↦ s
        | some (st, r) ↦ send_responses i r (set_state a i st s)
      ],
      is_gone (w.wait i.pid),
    )
    else (s, false)

-- The first pass, from position `n`: the positions to free are collected in `gc`.
unfoldable pub scan :
    World → List ℕ → ℕ → List ℕ → ServiceExcutor → Option (ServiceExcutor × List ℕ)
scan w [] n gc s = some (s, gc)
scan w (a ∷ rest) n gc s = do
  i ← lookup a s.heap
  let v = visit w a i s
  scan w rest (suc n) (if v.1 then gc ++ n ∷ [] else gc) v.0

-- One round of the second pass: the iterator at position `n` is valid below `bound`.
unfoldable pub collect : ℕ → ℕ → ServiceExcutor → Option ServiceExcutor
collect bound n s =
    if ltb n bound
    then (do
      a ← get_elem? s.running n
      i ← lookup a s.heap
      some (record s {
        running = erase_at s.running n;
        seq = erase i.label s.seq;
        names = erase i.name s.names;
        heap = erase a s.heap;
      }))
    else none

-- The second pass. `vector::erase` invalidates the iterators from the erased position on.
unfoldable pub collect_all : ℕ → List ℕ → ServiceExcutor → Option ServiceExcutor
unfolding collect
collect_all bound [] s = some s
collect_all bound (n ∷ ns) s = collect bound n s >>= λ s'. collect_all n ns s'

unfoldable pub monitor_service_status : World → ServiceExcutor → Option ServiceExcutor
unfolding scan collect_all
monitor_service_status w s = scan w s.running 0 [] s >>= λ p. collect_all (length s.running) p.1 p.0
