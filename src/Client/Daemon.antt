-- ===== src/Client/Daemon.antt =====
-- A client over the service executor: its calls are answered by `handle` of the executor, which
-- reaps after each of them. The way between them, and the other executors, are parameters.
use service_excutor.Prelude.{
  ℕ, suc, ◌≡◌, refl, false, List, [], ◌∷◌, Option, some, Text, codes, nat_key, nat_eqb_iff,
  text_key, text_eqb, arith, ◌>>=◌,
}
use service_excutor.Types.{
  SaceCommand, SaceResult, SaceWriter, Payload, normal_payload, service_payload, event_payload,
  other_payload, service_died_unknown,
}
use service_excutor.Service.State.{ServiceExcutor, World, wait_none}
use service_excutor.Service.Monitor.{monitor_service_status, scan, visit, outcome, is_gone}
use service_excutor.Service.Handlers.{
  handle, handle_service_info, service_get_by_name, failed_result,
}
use service_excutor.Service.Invariant.{Inv}
use service_excutor.Service.Scanning.{AllLive}
use service_excutor.Service.Collecting.{AllLive-IsConsistent}
use service_excutor.Client.Calls.{CommandSender, init_command, send}
use service_excutor.Client.Objects.{
  ServiceObj, err_ok, get_state, ask_state, info_by_label, returned, is_ok,
}

-- No child has ended.
abbrev pub IsQuiet : World → Type 0
IsQuiet w = (pid : ℕ) → w.wait pid ≡ wait_none

scan-quiet :
    (w : World) (l : List ℕ) (n : ℕ) (gc : List ℕ) (s : ServiceExcutor)
    → IsQuiet w
    → AllLive l s.heap
    → scan w l n gc s ≡ some (s, gc)
unfolding scan visit outcome is_gone
scan-quiet w [] n gc s q v = refl
scan-quiet w (a ∷ l) n gc s q v =
    let (i, e) = v a (ground (arith, nat_eqb_iff a a)) in
    ground (arith, e, q i.pid, scan-quiet w l (suc n) gc s q (λ b c. v b (ground arith)))

pub monitor-quiet :
    (w : World) (s : ServiceExcutor) → IsQuiet w → Inv s → monitor_service_status w s ≡ some s
unfolding monitor_service_status
monitor-quiet w s q v =
    ground (
      arith,
      scan-quiet w s.running 0 [] s q (AllLive-IsConsistent s.running s.seq s.names s.heap v),
    )

module _ (w : World) (wr : SaceWriter) (self : Text) (other : SaceCommand → SaceResult) where
  unfoldable pub answer :
      Payload → SaceCommand → ℕ × ServiceExcutor → Option (SaceResult × (ℕ × ServiceExcutor))
  answer (service_payload t f) c (n, s) =
      handle w t c f wr s >>= λ (u, r). monitor_service_status w u >>= λ v. some (r, (n, v))
  answer (normal_payload t f) c s = some (other c, s)
  answer (event_payload t f) c s = some (other c, s)
  answer (other_payload k) c s = some (other c, s)

  abbrev pub daemon : CommandSender (ℕ × ServiceExcutor)
  daemon = record {
    self_name = self;
    tick = λ (n, s). (n, (suc n, s));
    excute = λ c s. answer c.payload c s;
  }

  -- A client asks for the state of a service, through an object that has a label and no error, at
  -- an executor whose links hold and while no child has ended: it is told that the service died,
  -- however the service runs, since the executor answers queries by name only.
  pub get_state-daemon :
      (o : ServiceObj) (label n : ℕ) (s : ServiceExcutor)
      → IsQuiet w
      → Inv s
      → o.error ≡ err_ok
      → o.label ≡ some label
      → get_state daemon o (n, s) ≡ some (returned (some service_died_unknown), (suc n, s))
  unfolding get_state ask_state info_by_label send handle handle_service_info answer init_command
      is_ok failed_result text_eqb
  get_state-daemon o label n s q v e l =
      let differ : text_eqb (codes "GET_BY_LABEL") service_get_by_name ≡ false = refl in
      ground (arith, e, l, differ, monitor-quiet w s q v)
