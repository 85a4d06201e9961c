-- ===== src/Service/Message.antt =====
-- A whole message: `excuteNormal` with its result and the reaping that follows.
use service_excutor.Prelude.{
  ℕ, ◌≤◌, ◌≡◌, ◌≢◌, refl, ap, ◌∙◌, List, All, true, false, [], ◌∷◌, ◌++◌, none, some, Map, lookup,
  store, lookup-store, contains, nat_eqb, nat_key, nat_eqb_iff, length, arith, ◌>>=◌,
}
use service_excutor.Types.{
  message_type_normal, service_cmd_restart, ServiceCommandType, ServiceFlags, SaceResult,
  SaceReaderMessage, service_payload, service_running, Effect, kill, send_result, cmd_buffer_len,
  result_status_ok,
}
use service_excutor.Service.State.{
  ServiceInfo, ServiceExcutor, World, WaitResult, wait_exited, wait_signaled, wait_other, emit,
  set_state,
}
use service_excutor.Service.Handlers.{
  sigcont, find_service, restart, is_paused, with_status, handle, finish,
}
use service_excutor.Service.Excute.{excute_normal, excute_timeout}
use service_excutor.Service.Invariant.{Inv, IsConsistent-store}
use service_excutor.Service.Scanning.{lives, ends, aged, ends_at, notices_all}
use service_excutor.Service.Collecting.{AllLive-IsConsistent}
use service_excutor.Service.Reaping.{ended, survivors, monitor_one_ended}
use service_excutor.Service.Handling.{IsSignal, handle-Inv}
use service_excutor.Service.Dangling.{monitor_dangling, monitor_twice}

-- The message is one for this executor.
pub record IsServiceMessage (m : SaceReaderMessage) (k : ServiceCommandType) (f : ServiceFlags)
    : Type 0 where
  pub normal : m.msg_type ≡ message_type_normal
  pub service : m.msg_cmd.payload ≡ service_payload k f

module _ (w : World) (m : SaceReaderMessage) (s : ServiceExcutor) (k : ServiceCommandType)
    (f : ServiceFlags) (is : IsServiceMessage m k f) where
  excute_normal-handle :
      excute_normal w m s ≡ (handle w k m.msg_cmd f m.msg_writer s >>= finish w m.msg_writer)
  unfolding excute_normal
  excute_normal-handle = ground arith

  -- Any command but a restart, in a consistent state, with an address that is new, a command line
  -- that fits its buffer, and at most one service that has ended when the pass begins: the call
  -- returns, the state is consistent again, and the services that have not ended remain. What is
  -- done to the outside is, in this order: signals at most, one result to the client, and the
  -- responses to the clients of the service that ended.
  pub excute_normal-Inv :
      Inv s
      → k ≢ service_cmd_restart
      → length m.msg_cmd.command ≤ cmd_buffer_len
      → lookup w.fresh s.heap ≡ none
      → ((p : ServiceExcutor × SaceResult)
          → handle w k m.msg_cmd f m.msg_writer s ≡ some p
          → ended w p.0.heap p.0.running ≤ 1)
      → (p : ServiceExcutor × SaceResult) × (t : ServiceExcutor) × (handle w k m.msg_cmd f
            m.msg_writer s
          ≡ some p)
        × (excute_normal w m s ≡ some t)
        × Inv t
        × (t.running ≡ survivors w p.0.heap p.0.running)
        × ((signals : List Effect) × All IsSignal signals
            × (t.trace
                ≡ ((s.trace ++ signals) ++ send_result m.msg_writer p.1 ∷ [])
                  ++ notices_all w p.0.heap p.0.running))
  unfolding finish emit
  excute_normal-Inv v other fits fresh one =
      let (p, e, vp, outside) = handle-Inv m.msg_cmd s v w fresh k f m.msg_writer other fits in
      let (signals, only, before) = outside in
      let u : ServiceExcutor = emit (send_result m.msg_writer p.1) p.0 in
      let (t, mt, vt, rt, tt') = monitor_one_ended w u vp (one p e) in
      (
        p,
        t,
        e,
        excute_normal-handle ∙ ground arith,
        vt,
        rt,
        (
          signals,
          only,
          tt'
              ∙ ap
                  (λ b.
                    (b ++ send_result m.msg_writer p.1 ∷ []) ++ notices_all w p.0.heap p.0.running)
                  before,
        ),
      )

-- What `waitpid` says of a process that ended.
pub data IsDeath : WaitResult → Type 0 where
  exited : (code : ℕ) → IsDeath (wait_exited code)
  signaled : (sig : ℕ) → IsDeath (wait_signaled sig)
  other_status : (status : ℕ) → IsDeath (wait_other status)

death-done :
    (w : World) (i : ServiceInfo) (r : WaitResult)
    → w.wait i.pid ≡ r
    → IsDeath r
    → lives i.state ≡ true
    → (ends w i ≡ true) × (lives (aged w i).state ≡ false)
unfolding ends aged
death-done w i r e (exited code) h = ground arith
death-done w i r e (signaled sig) h = ground arith
death-done w i r e (other_status status) h = ground arith

ends_at-store :
    (w : World) (h : Map ℕ ServiceInfo) (a b : ℕ) (j : ServiceInfo)
    → nat_eqb a b ≡ false
    → ends_at w (store a j h) b ≡ ends_at w h b
unfolding ends_at
ends_at-store w h a b j ne = ground (arith, lookup-store b a j h)

module _ (w : World) (m : SaceReaderMessage) (s : ServiceExcutor) (f : ServiceFlags)
    (is : IsServiceMessage m service_cmd_restart f) where
  -- The restart of a paused service whose process has ended by the time of the pass, while the
  -- other services go on: the call returns, and the next timeout reads the freed object.
  pub restart_faults :
      (i : ServiceInfo)
      → Inv s
      → lookup m.msg_cmd.label s.heap ≡ some i
      → contains m.msg_cmd.label s.running ≡ true
      → is_paused i.state ≡ true
      → IsDeath (w.wait i.pid)
      → ((b : ℕ)
          → contains b s.running ≡ true
          → nat_eqb m.msg_cmd.label b ≡ false
          → ends_at w s.heap b ≡ false)
      → (t : ServiceExcutor) × (excute_normal w m s ≡ some t)
        × ((later : World) → excute_timeout later t ≡ none)
  unfolding finish emit set_state handle restart find_service excute_timeout
  restart_faults i v found on paused death others =
      let a : ℕ = m.msg_cmd.label in
      let j : ServiceInfo = record i { state = service_running } in
      let u : ServiceExcutor = record s {
        running = s.running ++ a ∷ [];
        heap = store a j s.heap;
        trace =
            (s.trace ++ kill i.pid sigcont ∷ [])
            ++ send_result m.msg_writer (with_status result_status_ok m.msg_cmd) ∷ [];
      } in
      let vj = IsConsistent-store s.running s.seq s.names s.heap a i j v found refl refl in
      let dead = death-done w j (w.wait i.pid) refl death refl in
      let (t, mt, ct, et) =
        monitor_twice w u s.running a j refl v.distinct
          (AllLive-IsConsistent s.running s.seq s.names (store a j s.heap) vj) on
          (ground (arith, lookup-store a a j s.heap, nat_eqb_iff a a)) dead.0 dead.1
          (λ b cb ne. ends_at-store w s.heap a b j ne ∙ others b cb ne) in
      (
        t,
        excute_normal-handle w m s service_cmd_restart f is ∙ ground (arith, v.tracked a on, mt),
        λ later. monitor_dangling later t a ct et,
      )
