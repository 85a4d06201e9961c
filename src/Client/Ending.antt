-- ===== src/Client/Ending.antt =====
-- A service that was started, and the stop that a client sends through its object.
use service_excutor.Prelude.{
  ℕ, suc, ◌<◌, ◌≡◌, refl, subst, true, some, Text, lookup-store, nat_key, nat_eqb_iff, text_key,
  arith,
}
use service_excutor.Types.{
  SaceCommand, SaceResult, SaceWriter, service_payload, ServiceFlags, service_finishing_user, kill,
  service_flag_normal, service_cmd_start, service_cmd_stop,
}
use service_excutor.Service.State.{ServiceExcutor, World, set_state, emit}
use service_excutor.Service.Monitor.{sigterm}
use service_excutor.Service.Handlers.{handle, new_service, add_service, failed_result}
use service_excutor.Service.Invariant.{Inv, IsConsistent-store}
use service_excutor.Service.Handling.{handle-Inv}
use service_excutor.Service.Lifecycle.{Starts, started, start_lem, stopped}
use service_excutor.Client.Calls.{init_command, send}
use service_excutor.Client.Objects.{
  returned, is_ok, stop, control, service_guard, service_command, new_service_obj,
}
use service_excutor.Client.Daemon.{IsQuiet, daemon, answer, monitor-quiet}

module _ (w : World) (wr : SaceWriter) where
  pub started-Inv :
      (c : SaceCommand) (f : ServiceFlags) (s : ServiceExcutor) (pid : ℕ)
      (starts : Starts w c s pid)
      → Inv s
      → Inv (started w c f wr s pid starts)
  unfolding handle
  started-Inv c f s pid starts v =
      let (p, run, good, outside) =
        handle-Inv c s v w starts.fresh service_cmd_start f wr (λ e. ground arith) starts.fits in
      let same : p.0 ≡ started w c f wr s pid starts =
        ground (arith, run, start_lem w c f wr s pid starts) in
      subst (λ u. Inv u) same good

  -- The service that waits for its end after a stop.
  abbrev pub stopping : SaceCommand → ℕ → ServiceExcutor → ServiceExcutor
  stopping c pid t =
      set_state w.fresh (new_service w pid c service_flag_normal wr) service_finishing_user
        (emit (kill pid sigterm) t)

  stopping-Inv :
      (c : SaceCommand) (s : ServiceExcutor) (pid : ℕ) (starts : Starts w c s pid)
      → Inv s
      → Inv (stopping c pid (started w c service_flag_normal wr s pid starts))
  unfolding set_state emit add_service new_service
  stopping-Inv c s pid starts v =
      let t = started w c service_flag_normal wr s pid starts in
      let i = new_service w pid c service_flag_normal wr in
      IsConsistent-store t.running t.seq t.names t.heap w.fresh i
        (record i { state = service_finishing_user })
        (started-Inv c service_flag_normal s pid starts v)
        (ground (arith, lookup-store w.fresh w.fresh i s.heap, nat_eqb_iff w.fresh w.fresh)) refl
        refl

module _ (w : World) (wr : SaceWriter) (self : Text) (other : SaceCommand → SaceResult)
    (quiet : IsQuiet w) where
  pub stop-daemon :
      (c : SaceCommand) (name cmd : Text) (n pid : ℕ) (s : ServiceExcutor)
      (starts : Starts w c s pid)
      → Inv s
      → 0 < w.fresh
      → stop
          (daemon w wr self other)
          (new_service_obj w.fresh name cmd)
          (n, started w c service_flag_normal wr s pid starts)
        ≡ some (
          returned true,
          (suc n, stopping w wr c pid (started w c service_flag_normal wr s pid starts)),
        )
  unfolding stop control service_guard service_command send answer handle is_ok new_service_obj
      failed_result init_command
  stop-daemon c name cmd n pid s starts v pos =
      let t = started w c service_flag_normal wr s pid starts in
      let asked : SaceCommand = record (init_command self n) {
        label = w.fresh;
        payload = service_payload service_cmd_stop service_flag_normal;
      } in
      ground (
        arith,
        pos,
        stopped w c service_flag_normal wr s pid starts asked v refl,
        monitor-quiet w (stopping w wr c pid t) quiet (stopping-Inv w wr c s pid starts v),
      )
