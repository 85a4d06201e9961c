-- ===== src/Service/Lifecycle.antt =====
-- A service from its start on: the label in the result names it, its name is taken, and a stop
-- reaches its process.
use service_excutor.Prelude.{
  ℕ, ◌≤◌, ◌<◌, ◌^◌, ◌≡◌, refl, true, false, [], ◌∷◌, ◌++◌, none, some, lookup, has, has-lookup,
  has_of_lookup, lookup-insert, lookup-store, nat_key, nat_eqb_iff, text_key, text_eqb_iff, length,
  arith,
}
use service_excutor.Types.{
  ServiceFlags, service_finishing_user, SaceCommand, SaceResult, SaceWriter, kill, cmd_buffer_len,
  result_status_ok, result_status_exists, of_bytes, le_bytes, of_bytes-le_bytes,
}
use service_excutor.Service.State.{ServiceInfo, ServiceExcutor, World, fork_parent, set_state, emit}
use service_excutor.Service.Monitor.{sigterm}
use service_excutor.Service.Handlers.{
  start, stop, find_service, new_service, add_service, with_status, label_result, is_stoppable,
}
use service_excutor.Service.Invariant.{Inv, lookup-seq-fresh}

-- A start that succeeds: a new name, a command line that fits, a new address and a child.
pub record Starts (w : World) (c : SaceCommand) (s : ServiceExcutor) (pid : ℕ) : Type 0 where
  pub unused : has c.name s.names ≡ false
  pub fits : length c.command ≤ cmd_buffer_len
  pub fresh : lookup w.fresh s.heap ≡ none
  pub forked : w.fork ≡ fork_parent pid

module _ (w : World) (c : SaceCommand) (f : ServiceFlags) (wr : SaceWriter) (s : ServiceExcutor)
    (pid : ℕ) (starts : Starts w c s pid) where
  abbrev pub started : ServiceExcutor
  started = add_service (new_service w pid c f wr) s

  pub start_lem : start w c f wr s ≡ some (started, label_result w.fresh c)
  unfolding start
  start_lem = ground arith

  name_taken :
      (later : World) (d : SaceCommand) (g : ServiceFlags) (other : SaceWriter)
      → d.name ≡ c.name
      → start later d g other started ≡ some (started, with_status result_status_exists d)
  unfolding start add_service new_service
  name_taken later d g other same =
      let old = has-lookup c.name s.names starts.unused in
      let now : has d.name started.names ≡ true = has_of_lookup d.name w.fresh _ (
        ground
          (arith, lookup-insert d.name c.name w.fresh s.names old, text_eqb_iff c.name d.name)) in
      ground arith

  -- A second start under the name is refused, whoever asks and however the first service runs.
  pub start_twice :
      (later : World) (d : SaceCommand) (g : ServiceFlags) (other : SaceWriter)
      → d.name ≡ c.name
      → (p : ServiceExcutor × SaceResult) × (start w c f wr s ≡ some p)
        × (p.1.result_status ≡ result_status_ok)
        × (start later d g other p.0 ≡ some (p.0, with_status result_status_exists d))
  unfolding add_service new_service label_result
  start_twice later d g other same =
      ((started, label_result w.fresh c), start_lem, refl, name_taken later d g other same)

  pub stopped :
      (d : SaceCommand)
      → Inv s
      → d.label ≡ w.fresh
      → stop d started
        ≡ some (
          set_state w.fresh
              (new_service w pid c f wr)
              service_finishing_user
              (emit (kill pid sigterm) started),
          with_status result_status_ok d,
        )
  unfolding stop find_service add_service new_service set_state emit is_stoppable
  stopped d v l =
      let i : ServiceInfo = new_service w pid c f wr in
      let free = lookup-seq-fresh s.running s.seq s.names s.heap w.fresh v starts.fresh in
      ground (
        arith,
        nat_eqb_iff w.fresh w.fresh,
        lookup-store w.fresh w.fresh i s.heap,
        lookup-insert w.fresh w.fresh w.fresh s.seq free,
      )

  -- A stop with the label that the result carried: the process gets SIGTERM, and the service waits
  -- for its end.
  pub start-stop :
      (d : SaceCommand)
      → Inv s
      → w.fresh < 256 ^ 8
      → (p q : ServiceExcutor × SaceResult) × (start w c f wr s ≡ some p)
        × (stop (record d { label = of_bytes p.1.result_extra }) p.0 ≡ some q)
        × (q.1.result_status ≡ result_status_ok)
        × (q.0.trace ≡ s.trace ++ kill pid sigterm ∷ [])
        × (lookup w.fresh q.0.heap
            ≡ some (record (new_service w pid c f wr) { state = service_finishing_user }))
  unfolding add_service new_service label_result set_state emit
  start-stop d v bound =
      let i : ServiceInfo = new_service w pid c f wr in
      let l : of_bytes (le_bytes 8 w.fresh) ≡ w.fresh = of_bytes-le_bytes 8 w.fresh bound in
      let e : ServiceExcutor =
        set_state w.fresh i service_finishing_user (emit (kill pid sigterm) started) in
      (
        (started, label_result w.fresh c),
        (e, with_status result_status_ok (record d { label = of_bytes (le_bytes 8 w.fresh) })),
        start_lem,
        stopped (record d { label = of_bytes (le_bytes 8 w.fresh) }) v l,
        refl,
        refl,
        ground (
          arith,
          lookup-store w.fresh w.fresh (record i { state = service_finishing_user }) started.heap,
          nat_eqb_iff w.fresh w.fresh,
        ),
      )
