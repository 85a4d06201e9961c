-- ===== src/Service/Handling.antt =====
-- Each command but SACE_SERVICE_CMD_RESTART keeps the links, and does what its name says.
use service_excutor.Prelude.{
  ℕ, ◌≤◌, ◌≡◌, ◌≢◌, refl, sym, true, false, List, [], ◌∷◌, ◌++◌, All, append-nil, none, some,
  lookup, has, store, has-lookup, length, nat_key, text_key, inl, inr, arith, Bool-cases,
  Option-cases, ◌⊎◌, ◌==◌,
}
use service_excutor.Types.{
  ServiceCommandType, service_cmd_start, service_cmd_stop, service_cmd_pause, service_cmd_restart,
  service_cmd_info, service_cmd_other, ServiceFlags, ServiceState, service_paused,
  service_finishing_user, SaceCommand, SaceResult, SaceWriter, Effect, kill, send_result,
  send_response, close_fd, wait_pid, result_status_ok, result_status_exists, cmd_buffer_len,
  same_flags,
}
use service_excutor.Service.State.{
  ServiceInfo, ServiceExcutor, World, Fork, fork_failed, fork_parent, set_state, emit, add_writer,
}
use service_excutor.Service.Monitor.{sigterm}
use service_excutor.Service.Handlers.{
  sigstop, Answer, find_service, start, stop, pause, handle_service_info, handle, failed_result,
  is_stoppable, is_running, with_status, label_result, new_service, add_service, info_result,
  service_get_by_name,
}
use service_excutor.Service.Invariant.{Inv, IsConsistent-store, IsConsistent-add}

-- A signal to a process.
abbrev pub IsSignal : Effect → Type 0
IsSignal (kill pid sig) = Unit {0}
IsSignal (send_result wr r) = true ≡ false
IsSignal (send_response wr r) = true ≡ false
IsSignal (close_fd fd) = true ≡ false
IsSignal (wait_pid pid) = true ≡ false

-- An answer is given, the links hold in its state, and nothing but signals was sent.
abbrev pub Keeps : ServiceExcutor → Answer → Type 0
Keeps s r =
    (p : ServiceExcutor × SaceResult) × (r ≡ some p)
    × Inv p.0
    × ((signals : List Effect) × All IsSignal signals × (p.0.trace ≡ s.trace ++ signals))

silent :
    (s : ServiceExcutor)
    → (signals : List Effect) × All IsSignal signals × (s.trace ≡ s.trace ++ signals)
silent s = ([], tt, sym (append-nil s.trace))

find_service-Inv :
    (l : ℕ) (s : ServiceExcutor)
    → Inv s
    → (find_service l s ≡ some none)
      ⊎ ((i : ServiceInfo) × (find_service l s ≡ some (some (l, i))) × (lookup l s.heap ≡ some i))
unfolding find_service
find_service-Inv l s v = elim (Option-cases (lookup l s.seq)) [
  | inl e ↦ inl (ground arith)
  | inr (a, e) ↦
      let at = v.by_label l a e in let t = v.tracked a at.1 in inr (t.0, ground arith, ground arith)
]

-- A signal, and the new state of the service that gets it.
signal-Inv :
    (a : ℕ) (i : ServiceInfo) (st : ServiceState) (x : Effect) (s : ServiceExcutor)
    → Inv s
    → lookup a s.heap ≡ some i
    → Inv (set_state a i st (emit x s))
unfolding set_state emit
signal-Inv a i st x s v e =
    IsConsistent-store s.running s.seq s.names s.heap a i (record i { state = st }) v e refl refl

module _ (c : SaceCommand) (s : ServiceExcutor) (v : Inv s) where
  stop-Inv : Keeps s (stop c s)
  unfolding stop
  stop-Inv = elim (find_service-Inv c.label s v) [
    | inl e ↦ ((s, failed_result c), ground arith, v, silent s)
    | inr (i, e, h) ↦ elim (Bool-cases (is_stoppable i.state)) [
      | inl t ↦ (
        (
          set_state c.label i service_finishing_user (emit (kill i.pid sigterm) s),
          with_status result_status_ok c,
        ),
        ground arith,
        signal-Inv c.label i service_finishing_user (kill i.pid sigterm) s v h,
        (kill i.pid sigterm ∷ [], (tt, tt), refl),
      )
      | inr f ↦ ((s, with_status result_status_ok c), ground arith, v, silent s)
    ]
  ]

  pause-Inv : Keeps s (pause c s)
  unfolding pause
  pause-Inv = elim (find_service-Inv c.label s v) [
    | inl e ↦ ((s, failed_result c), ground arith, v, silent s)
    | inr (i, e, h) ↦ elim (Bool-cases (is_running i.state)) [
      | inl t ↦ (
        (
          set_state c.label i service_paused (emit (kill i.pid sigstop) s),
          with_status result_status_ok c,
        ),
        ground arith,
        signal-Inv c.label i service_paused (kill i.pid sigstop) s v h,
        (kill i.pid sigstop ∷ [], (tt, tt), refl),
      )
      | inr f ↦ ((s, failed_result c), ground arith, v, silent s)
    ]
  ]

  info-Inv : (f : ServiceFlags) (wr : SaceWriter) → Keeps s (handle_service_info c f wr s)
  unfolding handle_service_info
  info-Inv f wr = elim (Bool-cases (c.command == service_get_by_name)) [
    | inr e ↦ ((s, failed_result c), ground arith, v, silent s)
    | inl e ↦ elim (Option-cases (lookup c.name s.names)) [
      | inl n ↦ ((s, failed_result c), ground arith, v, silent s)
      | inr (a, n) ↦
          let (m, i, h, en) = v.by_name c.name a n in
          elim (Bool-cases (same_flags i.flags f)) [
            | inl t ↦
                let j : ServiceInfo = record i { writer = add_writer wr i.writer } in
                (
                  (record s { heap = store a j s.heap }, info_result i c),
                  ground arith,
                  IsConsistent-store s.running s.seq s.names s.heap a i j v h refl refl,
                  silent s,
                )
            | inr u ↦ ((s, failed_result c), ground arith, v, silent s)
          ]
    ]
  ]

  module _ (w : World) (fresh : lookup w.fresh s.heap ≡ none) where
    add_service-Inv :
        (f : ServiceFlags) (wr : SaceWriter) (pid : ℕ)
        → has c.name s.names ≡ false
        → Inv (add_service (new_service w pid c f wr) s)
    unfolding add_service new_service
    add_service-Inv f wr pid e =
        IsConsistent-add s.running s.seq s.names s.heap w.fresh (new_service w pid c f wr) v refl
          fresh (has-lookup c.name s.names e)

    forked-Inv :
        (f : ServiceFlags) (wr : SaceWriter) (k : Fork)
        → w.fork ≡ k
        → length c.command ≤ cmd_buffer_len
        → has c.name s.names ≡ false
        → Keeps s (start w c f wr s)
    unfolding start
    forked-Inv f wr fork_failed q fits e = ((s, failed_result c), ground arith, v, silent s)
    forked-Inv f wr (fork_parent pid) q fits e = (
      (add_service (new_service w pid c f wr) s, label_result w.fresh c),
      ground arith,
      add_service-Inv f wr pid e,
      silent s,
    )

    start-Inv :
        (f : ServiceFlags) (wr : SaceWriter)
        → length c.command ≤ cmd_buffer_len
        → Keeps s (start w c f wr s)
    unfolding start
    start-Inv f wr fits = elim (Bool-cases (has c.name s.names)) [
      | inl e ↦ ((s, with_status result_status_exists c), ground arith, v, silent s)
      | inr e ↦ forked-Inv f wr w.fork refl fits e
    ]

    -- Every command but a restart is answered, and the links hold after it.
    pub handle-Inv :
        (k : ServiceCommandType) (f : ServiceFlags) (wr : SaceWriter)
        → k ≢ service_cmd_restart
        → length c.command ≤ cmd_buffer_len
        → Keeps s (handle w k c f wr s)
    unfolding handle
    handle-Inv service_cmd_start f wr n fits = start-Inv f wr fits
    handle-Inv service_cmd_stop f wr n fits = stop-Inv
    handle-Inv service_cmd_pause f wr n fits = pause-Inv
    handle-Inv service_cmd_restart f wr n fits = absurd (n refl)
    handle-Inv service_cmd_info f wr n fits = info-Inv f wr
    handle-Inv (service_cmd_other m) f wr n fits = ((s, failed_result c), refl, v, silent s)
