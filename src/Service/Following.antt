-- ===== src/Service/Following.antt =====
-- The commands move the services along the diagram of `Transitions`, also SACE_SERVICE_CMD_RESTART.
use service_excutor.Prelude.{
  ℕ, ◌≡◌, refl, sym, subst, true, false, [], ◌∷◌, ◌++◌, none, some, Map, lookup, has, store,
  nat_key, text_key, inl, inr, ltb, length, arith, Bool-cases, Option-cases, ◌⊎◌, ◌==◌,
}
use service_excutor.Types.{
  cmd_buffer_len, ServiceCommandType, service_cmd_start, service_cmd_stop, service_cmd_pause,
  result_status_ok, result_status_exists, service_cmd_restart, service_cmd_info, service_cmd_other,
  ServiceFlags, SaceCommand, SaceResult, SaceWriter, same_flags, ServiceState, service_paused,
  service_running, service_finishing_user, kill,
}
use service_excutor.Service.State.{
  ServiceInfo, ServiceExcutor, World, Fork, fork_failed, fork_parent, set_state, emit, add_writer,
}
use service_excutor.Service.Monitor.{sigterm}
use service_excutor.Service.Handlers.{
  sigstop, sigcont, Answer, find_service, start, stop, pause, restart, handle_service_info, handle,
  is_stoppable, is_running, is_paused, new_service, add_service, service_get_by_name, failed_result,
  with_status, info_result,
}
use service_excutor.Service.Transitions.{
  Moves, Evolves, Evolves-refl, Evolves-store, Evolves-add, pauses, resumes, stops_running,
  stops_paused,
}

-- Where there is an answer, its services have evolved from those of `s`.
abbrev pub Follows : ServiceExcutor → Answer → Type 0
Follows s r = (p : ServiceExcutor × SaceResult) → r ≡ some p → Evolves s.heap p.0.heap

unchanged : (s : ServiceExcutor) (q : SaceResult) (r : Answer) → r ≡ some (s, q) → Follows s r
unchanged s q r e p f =
    let same : p.0 ≡ s = ground arith in
    subst (λ (t : ServiceExcutor). Evolves s.heap t.heap) (sym same) (Evolves-refl s.heap)

changed :
    (s t : ServiceExcutor) (a : ℕ) (i j : ServiceInfo) (q : SaceResult) (r : Answer)
    → r ≡ some (t, q)
    → t.heap ≡ store a j s.heap
    → lookup a s.heap ≡ some i
    → Moves i.state j.state
    → Follows s r
changed s t a i j q r e h l m p f =
    let same : p.0.heap ≡ store a j s.heap = ground arith in
    subst (λ (k : Map ℕ ServiceInfo). Evolves s.heap k) (sym same) (Evolves-store s.heap a i j l m)

undefined : (s : ServiceExcutor) (r : Answer) → r ≡ none → Follows s r
undefined s r e p f = cc

-- The three results of the search for a label.
find_service_cases :
    (l : ℕ) (s : ServiceExcutor)
    → (find_service l s ≡ none)
      ⊎ (find_service l s ≡ some none)
      ⊎ ((a : ℕ) × (i : ServiceInfo) × (find_service l s ≡ some (some (a, i)))
          × (lookup a s.heap ≡ some i))
unfolding find_service
find_service_cases l s = elim (Option-cases (lookup l s.seq)) [
  | inl e ↦ inr (inl (ground arith))
  | inr (a, e) ↦ elim (Option-cases (lookup a s.heap)) [
    | inl n ↦ inl (ground arith)
    | inr (i, h) ↦ inr (inr (a, i, ground arith, h))
  ]
]

stoppable-Moves : (st : ServiceState) → is_stoppable st ≡ true → Moves st service_finishing_user
unfolding is_stoppable
stoppable-Moves service_running h = inr stops_running
stoppable-Moves service_paused h = inr stops_paused
stoppable-Moves _ h = cc

running-Moves : (st : ServiceState) → is_running st ≡ true → Moves st service_paused
unfolding is_running
running-Moves service_running h = inr pauses
running-Moves _ h = cc

paused-Moves : (st : ServiceState) → is_paused st ≡ true → Moves st service_running
unfolding is_paused
paused-Moves service_paused h = inr resumes
paused-Moves _ h = cc

module _ (c : SaceCommand) (s : ServiceExcutor) where
  stop-Follows : Follows s (stop c s)
  unfolding stop set_state emit
  stop-Follows = elim (find_service_cases c.label s) [
    | inl e ↦ undefined s (stop c s) (ground arith)
    | inr (inl e) ↦ unchanged s (failed_result c) (stop c s) (ground arith)
    | inr (inr (a, i, e, h)) ↦ elim (Bool-cases (is_stoppable i.state)) [
      | inl t ↦
          changed s (set_state a i service_finishing_user (emit (kill i.pid sigterm) s)) a i
            (record i { state = service_finishing_user }) (with_status result_status_ok c)
            (stop c s) (ground arith) refl h (stoppable-Moves i.state t)
      | inr t ↦ unchanged s (with_status result_status_ok c) (stop c s) (ground arith)
    ]
  ]

  pause-Follows : Follows s (pause c s)
  unfolding pause set_state emit
  pause-Follows = elim (find_service_cases c.label s) [
    | inl e ↦ undefined s (pause c s) (ground arith)
    | inr (inl e) ↦ unchanged s (failed_result c) (pause c s) (ground arith)
    | inr (inr (a, i, e, h)) ↦ elim (Bool-cases (is_running i.state)) [
      | inl t ↦
          changed s (set_state a i service_paused (emit (kill i.pid sigstop) s)) a i
            (record i { state = service_paused }) (with_status result_status_ok c) (pause c s)
            (ground arith) refl h (running-Moves i.state t)
      | inr t ↦ unchanged s (failed_result c) (pause c s) (ground arith)
    ]
  ]

  restart-Follows : Follows s (restart c s)
  unfolding restart set_state emit
  restart-Follows = elim (find_service_cases c.label s) [
    | inl e ↦ undefined s (restart c s) (ground arith)
    | inr (inl e) ↦ unchanged s (failed_result c) (restart c s) (ground arith)
    | inr (inr (a, i, e, h)) ↦ elim (Bool-cases (is_paused i.state)) [
      | inl t ↦
          let u : ServiceExcutor = set_state a i service_running (emit (kill i.pid sigcont) s) in
          changed s (record u { running = u.running ++ a ∷ [] }) a i
            (record i { state = service_running }) (with_status result_status_ok c) (restart c s)
            (ground arith) refl h (paused-Moves i.state t)
      | inr t ↦ unchanged s (failed_result c) (restart c s) (ground arith)
    ]
  ]

  info-Follows : (f : ServiceFlags) (wr : SaceWriter) → Follows s (handle_service_info c f wr s)
  unfolding handle_service_info
  info-Follows f wr = elim (Bool-cases (c.command == service_get_by_name)) [
    | inr e ↦ unchanged s (failed_result c) (handle_service_info c f wr s) (ground arith)
    | inl e ↦ elim (Option-cases (lookup c.name s.names)) [
      | inl n ↦ unchanged s (failed_result c) (handle_service_info c f wr s) (ground arith)
      | inr (a, n) ↦ elim (Option-cases (lookup a s.heap)) [
        | inl h ↦ undefined s (handle_service_info c f wr s) (ground arith)
        | inr (i, h) ↦ elim (Bool-cases (same_flags i.flags f)) [
          | inl t ↦
              let j : ServiceInfo = record i { writer = add_writer wr i.writer } in
              changed s (record s { heap = store a j s.heap }) a i j (info_result i c)
                (handle_service_info c f wr s) (ground arith) refl h (inl refl)
          | inr u ↦ unchanged s (failed_result c) (handle_service_info c f wr s) (ground arith)
        ]
      ]
    ]
  ]

  module _ (w : World) (fresh : lookup w.fresh s.heap ≡ none) where
    forked-Follows :
        (f : ServiceFlags) (wr : SaceWriter) (k : Fork)
        → w.fork ≡ k
        → has c.name s.names ≡ false
        → ltb cmd_buffer_len (length c.command) ≡ false
        → Follows s (start w c f wr s)
    unfolding start add_service new_service
    forked-Follows f wr fork_failed q e l =
        unchanged s (failed_result c) (start w c f wr s) (ground arith)
    forked-Follows f wr (fork_parent pid) q e l = λ p g.
        let i : ServiceInfo = new_service w pid c f wr in
        let same : p.0.heap ≡ store w.fresh i s.heap = ground arith in
        subst (λ (k : Map ℕ ServiceInfo). Evolves s.heap k) (sym same)
          (Evolves-add s.heap w.fresh i fresh)

    start-Follows : (f : ServiceFlags) (wr : SaceWriter) → Follows s (start w c f wr s)
    unfolding start
    start-Follows f wr = elim (Bool-cases (has c.name s.names)) [
      | inl e ↦ unchanged s (with_status result_status_exists c) (start w c f wr s) (ground arith)
      | inr e ↦ elim (Bool-cases (ltb cmd_buffer_len (length c.command))) [
        | inl l ↦ undefined s (start w c f wr s) (ground arith)
        | inr l ↦ forked-Follows f wr w.fork refl e l
      ]
    ]

    handle-Follows :
        (k : ServiceCommandType) (f : ServiceFlags) (wr : SaceWriter)
        → Follows s (handle w k c f wr s)
    unfolding handle
    handle-Follows service_cmd_start f wr = start-Follows f wr
    handle-Follows service_cmd_stop f wr = stop-Follows
    handle-Follows service_cmd_pause f wr = pause-Follows
    handle-Follows service_cmd_restart f wr = restart-Follows
    handle-Follows service_cmd_info f wr = info-Follows f wr
    handle-Follows (service_cmd_other m) f wr = unchanged s (failed_result c) _ refl

    -- Whatever the command, a restart included: with an address that is new, every service that was
    -- there is still there after the answer, in the same state or one edge of the diagram further.
    pub handle-Moves :
        (k : ServiceCommandType) (f : ServiceFlags) (wr : SaceWriter)
        → (p : ServiceExcutor × SaceResult) → handle w k c f wr s ≡ some p
        → (a : ℕ) (i : ServiceInfo) → lookup a s.heap ≡ some i
        → (j : ServiceInfo) × (lookup a p.0.heap ≡ some j) × Moves i.state j.state
    handle-Moves k f wr p e a i h = handle-Follows k f wr p e a i h
