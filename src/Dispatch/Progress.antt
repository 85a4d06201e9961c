-- ===== src/Dispatch/Progress.antt =====
-- What the queue promises: order, no lost wake-up, a drain, and what an exit leaves behind.
use service_excutor.Prelude.{
  ℕ, zero, suc, ◌≤◌, ◌≡◌, refl, true, false, List, [], ◌∷◌, ◌++◌, Option, some, length,
  append_assoc, append-nil, arith, ◌>>=◌, sym, ◌∙◌, Option-cases, inl, inr,
}
use service_excutor.Dispatch.Queue.{
  Queue, waiting, gone, Event, pushes, sets_exit, posts, interrupted, times_out, wakes, pops, works,
  step, Reachable, Reachable-Inv, in_hand,
}

module _ {M : Type 0} where
  unfoldable pub run : List (Event M) → Queue M → Option (Queue M)
  run [] q = some q
  run (e ∷ es) q = step e q >>= run es

  -- One turn of the loop of `excute_command_thread` for each of `n` tokens.
  unfoldable pub rounds : ℕ → List (Event M)
  rounds zero = []
  rounds (suc n) = wakes ∷ pops ∷ works ∷ rounds n

  -- Whatever the interleaving, the messages handled are the first ones sent, in their order, and
  -- what was sent and not handled is what the thread holds and the queue.
  pub queue_order :
      (q : Queue M) → Reachable q → q.sent ≡ q.handled ++ (in_hand q.thread ++ q.cmd_queue)
  queue_order q r = (Reachable-Inv r).fifo

  turn :
      (q : Queue M) (m : M) (ms : List M) (n : ℕ)
      → q.thread ≡ waiting
      → q.cmd_queue ≡ m ∷ ms
      → q.sync_sem ≡ suc n
      → q.exit ≡ false
      → run (rounds 1) q
        ≡ some (record q { cmd_queue = ms; sync_sem = n; handled = q.handled ++ m ∷ [] })
  unfolding run rounds step
  turn q m ms n t c s x = ground arith

  drain_from :
      (ms : List M) (q : Queue M)
      → q.cmd_queue ≡ ms
      → q.thread ≡ waiting
      → q.exit ≡ false
      → length ms ≤ q.sync_sem
      → (r : Queue M) × (run (rounds (length ms)) q ≡ some r)
        × (r.cmd_queue ≡ [])
        × (r.handled ≡ q.handled ++ ms)
        × (r.thread ≡ waiting)
  unfolding run rounds step
  drain_from [] q c t x l = (q, refl, c, sym (append-nil q.handled), t)
  drain_from (m ∷ ms) q c t x l =
      let (n, e) = suc_of_le q.sync_sem l in
      let q' : Queue M = record q { cmd_queue = ms; sync_sem = n; handled = q.handled ++ m ∷ [] } in
      let (r, run_r, empty, handled, idle) = drain_from ms q' refl t x (omega arith) in
      (r, ground arith, empty, ground (arith, append_assoc q.handled (m ∷ []) ms), idle)
    where
      suc_of_le : {k : ℕ} (n : ℕ) → suc k ≤ n → (p : ℕ) × (n ≡ suc p)
      suc_of_le zero h = (0, omega arith)
      suc_of_le (suc n) h = (n, refl)

  -- A state that some interleaving reaches, in which the thread waits, no `sem_post` is
  -- outstanding and no exit was asked for: there is a token for each queued message, and as many
  -- turns of the thread as there are messages handle everything that was sent.
  pub queue-drain :
      (q : Queue M)
      → Reachable q
      → q.thread ≡ waiting
      → q.posting ≡ 0
      → q.exit ≡ false
      → (r : Queue M) × (run (rounds (length q.cmd_queue)) q ≡ some r)
        × (r.cmd_queue ≡ [])
        × (r.handled ≡ q.sent)
  queue-drain q p t z x =
      let v = Reachable-Inv p in
      let (r, e, empty, handled, idle) =
        drain_from q.cmd_queue q refl t x (ground (arith, v.tokens)) in
      (r, e, empty, ground (arith, handled, v.fifo))

  gone-step :
      (e : Event M) (q r : Queue M)
      → q.thread ≡ gone
      → step e q ≡ some r
      → (r.thread ≡ gone) × (r.handled ≡ q.handled)
  unfolding step
  gone-step (pushes m) q r t h = ground arith
  gone-step sets_exit q r t h = ground arith
  gone-step posts q r t h = ground arith
  gone-step wakes q r t h = ground arith
  gone-step interrupted q r t h = ground arith
  gone-step times_out q r t h = ground arith
  gone-step pops q r t h = ground arith
  gone-step works q r t h = ground arith

  gone-run :
      (es : List (Event M)) (q t : Queue M)
      → q.thread ≡ gone
      → run es q ≡ some t
      → t.handled ≡ q.handled
  unfolding run
  gone-run [] q t g h = ground arith
  gone-run (e ∷ es) q t g h = elim (Option-cases (step e q)) [
    | inl n ↦ ground arith
    | inr (r, s) ↦ let (g', same) = gone-step e q r g s in gone-run es r t g' (ground arith) ∙ same
  ]

  -- The exit flag is set and the thread takes its token while messages are queued: it handles the
  -- first of them and ends, and no later step handles another.
  pub exit_leaves :
      (q t : Queue M) (m : M) (ms : List M) (n : ℕ) (es : List (Event M))
      → q.thread ≡ waiting
      → q.exit ≡ true
      → q.cmd_queue ≡ m ∷ ms
      → q.sync_sem ≡ suc n
      → run (wakes ∷ pops ∷ works ∷ es) q ≡ some t
      → t.handled ≡ q.handled ++ m ∷ []
  unfolding run step
  exit_leaves q t m ms n es w x c s h =
      let r : Queue M = record q {
        cmd_queue = ms;
        sync_sem = n;
        handled = q.handled ++ m ∷ [];
        thread = gone;
      } in
      gone-run es r t refl (ground arith)
