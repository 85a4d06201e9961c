-- ===== src/Dispatch/Queue.antt =====
-- The queue of a `SaceExcutor` and its thread, step by step: `sendCommandMessage`,
-- `destroy_excute_thread` and `excute_command_thread`. A section under `mSyncMutex` is one step,
-- `sem_post` and `sem_wait` are others, so the threads interleave between them.
use service_excutor.Prelude.{
  ℕ, zero, suc, ◌+◌, ◌≤◌, ◌≡◌, refl, Bool, true, false, List, [], ◌∷◌, ◌++◌, Option, none, some,
  length, length-append, append_assoc, arith, ap, ◌∙◌, if◌then◌else◌,
}

-- Where the thread is: before the semaphore, past it, with what it took from the queue and the
-- flag it read, or ended.
pub data Thread (M : Type 0) : Type 0 where
  waiting woken gone : Thread M
  holding : Option M → Bool → Thread M

-- `posting` counts the threads between their section and `sem_post`; `sent` and `handled` record
-- the messages that were pushed and those given to `excuteCommand`.
pub record Queue (M : Type 0) : Type 0 where
  pub cmd_queue : List M
  pub sync_sem : ℕ
  pub exit : Bool
  pub posting : ℕ
  pub thread : Thread M
  pub sent : List M
  pub handled : List M

module _ {M : Type 0} where
  abbrev pub initial : Queue M
  initial = record {
    cmd_queue = [];
    sync_sem = 0;
    exit = false;
    posting = 0;
    thread = waiting;
    sent = [];
    handled = [];
  }

  -- The section of `sendCommandMessage`.
  abbrev pub push : M → Queue M → Queue M
  push m q = record q {
    cmd_queue = q.cmd_queue ++ m ∷ [];
    sent = q.sent ++ m ∷ [];
    posting = suc q.posting;
  }

  -- The section of `destroy_excute_thread`.
  abbrev pub set_exit : Queue M → Queue M
  set_exit q = record q { exit = true; posting = suc q.posting }

  -- `sem_post`
  abbrev pub post : Queue M → Option (Queue M)
  post q = elim q.posting [
    | zero ↦ none
    | suc n ↦ some (record q { posting = n; sync_sem = suc q.sync_sem })
  ]

  -- `sem_wait` or `sem_timedwait` that takes a token.
  abbrev pub wake : Queue M → Option (Queue M)
  wake q = elim q.thread [
    | waiting ↦ elim q.sync_sem [
      | zero ↦ none
      | suc n ↦ some (record q { sync_sem = n; thread = woken })
    ]
    | woken ↦ none
    | gone ↦ none
    | holding m x ↦ none
  ]

  -- Either call, ended by a signal: its error is not told from a token.
  abbrev pub interrupt : Queue M → Option (Queue M)
  interrupt q = elim q.thread [
    | waiting ↦ some (record q { thread = woken })
    | woken ↦ none
    | gone ↦ none
    | holding m x ↦ none
  ]

  -- `ETIMEDOUT`: there was no token; `excuteTimeout` does not touch the queue.
  abbrev pub time_out : Queue M → Option (Queue M)
  time_out q = elim q.thread [
    | waiting ↦ elim q.sync_sem [ zero ↦ some q | suc n ↦ none ]
    | woken ↦ none
    | gone ↦ none
    | holding m x ↦ none
  ]

  -- The section of the thread.
  abbrev pub pop : Queue M → Option (Queue M)
  pop q = elim q.thread [
    | waiting ↦ none
    | woken ↦ some (elim q.cmd_queue [
      | [] ↦ record q { thread = holding none q.exit }
      | m ∷ ms ↦ record q { cmd_queue = ms; thread = holding (some m) q.exit }
    ])
    | gone ↦ none
    | holding m x ↦ none
  ]

  abbrev pub in_hand : Thread M → List M
  in_hand waiting = []
  in_hand woken = []
  in_hand gone = []
  in_hand (holding none x) = []
  in_hand (holding (some m) x) = m ∷ []

  -- `excuteCommand` for what was taken, and the test of the flag.
  abbrev pub work : Queue M → Option (Queue M)
  work q = elim q.thread [
    | waiting ↦ none
    | woken ↦ none
    | gone ↦ none
    | holding m x ↦ some (record q {
      handled = q.handled ++ in_hand (holding m x);
      thread = if x then gone else waiting;
    })
  ]

pub data Event (M : Type 0) : Type 0 where
  pushes : M → Event M
  sets_exit posts wakes interrupted times_out pops works : Event M

module _ {M : Type 0} where
  unfoldable pub step : Event M → Queue M → Option (Queue M)
  step (pushes m) q = some (push m q)
  step sets_exit q = some (set_exit q)
  step posts q = post q
  step wakes q = wake q
  step interrupted q = interrupt q
  step times_out q = time_out q
  step pops q = pop q
  step works q = work q

  pub data Reachable : Queue M → Type 0 where
    starts : Reachable initial
    steps : {q r : Queue M} → (e : Event M) → Reachable q → step e q ≡ some r → Reachable r

  abbrev pub awake : Thread M → ℕ
  awake waiting = 0
  awake woken = 1
  awake gone = 0
  awake (holding m x) = 0

  -- The messages keep their order, and a waiting message has a token on its way.
  pub record Inv (q : Queue M) : Type 0 where
    pub fifo : q.sent ≡ q.handled ++ (in_hand q.thread ++ q.cmd_queue)
    pub tokens : length q.cmd_queue ≤ q.sync_sem + q.posting + awake q.thread

  push-Inv : (m : M) (q : Queue M) → Inv q → Inv (push m q)
  push-Inv m q v = record {
    fifo =
        ap (λ l. l ++ m ∷ []) v.fifo
        ∙ (append_assoc q.handled (in_hand q.thread ++ q.cmd_queue) (m ∷ [])
            ∙ ap (λ l. q.handled ++ l) (append_assoc (in_hand q.thread) q.cmd_queue (m ∷ [])));
    tokens = omega (arith, v.tokens, length-append q.cmd_queue (m ∷ []));
  }

  pop-Inv : (q r : Queue M) → Inv q → pop q ≡ some r → Inv r
  pop-Inv q r v h = record { fifo = ground (arith, v.fifo); tokens = ground (arith, v.tokens) }

  work-Inv : (q r : Queue M) → Inv q → work q ≡ some r → Inv r
  work-Inv q r v h = record {
    fifo = ground (arith, v.fifo, append_assoc q.handled (in_hand q.thread) q.cmd_queue);
    tokens = ground (arith, v.tokens);
  }

  step-Inv : (e : Event M) (q r : Queue M) → Inv q → step e q ≡ some r → Inv r
  unfolding step
  step-Inv (pushes m) q r v h =
      let w = push-Inv m q v in
      record { fifo = ground (arith, w.fifo); tokens = ground (arith, w.tokens) }
  step-Inv sets_exit q r v h = record {
    fifo = ground (arith, v.fifo);
    tokens = ground (arith, v.tokens);
  }
  step-Inv posts q r v h = record {
    fifo = ground (arith, v.fifo);
    tokens = ground (arith, v.tokens);
  }
  step-Inv wakes q r v h = record {
    fifo = ground (arith, v.fifo);
    tokens = ground (arith, v.tokens);
  }
  step-Inv interrupted q r v h = record {
    fifo = ground (arith, v.fifo);
    tokens = ground (arith, v.tokens);
  }
  step-Inv times_out q r v h = record {
    fifo = ground (arith, v.fifo);
    tokens = ground (arith, v.tokens);
  }
  step-Inv pops q r v h = pop-Inv q r v h
  step-Inv works q r v h = work-Inv q r v h

  pub Reachable-Inv : {q : Queue M} → Reachable q → Inv q
  Reachable-Inv starts = record { fifo = refl; tokens = omega arith }
  Reachable-Inv {q = r} (steps {q = q} e p h) = step-Inv e q r (Reachable-Inv p) h
