-- ===== src/Sender/Handover.antt =====
-- What comes of a result: it is returned, it is lost, or it stops both threads.
use service_excutor.Prelude.{
  ℕ, ◌≡◌, ◌≢◌, refl, true, false, List, [], ◌∷◌, ◌++◌, map, append-nil, append_assoc, subst, ap,
  ◌∙◌, bind-some, ◌>>=◌, some, nat_eqb, nat_eqb_iff, arith,
}
use service_excutor.Types.{SaceResult, SaceStatusResponse}
use service_excutor.Sender.Steps.{
  wrote, waits, is_woken, returned, responds, drops, exits, handle_response, exit_thread, Sender,
  Event, writes, begins_wait, times_out, wakes, spurious, receives, timeout_result,
  write_command_bytes, begin_wait, end_wait, time_out, wake, wake_spuriously, handle_result, step,
  run,
}

-- The client waits, or has written, a command with a number that is not 0, and no mutex is left
-- locked.
pub record IsReady (s : Sender) (n : ℕ) : Type 0 where
  pub unlocked : s.locked ≡ false
  pub numbered : n ≢ 0
  pub has_written : s.phase ≡ wrote n
  pub receives_on : s.receiving ≡ true

responds_lem :
    (rs : List SaceStatusResponse) (es : List Event) (s : Sender)
    → s.receiving ≡ true
    → run (map responds rs ++ es) s ≡ run es (record s { handed = s.handed ++ rs })
unfolding run step handle_response
responds_lem [] es s on = simp (append-nil) refl
responds_lem (r ∷ rs) es s on =
    let t : Sender = record s { handed = s.handed ++ r ∷ [] } in
    let first : step (responds r) s ≡ some t = ground (arith, on) in
    ap (λ o. o >>= run (map responds rs ++ es)) first
    ∙ responds_lem rs es t on
    ∙ ap (λ h. run es (record s { handed = h })) (append_assoc s.handed (r ∷ []) rs)

-- A result that comes during the wait and has the command's number, with any responses of the
-- daemon before it and after it, but with no other result before the client takes the mutex: it is
-- what is returned, the mutex is free, and the responses were handed on in order.
pub receive_returns :
    (s : Sender) (n : ℕ) (r : SaceResult) (before after : List SaceStatusResponse)
    → IsReady s n
    → r.sequence ≡ n
    → (t : Sender) × (run
          (begins_wait ∷ (map responds before ++ receives r ∷ (map responds after ++ wakes ∷ [])))
          s
        ≡ some t)
      × (t.phase ≡ returned r)
      × (t.locked ≡ false)
      × (t.handed ≡ (s.handed ++ before) ++ after)
unfolding run step begin_wait handle_result wake end_wait
receive_returns s n r before after v e =
    let z : nat_eqb n 0 ≡ false = ground (arith, nat_eqb_iff n 0, v.numbered) in
    let s1 : Sender = record s { sync_sequence = n; phase = waits n } in
    let s2 : Sender = record s1 { handed = s.handed ++ before } in
    let s3 : Sender = record s2 { result = r; phase = is_woken n } in
    let s4 : Sender = record s3 { handed = (s.handed ++ before) ++ after } in
    let t : Sender = record s4 { sync_sequence = 0; phase = returned r } in
    let begun : begin_wait s ≡ some s1 = ground (arith, v.unlocked, v.has_written) in
    let first =
      responds_lem before (receives r ∷ (map responds after ++ wakes ∷ [])) s1 v.receives_on in
    let taken : step (receives r) s2 ≡ some s3 =
      ground (arith, v.unlocked, v.receives_on, z, nat_eqb_iff n r.sequence) in
    let second = responds_lem after (wakes ∷ []) s3 v.receives_on in
    let woken : step wakes s4 ≡ some t = ground (arith, v.unlocked) in
    (t, simp (begun, first, taken, second, woken) refl, refl, v.unlocked, refl)

-- A result that comes between the write and the wait is dropped: the wait ends by the timeout,
-- and that is what is returned for a command that was answered.
pub receive_lost :
    (s : Sender) (n : ℕ) (r : SaceResult)
    → IsReady s n
    → s.sync_sequence ≡ 0
    → (t : Sender) × (run (receives r ∷ begins_wait ∷ times_out ∷ []) s ≡ some t)
      × (t.phase ≡ returned timeout_result)
unfolding run step begin_wait handle_result time_out end_wait
receive_lost s n r v e = (
  record s { sync_sequence = 0; phase = returned timeout_result },
  ground (arith, v.unlocked, v.has_written, v.receives_on, e),
  refl,
)

-- The client waits, and the mutex is nobody's to free.
abbrev pub IsStuck : ℕ → Sender → Type 0
IsStuck n s = (s.locked ≡ true) × (s.phase ≡ waits n)

step-IsStuck : (e : Event) (s t : Sender) (n : ℕ) → IsStuck n s → step e s ≡ some t → IsStuck n t
unfolding step write_command_bytes begin_wait handle_result time_out wake wake_spuriously end_wait
    handle_response exit_thread
step-IsStuck (writes m) s t n (l, p) f = ground (arith, l, p, f)
step-IsStuck begins_wait s t n (l, p) f = ground (arith, l, p, f)
step-IsStuck times_out s t n (l, p) f = ground (arith, l, p, f)
step-IsStuck wakes s t n (l, p) f = ground (arith, l, p, f)
step-IsStuck spurious s t n (l, p) f = ground (arith, l, p, f)
step-IsStuck (receives r) s t n (l, p) f = ground (arith, l, p, f)
step-IsStuck (responds r) s t n (l, p) f = ground (arith, l, p, f)
step-IsStuck drops s t n (l, p) f = ground (arith, l, p, f)
step-IsStuck exits s t n (l, p) f = ground (arith, l, p, f)

run-IsStuck :
    (es : List Event) (s t : Sender) (n : ℕ) → IsStuck n s → run es s ≡ some t → IsStuck n t
unfolding run
run-IsStuck [] s t n v f = let same : s ≡ t = ground (arith, f) in subst (IsStuck n) same v
run-IsStuck (e ∷ es) s t n v f =
    let (u, first, rest) = bind-some (step e s) (run es) t f in
    run-IsStuck es u t n (step-IsStuck e s u n v first) rest

-- A result with another number that comes during the wait, such as one that came too late for
-- the command before: the mutex stays locked, and whatever steps the two threads and the clock do
-- after it, the client is still in its wait, the timeout included.
pub receive_deadlocks :
    (s : Sender) (n : ℕ) (r : SaceResult)
    → IsReady s n
    → r.sequence ≢ n
    → (t : Sender) × (run (begins_wait ∷ receives r ∷ []) s ≡ some t)
      × IsStuck n t
      × ((es : List Event) (u : Sender) → run es t ≡ some u → IsStuck n u)
receive_deadlocks s n r v d =
    let z : nat_eqb n 0 ≡ false = ground (arith, nat_eqb_iff n 0, v.numbered) in
    let t : Sender = record s { sync_sequence = n; phase = waits n; locked = true } in
    (
      t,
      unfold run step begin_wait handle_result in
          ground (arith, v.unlocked, v.has_written, v.receives_on, z, nat_eqb_iff n r.sequence, d),
      (refl, refl),
      λ es u f. run-IsStuck es t u n (refl, refl) f,
    )
