-- ===== src/Service/Transitions.antt =====
-- The life of a service as a diagram over `enum ServiceState`, and the proof that the commands
-- and the reaping follow it.
use service_excutor.Prelude.{
  ℕ, ◌≡◌, refl, subst, true, none, some, Map, lookup, store, lookup-store, nat_eqb, nat_key,
  text_key, inl, inr, arith, nat_eqb_iff, Bool-cases, ◌⊎◌,
}
use service_excutor.Types.{
  ServiceState, service_paused, service_stoped, service_running, service_died, service_died_signal,
  service_died_unknown, service_finished, service_finishing_user, service_finished_user,
}
use service_excutor.Service.State.{
  ServiceInfo, World, WaitResult, wait_none, wait_error, wait_exited, wait_signaled, wait_other,
}
use service_excutor.Service.Monitor.{sigterm}
use service_excutor.Service.Scanning.{lives, fate, aged}

-- A state in which the process is waited for.
pub data IsWatched : ServiceState → Type 0 where
  watched_paused : IsWatched service_paused
  watched_stoped : IsWatched service_stoped
  watched_running : IsWatched service_running
  watched_finishing : IsWatched service_finishing_user

infix 40 ◌⟶◌
pub data ◌⟶◌ : ServiceState → ServiceState → Type 0 where
  pauses : service_running ⟶ service_paused
  resumes : service_paused ⟶ service_running
  stops_running : service_running ⟶ service_finishing_user
  stops_paused : service_paused ⟶ service_finishing_user
  user_finishes : service_finishing_user ⟶ service_finished_user
  finishes : {s : ServiceState} → IsWatched s → s ⟶ service_finished
  dies : {s : ServiceState} → IsWatched s → s ⟶ service_died
  is_killed : {s : ServiceState} → IsWatched s → s ⟶ service_died_signal
  is_lost : {s : ServiceState} → IsWatched s → s ⟶ service_died_unknown

ruleset edges = (pauses, resumes, stops_running, stops_paused, user_finishes)

ruleset watched = (watched_paused, watched_stoped, watched_running, watched_finishing)

-- A state stays, or follows an edge.
abbrev pub Moves : ServiceState → ServiceState → Type 0
Moves s t = (t ≡ s) ⊎ (s ⟶ t)

lives-IsWatched : (st : ServiceState) → lives st ≡ true → IsWatched st
lives-IsWatched service_paused h = watched_paused
lives-IsWatched service_stoped h = watched_stoped
lives-IsWatched service_running h = watched_running
lives-IsWatched service_finishing_user h = watched_finishing
lives-IsWatched _ h = cc

signaled-Moves :
    (st : ServiceState) (c : ℕ)
    → lives st ≡ true
    → Moves st (elim (fate st (wait_signaled c)) [ none ↦ st | some (t, q, n) ↦ t ])
signaled-Moves service_finishing_user c h = elim (Bool-cases (nat_eqb c sigterm)) [
  | inl z ↦ rw z (inr user_finishes)
  | inr z ↦ rw z (inr (is_killed watched_finishing))
]
signaled-Moves service_paused c h = inr (is_killed watched_paused)
signaled-Moves service_running c h = inr (is_killed watched_running)
signaled-Moves service_stoped c h = inr (is_killed watched_stoped)
signaled-Moves _ c h = cc

fate-Moves :
    (st : ServiceState) (r : WaitResult)
    → lives st ≡ true
    → Moves st (elim (fate st r) [ none ↦ st | some (t, q, n) ↦ t ])
fate-Moves st wait_none h = inl refl
fate-Moves st (wait_error b) h = inl refl
fate-Moves st (wait_exited c) h = elim (Bool-cases (nat_eqb c 0)) [
  | inl z ↦ rw z (inr (finishes (lives-IsWatched st h)))
  | inr z ↦ rw z (inr (dies (lives-IsWatched st h)))
]
fate-Moves st (wait_signaled c) h = signaled-Moves st c h
fate-Moves st (wait_other c) h = inr (is_lost (lives-IsWatched st h))

-- Reaping moves a service along the diagram.
pub aged-Moves : (w : World) (i : ServiceInfo) → Moves i.state (aged w i).state
unfolding aged
aged-Moves w i = elim (Bool-cases (lives i.state)) [
  | inl t ↦ rw t (fate-Moves i.state (w.wait i.pid) t)
  | inr f ↦ rw f (inl refl)
]

-- Every service that was there is still there, and has moved along the diagram.
abbrev pub Evolves : Map ℕ ServiceInfo → Map ℕ ServiceInfo → Type 0
Evolves h k =
    (a : ℕ) (i : ServiceInfo)
    → lookup a h ≡ some i
    → (j : ServiceInfo) × (lookup a k ≡ some j) × Moves i.state j.state

pub Evolves-refl : (h : Map ℕ ServiceInfo) → Evolves h h
Evolves-refl h a i e = (i, e, inl refl)

pub Evolves-store :
    (h : Map ℕ ServiceInfo) (a : ℕ) (i j : ServiceInfo)
    → lookup a h ≡ some i
    → Moves i.state j.state
    → Evolves h (store a j h)
Evolves-store h a i j e m b k f = elim (Bool-cases (nat_eqb a b)) [
  | inl t ↦
      let same : i ≡ k = ground (arith, nat_eqb_iff a b) in
      (
        j,
        ground (arith, lookup-store b a j h),
        subst (λ (z : ServiceInfo). Moves z.state j.state) same m,
      )
  | inr t ↦ (k, ground (arith, lookup-store b a j h), inl refl)
]

pub Evolves-add :
    (h : Map ℕ ServiceInfo) (a : ℕ) (j : ServiceInfo) → lookup a h ≡ none → Evolves h (store a j h)
Evolves-add h a j e b k f = (k, ground (arith, lookup-store b a j h, nat_eqb_iff a b), inl refl)
