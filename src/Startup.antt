-- ===== src/Startup.antt =====
-- saced/SaceCommandMonitor.cpp and saced/sace_main.cpp: the readers together, and the main thread.
mod Tests
use mathlib.Core.List.{reverse-cons}
use service_excutor.Prelude.{
  ℕ, zero, suc, ◌+◌, ◌≡◌, refl, sym, ap, ◌∙◌, Bool, true, false, ◌&&◌, List, [], ◌∷◌, ◌++◌, map,
  reverse, append-nil, append_assoc, nat_eqb, if◌then◌else◌, arith, Bool-cases, inl, inr, ◌⊎◌,
}

-- What happens to the readers, which are numbered, and to the dispatcher.
pub data Step : Type 0 where
  reader_started reader_refused reader_stopped reader_deleted : ℕ → Step
  dispatcher_started dispatcher_stopped : Step

-- A reader: its number, and whether its `startRead` succeeds.
abbrev pub Attempt : Type 0
Attempt = ℕ × Bool

-- The first loop of `startListen`: `success`, `startedReaders`, and what happened.
unfoldable pub start_readers : List Attempt → Bool × List ℕ × List Step
start_readers [] = (true, [], [])
start_readers ((n, good) ∷ rs) =
    let (success, started, steps) = start_readers rs in
    if good
    then (success, n ∷ started, reader_started n ∷ steps)
    else (false, started, reader_refused n ∷ steps)

unfoldable pub start_listen : List Attempt → Bool × List Step
start_listen rs =
    let (success, started, steps) = start_readers rs in
    if success then (true, steps) else (false, steps ++ map reader_stopped (reverse started))

unfoldable pub stop_listen : List Attempt → List Step
stop_listen [] = []
stop_listen ((n, good) ∷ rs) = reader_stopped n ∷ stop_listen rs

-- `~SaceCommandMonitor`
unfoldable pub delete_readers : List Attempt → List Step
delete_readers [] = []
delete_readers ((n, good) ∷ rs) = reader_deleted n ∷ delete_readers rs

unfoldable pub exit_sace : List Attempt → List Step
exit_sace rs = stop_listen rs ++ dispatcher_stopped ∷ delete_readers rs

-- What comes to the main thread: a signal, which adds one to the event counter, and a `read` of the
-- counter that returns, which is not before it is above zero and sets it back.
pub data MainEvent : Type 0 where
  signaled reads : MainEvent

-- Whether the loop ends; none of the reads is for nothing.
unfoldable pub main_loop : List MainEvent → ℕ → Bool
main_loop [] count = false
main_loop (signaled ∷ es) count = main_loop es (count + 1)
main_loop (reads ∷ es) count = let rest = main_loop es 0 in if nat_eqb count 1 then true else rest

-- `main`: none of it, where there is no event descriptor; the exit code is 0 or -1.
unfoldable pub main : Bool → Bool → List Attempt → List MainEvent → List Step
main event_fd dispatcher rs es =
    let (listening, steps) = start_listen rs in
    if event_fd
    then if dispatcher
      then if listening
        then dispatcher_started ∷ (steps ++ (if main_loop es 0 then exit_sace rs else []))
        else dispatcher_started ∷ (steps ++ dispatcher_stopped ∷ [])
      else []
    else []

-- How often a reader is started, and stopped.
unfoldable pub starts_of : ℕ → List Step → ℕ
starts_of n [] = 0
starts_of n (reader_started m ∷ s) = (if nat_eqb m n then 1 else 0) + starts_of n s
starts_of n (reader_refused m ∷ s) = starts_of n s
starts_of n (reader_stopped m ∷ s) = starts_of n s
starts_of n (reader_deleted m ∷ s) = starts_of n s
starts_of n (dispatcher_started ∷ s) = starts_of n s
starts_of n (dispatcher_stopped ∷ s) = starts_of n s

unfoldable pub stops_of : ℕ → List Step → ℕ
stops_of n [] = 0
stops_of n (reader_started m ∷ s) = stops_of n s
stops_of n (reader_refused m ∷ s) = stops_of n s
stops_of n (reader_stopped m ∷ s) = (if nat_eqb m n then 1 else 0) + stops_of n s
stops_of n (reader_deleted m ∷ s) = stops_of n s
stops_of n (dispatcher_started ∷ s) = stops_of n s
stops_of n (dispatcher_stopped ∷ s) = stops_of n s

occurs : ℕ → List ℕ → ℕ
occurs n [] = 0
occurs n (m ∷ l) = (if nat_eqb m n then 1 else 0) + occurs n l

occurs-append : (n : ℕ) (l r : List ℕ) → occurs n (l ++ r) ≡ occurs n l + occurs n r
unfolding occurs
occurs-append n [] r = omega arith
occurs-append n (m ∷ l) r = omega (arith, occurs-append n l r)

occurs-reverse : (n : ℕ) (l : List ℕ) → occurs n (reverse l) ≡ occurs n l
unfolding occurs
occurs-reverse n [] = refl
occurs-reverse n (m ∷ l) =
    ap (occurs n) (reverse-cons m l)
    ∙ omega (arith, occurs-append n (reverse l) (m ∷ []), occurs-reverse n l)

starts_of-stopped : (n : ℕ) (l : List ℕ) → starts_of n (map reader_stopped l) ≡ 0
unfolding starts_of
starts_of-stopped n [] = refl
starts_of-stopped n (m ∷ l) = starts_of-stopped n l

stops_of-stopped : (n : ℕ) (l : List ℕ) → stops_of n (map reader_stopped l) ≡ occurs n l
unfolding stops_of occurs
stops_of-stopped n [] = refl
stops_of-stopped n (m ∷ l) = omega (arith, stops_of-stopped n l)

-- How many of the attempts at a reader succeed, and whether all attempts do.
abbrev pub successes : ℕ → List Attempt → ℕ
successes n [] = 0
successes n ((m, good) ∷ rs) = (if good && nat_eqb m n then 1 else 0) + successes n rs

abbrev pub all_succeed : List Attempt → Bool
all_succeed [] = true
all_succeed ((m, good) ∷ rs) = good && all_succeed rs

start_readers_lem :
    (n : ℕ) (rs : List Attempt) (t : List Step)
    → let (success, started, steps) = start_readers rs in
      (success ≡ all_succeed rs)
      × (occurs n started ≡ successes n rs)
      × (starts_of n (steps ++ t) ≡ successes n rs + starts_of n t)
      × (stops_of n (steps ++ t) ≡ stops_of n t)
unfolding start_readers starts_of stops_of occurs
start_readers_lem n [] t = (refl, refl, omega arith, refl)
start_readers_lem n ((m, true) ∷ rs) t =
    let (a, b, c, d) = start_readers_lem n rs t in (a, ground (arith, b), ground (arith, c), d)
start_readers_lem n ((m, false) ∷ rs) t =
    let (a, b, c, d) = start_readers_lem n rs t in (refl, omega (arith, b), omega (arith, c), d)

-- A start of the readers succeeds exactly if each of them starts. Each reader is started as often
-- as an attempt at it succeeds, and stopped as often again if the start fails, and not at all if it
-- succeeds.
pub start_listen-stops_of :
    (rs : List Attempt) (n : ℕ)
    → ((start_listen rs).0 ≡ all_succeed rs)
      × (starts_of n (start_listen rs).1 ≡ successes n rs)
      × (stops_of n (start_listen rs).1 ≡ (if all_succeed rs then 0 else successes n rs))
unfolding start_listen starts_of stops_of
start_listen-stops_of rs n =
    let (success, started, steps) = start_readers rs in
    let stops = map reader_stopped (reverse started) in
    let (a, b, c, d) = start_readers_lem n rs stops in
    let (a', b', c', d') = start_readers_lem n rs [] in
    let same = append-nil steps in
    let begun : starts_of n steps ≡ successes n rs =
      ap (starts_of n) (sym same) ∙ omega (arith, c') in
    let none_yet : stops_of n steps ≡ 0 = ap (stops_of n) (sym same) ∙ d' in
    let rolled : stops_of n (steps ++ stops) ≡ successes n rs =
      omega (arith, d, b, stops_of-stopped n (reverse started), occurs-reverse n started) in
    let all : starts_of n (steps ++ stops) ≡ successes n rs =
      omega (arith, c, starts_of-stopped n (reverse started)) in
    elim (Bool-cases (all_succeed rs)) [
      | inl e ↦ rw (a, e) (refl, begun, none_yet)
      | inr e ↦ rw (a, e) (refl, all, rolled)
    ]

-- Two signals before the main thread reads its counter are lost, and the daemon goes on.
pub main_loop-two :
    (es : List MainEvent) → main_loop (signaled ∷ signaled ∷ reads ∷ es) 0 ≡ main_loop es 0
unfolding main_loop
main_loop-two es = ground arith
