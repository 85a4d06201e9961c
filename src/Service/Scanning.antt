-- ===== src/Service/Scanning.antt =====
-- The first pass of `monitor_service_status` in closed form: what it writes, whom it notifies and
-- which positions it notes, all read off the objects as they are when the pass begins.
use service_excutor.Prelude.{
  ℕ, suc, ◌≡◌, refl, ap, ◌∙◌, Bool, true, false, ◌&&◌, List, [], ◌∷◌, ◌++◌, none, some, Map, lookup,
  store, lookup-store, contains, Distinct, nat_eqb, nat_key, inl, inr, if◌then◌else◌, append_assoc,
  append-nil, arith, nat_eqb_iff, Bool-cases, Option-cases, Option,
}
use service_excutor.Types.{
  Effect, ServiceState, service_paused, service_stoped, service_running, service_died,
  service_died_signal, service_died_unknown, service_finished, service_finishing_user,
  service_finished_user, service_unknown, ResponseStatus, response_status_exit,
  response_status_signal, response_status_user, response_status_unknown, response_type_service,
  SaceStatusResponse, le_bytes,
}
use service_excutor.Service.State.{
  ServiceInfo, ServiceExcutor, World, WaitResult, wait_none, wait_error, wait_exited, wait_signaled,
  wait_other, set_state, send_responses, responses,
}
use service_excutor.Service.Monitor.{is_watched, is_finishing_user, outcome, is_gone, visit, scan}

-- A client has asked for the end.
abbrev pub user_ends : ServiceState → Bool
user_ends service_finishing_user = true
user_ends service_running = false
user_ends service_paused = false
user_ends service_stoped = false
user_ends service_finished = false
user_ends service_finished_user = false
user_ends service_died = false
user_ends service_died_signal = false
user_ends service_died_unknown = false
user_ends service_unknown = false

-- What the pass is to do, by the state of a service and what `waitpid` says of its process: the
-- state that follows, the status of the response with its number, or nothing.
abbrev pub fate : ServiceState → WaitResult → Option (ServiceState × ResponseStatus × ℕ)
fate st wait_none = none
fate st (wait_error gone) = none
fate st (wait_exited code) = some (
    if nat_eqb code 0
    then (service_finished, response_status_exit, 0)
    else (service_died, response_status_exit, code))
fate st (wait_signaled sig) = some (
    if user_ends st && nat_eqb sig 15
    then (service_finished_user, response_status_user, 0)
    else (service_died_signal, response_status_signal, sig))
fate st (wait_other status) = some (service_died_unknown, response_status_unknown, status)

-- The states whose services have a process.
abbrev pub lives : ServiceState → Bool
lives service_running = true
lives service_paused = true
lives service_stoped = true
lives service_finishing_user = true
lives service_finished = false
lives service_finished_user = false
lives service_died = false
lives service_died_signal = false
lives service_died_unknown = false
lives service_unknown = false

-- The process is no child of the daemon any more.
abbrev pub gone : WaitResult → Bool
gone wait_none = false
gone (wait_error no_child) = no_child
gone (wait_exited code) = true
gone (wait_signaled sig) = true
gone (wait_other status) = true

-- The response for the clients of a service.
abbrev pub told : ServiceInfo → ResponseStatus → ℕ → SaceStatusResponse
told i st n = record {
  label = i.label;
  name = i.name;
  type = response_type_service;
  status = st;
  extra = le_bytes 4 n;
}

-- A service that the pass marks to be freed.
unfoldable pub ends : World → ServiceInfo → Bool
ends w i = lives i.state && gone (w.wait i.pid)

unfoldable pub aged : World → ServiceInfo → ServiceInfo
aged w i = record i {
  state =
      if lives i.state
      then elim (fate i.state (w.wait i.pid)) [ none ↦ i.state | some (st, r, n) ↦ st ]
      else i.state;
}

-- The responses that a service's clients get.
unfoldable pub notices : World → ServiceInfo → List Effect
notices w i =
    if lives i.state
    then elim (fate i.state (w.wait i.pid)) [
      | none ↦ []
      | some (st, status, n) ↦ responses i.writer (told i status n)
    ]
    else []

is_watched-lives : (st : ServiceState) → is_watched st ≡ lives st
unfolding is_watched
is_watched-lives service_paused = refl
is_watched-lives service_stoped = refl
is_watched-lives service_running = refl
is_watched-lives service_died = refl
is_watched-lives service_died_signal = refl
is_watched-lives service_died_unknown = refl
is_watched-lives service_finished = refl
is_watched-lives service_finishing_user = refl
is_watched-lives service_finished_user = refl
is_watched-lives service_unknown = refl

is_gone-gone : (r : WaitResult) → is_gone r ≡ gone r
unfolding is_gone
is_gone-gone wait_none = refl
is_gone-gone (wait_error no_child) = refl
is_gone-gone (wait_exited code) = refl
is_gone-gone (wait_signaled sig) = refl
is_gone-gone (wait_other status) = refl

is_finishing_user_lem : (st : ServiceState) → is_finishing_user st ≡ user_ends st
is_finishing_user_lem service_paused = refl
is_finishing_user_lem service_stoped = refl
is_finishing_user_lem service_running = refl
is_finishing_user_lem service_died = refl
is_finishing_user_lem service_died_signal = refl
is_finishing_user_lem service_died_unknown = refl
is_finishing_user_lem service_finished = refl
is_finishing_user_lem service_finishing_user = refl
is_finishing_user_lem service_finished_user = refl
is_finishing_user_lem service_unknown = refl

-- The code does what the table says.
abbrev fated :
    ServiceInfo
    → Option (ServiceState × ResponseStatus × ℕ)
    → Option (ServiceState × SaceStatusResponse)
fated i none = none
fated i (some (st, status, n)) = some (st, told i status n)

outcome-fate : (i : ServiceInfo) (r : WaitResult) → outcome i r ≡ fated i (fate i.state r)
unfolding outcome
outcome-fate i wait_none = refl
outcome-fate i (wait_error no_child) = refl
outcome-fate i (wait_exited code) = elim (Bool-cases (nat_eqb code 0)) [
  | inl e ↦ let zero_code : code ≡ 0 = ground (arith, nat_eqb_iff code 0) in rw (e, zero_code) refl
  | inr e ↦ rw e refl
]
outcome-fate i (wait_signaled sig) =
    let same = is_finishing_user_lem i.state in
    elim (Bool-cases (user_ends i.state && nat_eqb sig 15)) [
      | inl e ↦ rw (same, e) refl
      | inr e ↦ rw (same, e) refl
    ]
outcome-fate i (wait_other status) = refl

store_self :
    (a : ℕ) (i : ServiceInfo) (h : Map ℕ ServiceInfo) → lookup a h ≡ some i → store a i h ≡ h
unfolding lookup store
store_self a i [] e = ground arith
store_self a i ((b, j) ∷ h) e = ground (arith, store_self a i h)

visit_lem :
    (w : World) (a : ℕ) (i : ServiceInfo) (s : ServiceExcutor)
    → lookup a s.heap ≡ some i
    → visit w a i s
      ≡ (record s { heap = store a (aged w i) s.heap; trace = s.trace ++ notices w i }, ends w i)
unfolding visit aged notices ends set_state send_responses
visit_lem w a i s e =
    let watched = is_watched-lives i.state in
    let over = is_gone-gone (w.wait i.pid) in
    elim (Bool-cases (lives i.state)) [
      | inl on ↦ elim (Option-cases (fate i.state (w.wait i.pid))) [
        | inl no_change ↦
            let same : outcome i (w.wait i.pid) ≡ none =
              outcome-fate i (w.wait i.pid) ∙ ap (fated i) no_change in
            ground
              (arith, watched, over, no_change, same, store_self a i s.heap e, append-nil s.trace)
        | inr ((st, status, n), change) ↦
            let same : outcome i (w.wait i.pid) ≡ some (st, told i status n) =
              outcome-fate i (w.wait i.pid) ∙ ap (fated i) change in
            ground (arith, watched, over, change, same)
      ]
      | inr off ↦ ground (arith, watched, over, store_self a i s.heap e, append-nil s.trace)
    ]

-- What one round of the pass does to the objects.
unfoldable pub age : World → ℕ → Map ℕ ServiceInfo → Map ℕ ServiceInfo
unfolding aged
age w a h = elim (lookup a h) [ none ↦ h | some i ↦ store a (aged w i) h ]

unfoldable pub age_all : World → List ℕ → Map ℕ ServiceInfo → Map ℕ ServiceInfo
unfolding age
age_all w [] h = h
age_all w (a ∷ rest) h = age_all w rest (age w a h)

unfoldable pub ends_at : World → Map ℕ ServiceInfo → ℕ → Bool
unfolding ends
ends_at w h a = elim (lookup a h) [ none ↦ false | some i ↦ ends w i ]

unfoldable pub notices_all : World → Map ℕ ServiceInfo → List ℕ → List Effect
unfolding notices
notices_all w h [] = []
notices_all w h (a ∷ rest) =
    elim (lookup a h) [ none ↦ [] | some i ↦ notices w i ] ++ notices_all w h rest

unfoldable pub positions : World → Map ℕ ServiceInfo → List ℕ → ℕ → List ℕ
unfolding ends_at
positions w h [] n = []
positions w h (a ∷ rest) n =
    if ends_at w h a then n ∷ positions w h rest (suc n) else positions w h rest (suc n)

module _ (w : World) (a : ℕ) (h : Map ℕ ServiceInfo) where
  pub lookup-age : (b : ℕ) → nat_eqb a b ≡ false → lookup b (age w a h) ≡ lookup b h
  unfolding age
  lookup-age b ne = elim (Option-cases (lookup a h)) [
    | inl e ↦ rw (e, age)
    | inr (i, e) ↦ ground (arith, lookup-store b a (aged w i) h)
  ]

  notices_all-age :
      (l : List ℕ) → contains a l ≡ false → notices_all w (age w a h) l ≡ notices_all w h l
  unfolding notices_all
  notices_all-age [] c = refl
  notices_all-age (b ∷ l) c =
      ground (arith, lookup-age b, notices_all-age l, nat_eqb_iff a b, nat_eqb_iff b a)

  positions-age :
      (l : List ℕ) (n : ℕ) → contains a l ≡ false → positions w (age w a h) l n ≡ positions w h l n
  unfolding positions ends_at
  positions-age [] n c = refl
  positions-age (b ∷ l) n c =
      ground (arith, lookup-age b, positions-age l (suc n), nat_eqb_iff a b, nat_eqb_iff b a)

abbrev pub AllLive : List ℕ → Map ℕ ServiceInfo → Type 0
AllLive l h = (a : ℕ) → contains a l ≡ true → (i : ServiceInfo) × (lookup a h ≡ some i)

age-AllLive :
    (w : World) (a : ℕ) (l : List ℕ) (h : Map ℕ ServiceInfo) → AllLive l h → AllLive l (age w a h)
unfolding age
age-AllLive w a l h live b c = elim (Bool-cases (nat_eqb a b)) [
  | inr ne ↦ ((live b c).0, lookup-age w a h b ne ∙ (live b c).1)
  | inl eq ↦
      let (i, e) = live b c in
      (aged w i, ground (arith, lookup-store b a (aged w i) h, nat_eqb_iff a b))
]

tail-AllLive : (a : ℕ) (l : List ℕ) (h : Map ℕ ServiceInfo) → AllLive (a ∷ l) h → AllLive l h
tail-AllLive a l h live b c = live b (ground arith)

pub visit-age :
    (w : World) (a : ℕ) (i : ServiceInfo) (s : ServiceExcutor)
    → lookup a s.heap ≡ some i
    → visit w a i s ≡ (record s { heap = age w a s.heap; trace = s.trace ++ notices w i }, ends w i)
unfolding age
visit-age w a i s e = ground (arith, visit_lem w a i s e)

-- The pass over distinct, live services.
pub scan_lem :
    (w : World) (l : List ℕ) (n : ℕ) (gc : List ℕ) (s : ServiceExcutor)
    → Distinct l
    → AllLive l s.heap
    → scan w l n gc s
      ≡ some (
        record s { heap = age_all w l s.heap; trace = s.trace ++ notices_all w s.heap l },
        gc ++ positions w s.heap l n,
      )
unfolding scan age_all notices_all positions ends_at
scan_lem w [] n gc s d live = ground (arith, append-nil s.trace, append-nil gc)
scan_lem w (a ∷ l) n gc s d live =
    let (i, e) = live a (ground (arith, nat_eqb_iff a a)) in
    let s' : ServiceExcutor = record s { heap = age w a s.heap; trace = s.trace ++ notices w i } in
    let gc' : List ℕ = if ends w i then gc ++ n ∷ [] else gc in
    let later = age-AllLive w a l s.heap (tail-AllLive a l s.heap live) in
    ground (
      arith,
      e,
      visit-age w a i s e,
      scan_lem w l (suc n) gc' s' d.1 later,
      notices_all-age w a s.heap l d.0,
      positions-age w a s.heap l (suc n) d.0,
      append_assoc s.trace (notices w i) (notices_all w s.heap l),
      append_assoc gc (n ∷ []) (positions w s.heap l (suc n)),
    )
