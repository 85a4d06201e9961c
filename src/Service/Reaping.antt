-- ===== src/Service/Reaping.antt =====
-- What `monitor_service_status` does: it takes away the service that ended and tells its clients;
-- where two ended since the last call it uses an iterator that `erase` has invalidated.
use native.Mathlib.Nat.{zero-add}
use service_excutor.Prelude.{
  ℕ, suc, ◌+◌, ◌≤◌, ◌<◌, ◌≡◌, refl, sym, List, [], ◌∷◌, ◌++◌, none, some, Map, lookup, erase,
  length, get_elem?, erase_at, nat_eqb, nat_key, text_key, inl, inr, if◌then◌else◌, arith,
  Bool-cases, Option-cases,
}
use service_excutor.Service.State.{ServiceInfo, ServiceExcutor, World}
use service_excutor.Service.Monitor.{scan, collect, collect_all, monitor_service_status}
use service_excutor.Service.Invariant.{Inv}
use service_excutor.Service.Scanning.{age_all, ends_at, positions, notices_all, scan_lem}
use service_excutor.Service.Collecting.{
  contains-get_elem?, IsConsistent-erase, IsConsistent-age_all, AllLive-IsConsistent,
}

-- How many of the services on a list are to be freed.
unfoldable pub ended : World → Map ℕ ServiceInfo → List ℕ → ℕ
unfolding ends_at
ended w h [] = 0
ended w h (a ∷ l) = if ends_at w h a then suc (ended w h l) else ended w h l

-- Those that are left.
unfoldable pub survivors : World → Map ℕ ServiceInfo → List ℕ → List ℕ
unfolding ends_at
survivors w h [] = []
survivors w h (a ∷ l) = if ends_at w h a then survivors w h l else a ∷ survivors w h l

module _ (w : World) (h : Map ℕ ServiceInfo) where
  length-positions : (l : List ℕ) (n : ℕ) → length (positions w h l n) ≡ ended w h l
  unfolding positions ended
  length-positions [] n = refl
  length-positions (a ∷ l) n = ground (arith, length-positions l (suc n))

  survivors-none : (l : List ℕ) → ended w h l ≡ 0 → survivors w h l ≡ l
  unfolding survivors ended
  survivors-none [] e = refl
  survivors-none (a ∷ l) e = ground (arith, survivors-none l)

  ended_none : (l : List ℕ) (n : ℕ) → ended w h l ≡ 0 → positions w h l n ≡ []
  unfolding positions ended
  ended_none [] n e = refl
  ended_none (a ∷ l) n e = ground (arith, ended_none l (suc n))

  -- The one position that is noted is the one of the service that ended.
  positions-one :
      (l : List ℕ) (n : ℕ)
      → ended w h l ≡ 1
      → (k a : ℕ) × (positions w h l n ≡ (n + k) ∷ [])
        × (get_elem? l k ≡ some a)
        × (k < length l)
        × (survivors w h l ≡ erase_at l k)
  unfolding positions ended survivors
  positions-one [] n e = absurd (omega arith)
  positions-one (a ∷ l) n e = elim (Bool-cases (ends_at w h a)) [
    | inl t ↦ (
      0,
      a,
      ground (arith, ended_none l (suc n)),
      refl,
      omega arith,
      ground (arith, survivors-none l),
    )
    | inr f ↦
        let (k, b, p, g, lt, s) = positions-one l (suc n) (ground arith) in
        (suc k, b, ground arith, g, omega arith, ground arith)
  ]

  positions_bound : (l : List ℕ) (n q : ℕ) (rest : List ℕ) → positions w h l n ≡ q ∷ rest → n ≤ q
  unfolding positions
  positions_bound [] n q rest e = ground arith
  positions_bound (a ∷ l) n q rest e = ground (arith, positions_bound l (suc n) q rest)

  positions_sorted :
      (l : List ℕ) (n p q : ℕ) (rest : List ℕ) → positions w h l n ≡ p ∷ q ∷ rest → p < q
  unfolding positions
  positions_sorted [] n p q rest e = ground arith
  positions_sorted (a ∷ l) n p q rest e =
      ground (arith, positions_sorted l (suc n) p q rest, positions_bound l (suc n) q rest)

two_of_length : (l : List ℕ) → 2 ≤ length l → (p q : ℕ) × (rest : List ℕ) × (l ≡ p ∷ q ∷ rest)
two_of_length [] h = absurd (omega arith)
two_of_length (p ∷ []) h = absurd (omega arith)
two_of_length (p ∷ q ∷ rest) h = (p, q, rest, refl)

collect_two :
    (bound p q : ℕ) (rest : List ℕ) (s : ServiceExcutor)
    → p < q
    → collect_all bound (p ∷ q ∷ rest) s ≡ none
unfolding collect_all
collect_two bound p q rest s lt = elim (Option-cases (collect bound p s)) [
  | inl e ↦ rw e
  | inr (t, e) ↦ rw (e, past q p t lt)
]
  where
    past : (q p : ℕ) (t : ServiceExcutor) → p < q → collect p q t ≡ none
    past q p t lt = unfold collect in ground arith

abbrev pub freed : ℕ → ℕ → ServiceInfo → ServiceExcutor → ServiceExcutor
freed k a i s = record s {
  running = erase_at s.running k;
  seq = erase i.label s.seq;
  names = erase i.name s.names;
  heap = erase a s.heap;
}

pub collect_valid :
    (bound k a : ℕ) (i : ServiceInfo) (s : ServiceExcutor)
    → k < bound
    → get_elem? s.running k ≡ some a
    → lookup a s.heap ≡ some i
    → collect bound k s ≡ some (freed k a i s)
unfolding collect
collect_valid bound k a i s lt g e = ground arith

module _ (w : World) (s : ServiceExcutor) (v : Inv s) where
  abbrev scanned : ServiceExcutor
  scanned = record s {
    heap = age_all w s.running s.heap;
    trace = s.trace ++ notices_all w s.heap s.running;
  }

  scanned_lem : scan w s.running 0 [] s ≡ some (scanned, positions w s.heap s.running 0)
  scanned_lem =
      scan_lem w s.running 0 [] s v.distinct (AllLive-IsConsistent s.running s.seq s.names s.heap v)

  scanned-Inv : Inv scanned
  scanned-Inv = IsConsistent-age_all s.running s.seq s.names w s.running s.heap v

  -- With two services that ended since the last call, the second pass dereferences an iterator
  -- that its first erasure has invalidated.
  pub monitor_two_ended : 2 ≤ ended w s.heap s.running → monitor_service_status w s ≡ none
  unfolding monitor_service_status
  monitor_two_ended h =
      let (p, q, rest, e) =
        two_of_length (positions w s.heap s.running 0)
          (omega (arith, length-positions w s.heap s.running 0)) in
      rw (scanned_lem, e)
        (collect_two _ p q rest scanned (positions_sorted w s.heap s.running 0 p q rest e))

  pub monitor_one_ended :
      ended w s.heap s.running ≤ 1
      → (t : ServiceExcutor) × (monitor_service_status w s ≡ some t)
        × Inv t
        × (t.running ≡ survivors w s.heap s.running)
        × (t.trace ≡ s.trace ++ notices_all w s.heap s.running)
  unfolding monitor_service_status collect_all
  monitor_one_ended h = elim (Bool-cases (nat_eqb (ended w s.heap s.running) 0)) [
    | inl z ↦ (
      scanned,
      rw (scanned_lem, ended_none w s.heap s.running 0 (ground arith)),
      scanned-Inv,
      sym (survivors-none w s.heap s.running (ground arith)),
      refl,
    )
    | inr nz ↦
        let (k, a, p, g, lt, sv) = positions-one w s.heap s.running 0 (ground arith) in
        let c = scanned-Inv.tracked a (contains-get_elem? s.running k a g) in
        (
          freed k a c.0 scanned,
          rw (scanned_lem, p, zero-add, collect_valid _ k a c.0 scanned lt g c.1),
          IsConsistent-erase s.running s.seq s.names scanned.heap k a c.0 scanned-Inv g c.1,
          sym sv,
          refl,
        )
  ]
