-- ===== src/Service/Dangling.antt =====
-- SACE_SERVICE_CMD_RESTART puts a service on the list of running ones, where a paused service
-- still stands. When it ends, one of the two entries is left with a pointer to a freed object.
use native.Mathlib.Nat.{zero-add}
use service_excutor.Prelude.{
  ℕ, zero, suc, ◌+◌, ◌<◌, ◌≡◌, refl, ap, ◌∙◌, Bool, true, false, List, [], ◌∷◌, ◌++◌, none, some,
  Map, lookup, lookup-erase, lookup-store, contains, contains-append, Distinct, length,
  length-append, get_elem?, erase_at, nat_eqb, nat_key, text_key, inl, inr, if◌then◌else◌, arith,
  nat_eqb_iff, Bool-cases, Option-cases, ◌>>=◌,
}
use service_excutor.Service.State.{ServiceInfo, ServiceExcutor, World}
use service_excutor.Service.Monitor.{visit, scan, collect_all, monitor_service_status}
use service_excutor.Service.Scanning.{
  lives, ends, aged, age, age_all, AllLive, ends_at, positions, notices, notices_all, scan_lem,
  visit-age, lookup-age,
}
use service_excutor.Service.Reaping.{freed, collect_valid}

-- A pass that meets a freed object has undefined behaviour.
scan_dangling :
    (w : World) (l : List ℕ) (n : ℕ) (gc : List ℕ) (s : ServiceExcutor) (a : ℕ)
    → contains a l ≡ true
    → lookup a s.heap ≡ none
    → scan w l n gc s ≡ none
unfolding scan age
scan_dangling w [] n gc s a c e = cc
scan_dangling w (b ∷ l) n gc s a c e = elim (Option-cases (lookup b s.heap)) [
  | inl m ↦ ground arith
  | inr (i, m) ↦
      let s' : ServiceExcutor = record s {
        heap = age w b s.heap;
        trace = s.trace ++ notices w i;
      } in
      let gc' : List ℕ = if ends w i then gc ++ n ∷ [] else gc in
      let ne : nat_eqb b a ≡ false = ground (arith, nat_eqb_iff b a) in
      ground (
        arith,
        visit-age w b i s m,
        scan_dangling w l (suc n) gc' s' a (ground arith) (lookup-age w b s.heap a ne ∙ e),
      )
]

pub monitor_dangling :
    (w : World) (s : ServiceExcutor) (a : ℕ)
    → contains a s.running ≡ true
    → lookup a s.heap ≡ none
    → monitor_service_status w s ≡ none
unfolding monitor_service_status
monitor_dangling w s a c e = rw (scan_dangling w s.running 0 [] s a c e)

scan-append :
    (w : World) (l r : List ℕ) (n : ℕ) (gc : List ℕ) (s : ServiceExcutor)
    → scan w (l ++ r) n gc s ≡ (scan w l n gc s >>= λ p. scan w r (n + length l) p.1 p.0)
unfolding scan
scan-append w [] r n gc s = ap (λ (k : ℕ). scan w r k gc s) (omega arith)
scan-append w (a ∷ l) r n gc s = elim (Option-cases (lookup a s.heap)) [
  | inl m ↦ ground arith
  | inr (i, m) ↦
      let v : ServiceExcutor × Bool = visit w a i s in
      ground (arith, scan-append w l r (suc n) (if v.1 then gc ++ n ∷ [] else gc) v.0)
]

lookup-age_self :
    (w : World) (a : ℕ) (i : ServiceInfo) (h : Map ℕ ServiceInfo)
    → lookup a h ≡ some i
    → lookup a (age w a h) ≡ some (aged w i)
unfolding age
lookup-age_self w a i h e =
    rw (e, age) (ground (arith, lookup-store a a (aged w i) h, nat_eqb_iff a a))

lookup-age_all_out :
    (w : World) (l : List ℕ) (a : ℕ) (h : Map ℕ ServiceInfo)
    → contains a l ≡ false
    → lookup a (age_all w l h) ≡ lookup a h
unfolding age_all
lookup-age_all_out w [] a h c = refl
lookup-age_all_out w (b ∷ l) a h c =
    lookup-age_all_out w l a (age w b h) (ground arith) ∙ lookup-age w b h a (ground arith)

lookup-age_all :
    (w : World) (l : List ℕ) (a : ℕ) (i : ServiceInfo) (h : Map ℕ ServiceInfo)
    → Distinct l
    → contains a l ≡ true
    → lookup a h ≡ some i
    → lookup a (age_all w l h) ≡ some (aged w i)
unfolding age_all
lookup-age_all w [] a i h d c e = cc
lookup-age_all w (b ∷ l) a i h d c e = elim (Bool-cases (nat_eqb b a)) [
  | inl t ↦
      let same : b ≡ a = (nat_eqb_iff b a).0 t in
      ground (arith, lookup-age_all_out w l a (age w b h), lookup-age_self w a i h e)
  | inr f ↦ lookup-age_all w l a i (age w b h) d.1 (ground arith) (lookup-age w b h a f ∙ e)
]

positions_quiet :
    (w : World) (h : Map ℕ ServiceInfo) (l : List ℕ) (n : ℕ)
    → ((b : ℕ) → contains b l ≡ true → ends_at w h b ≡ false)
    → positions w h l n ≡ []
unfolding positions
positions_quiet w h [] n quiet = refl
positions_quiet w h (b ∷ l) n quiet = ground (
  arith,
  quiet b,
  nat_eqb_iff b b,
  positions_quiet w h l (suc n) (λ x cx. quiet x (ground arith)),
)

-- Where one service alone ends, its position alone is noted.
positions_only :
    (w : World) (h : Map ℕ ServiceInfo) (l : List ℕ) (n a : ℕ)
    → Distinct l
    → contains a l ≡ true
    → ends_at w h a ≡ true
    → ((b : ℕ) → contains b l ≡ true → nat_eqb a b ≡ false → ends_at w h b ≡ false)
    → (k : ℕ) × (positions w h l n ≡ (n + k) ∷ []) × (get_elem? l k ≡ some a) × (k < length l)
unfolding positions
positions_only w h [] n a d c e only = cc
positions_only w h (b ∷ l) n a d c e only = elim (Bool-cases (nat_eqb a b)) [
  | inl t ↦ (
    0,
    ground (
      arith,
      nat_eqb_iff a b,
      positions_quiet w h l (suc n)
          (λ x cx. only x (ground arith) (ground (arith, nat_eqb_iff a b, nat_eqb_iff a x))),
    ),
    ground (arith, nat_eqb_iff a b),
    omega arith,
  )
  | inr f ↦
      let (k, p, g, lt) =
        positions_only w h l (suc n) a d.1 (ground (arith, nat_eqb_iff a b, nat_eqb_iff b a)) e
          (λ x cx. only x (ground arith)) in
      (suc k, ground (arith, only b, nat_eqb_iff b b), g, omega arith)
]

-- `erase` takes one of the two entries.
contains-erase_twice :
    (l : List ℕ) (k a : ℕ) → k < length l → contains a (erase_at (l ++ a ∷ []) k) ≡ true
contains-erase_twice [] k a lt = absurd (omega arith)
contains-erase_twice (x ∷ l) zero a lt =
    ground (arith, contains-append a l (a ∷ []), nat_eqb_iff a a)
contains-erase_twice (x ∷ l) (suc k) a lt = ground (arith, contains-erase_twice l k a)

get_elem?-append : (l r : List ℕ) (k a : ℕ) → get_elem? l k ≡ some a → get_elem? (l ++ r) k ≡ some a
get_elem?-append [] r k a e = cc
get_elem?-append (x ∷ l) r zero a e = e
get_elem?-append (x ∷ l) r (suc k) a e = get_elem?-append l r k a e

-- A list of running services with one of them twice, as a restart leaves it.
module _ (w : World) (s : ServiceExcutor) (r : List ℕ) (a : ℕ) (i : ServiceInfo)
    (running : s.running ≡ r ++ a ∷ []) (distinct : Distinct r) (live : AllLive r s.heap)
    (twice : contains a r ≡ true) (found : lookup a s.heap ≡ some i) (ended : ends w i ≡ true)
    (done : lives (aged w i).state ≡ false)
    (only : (b : ℕ) → contains b r ≡ true → nat_eqb a b ≡ false → ends_at w s.heap b ≡ false) where
  abbrev passed : ServiceExcutor
  passed = record s { heap = age_all w r s.heap; trace = s.trace ++ notices_all w s.heap r }

  scan_twice : scan w s.running 0 [] s ≡ some (passed, positions w s.heap r 0)
  unfolding scan visit
  scan_twice =
      ap (λ (l : List ℕ). scan w l 0 [] s) running
      ∙ scan-append w r (a ∷ []) 0 [] s
      ∙ ground (
        arith,
        scan_lem w r 0 [] s distinct live,
        lookup-age_all w r a i s.heap distinct twice found,
        done,
      )

  -- The pass frees the service and leaves the second entry.
  pub monitor_twice :
      (t : ServiceExcutor) × (monitor_service_status w s ≡ some t)
      × (contains a t.running ≡ true)
      × (lookup a t.heap ≡ none)
  unfolding monitor_service_status collect_all ends_at
  monitor_twice =
      let (k, p, g, lt) = positions_only w s.heap r 0 a distinct twice (ground arith) only in
      let h = lookup-age_all w r a i s.heap distinct twice found in
      let at : get_elem? s.running k ≡ some a = ground (arith, get_elem?-append r (a ∷ []) k a g) in
      let inside : k < length s.running =
        omega (arith, ap length running, length-append r (a ∷ [])) in
      (
        freed k a (aged w i) passed,
        rw (scan_twice, p, zero-add, collect_valid _ k a (aged w i) passed inside at h),
        ground (arith, contains-erase_twice r k a lt, running),
        ground (arith, lookup-erase a a passed.heap, nat_eqb_iff a a),
      )
