-- ===== src/Service/Invariant.antt =====
-- What links the list of running services, the two indexes and the objects, and the three ways in
-- which they change together: a write to an object, a new service, a freed one.
use service_excutor.Prelude.{
  ℕ, ◌≡◌, refl, true, false, inl, inr, List, [], ◌∷◌, ◌++◌, none, some, Text, Map, lookup, insert,
  store, lookup-insert, lookup-store, contains, contains-append, Distinct, nat_eqb, nat_key,
  text_key, text_eqb, text_eqb_iff, Bool-cases, Option-cases, arith,
}
use service_excutor.Service.State.{ServiceInfo, ServiceExcutor, empty}

pub record IsConsistent (running : List ℕ) (seq : Map ℕ ℕ) (names : Map Text ℕ)
    (heap : Map ℕ ServiceInfo) : Type 0 where
  pub distinct : Distinct running
  pub tracked :
      (a : ℕ)
      → contains a running ≡ true
      → (i : ServiceInfo) × (lookup a heap ≡ some i)
        × (i.label ≡ a)
        × (lookup a seq ≡ some a)
        × (lookup i.name names ≡ some a)
  pub by_label : (l a : ℕ) → lookup l seq ≡ some a → (a ≡ l) × (contains a running ≡ true)
  pub by_name :
      (n : Text) (a : ℕ)
      → lookup n names ≡ some a
      → (contains a running ≡ true) × (i : ServiceInfo) × (lookup a heap ≡ some i) × (i.name ≡ n)

abbrev pub Inv : ServiceExcutor → Type 0
Inv s = IsConsistent s.running s.seq s.names s.heap

pub empty-Inv : Inv empty
unfolding empty lookup
empty-Inv = record {
  distinct = tt;
  tracked = λ a h. ground arith;
  by_label = λ l a h. ground arith;
  by_name = λ n a h. ground arith;
}

module _ (r : List ℕ) (sq : Map ℕ ℕ) (nm : Map Text ℕ) (h : Map ℕ ServiceInfo) where
  -- An object that keeps its label and its name may change otherwise.
  pub IsConsistent-store :
      (a : ℕ) (i j : ServiceInfo)
      → IsConsistent r sq nm h
      → lookup a h ≡ some i
      → j.label ≡ i.label
      → j.name ≡ i.name
      → IsConsistent r sq nm (store a j h)
  IsConsistent-store a i j v e el en = record {
    distinct = v.distinct;
    tracked = λ b hb.
        let (k, ek, lk, sk, nk) = v.tracked b hb in
        elim (Bool-cases (nat_eqb a b)) [
          | inl same ↦ (j, ground (arith, lookup-store b a j h), ground arith, sk, ground arith)
          | inr other ↦ (k, ground (arith, lookup-store b a j h), lk, sk, nk)
        ];
    by_label = v.by_label;
    by_name = λ n b hb.
        let (m, k, ek, nk) = v.by_name n b hb in
        elim (Bool-cases (nat_eqb a b)) [
          | inl same ↦ (m, j, ground (arith, lookup-store b a j h), ground arith)
          | inr other ↦ (m, k, ground (arith, lookup-store b a j h), nk)
        ];
  }

  not-contains-fresh : (a : ℕ) → IsConsistent r sq nm h → lookup a h ≡ none → contains a r ≡ false
  not-contains-fresh a v e = elim (Bool-cases (contains a r)) [
    | inl t ↦ ground (arith, (v.tracked a t).1)
    | inr f ↦ f
  ]

  pub lookup-seq-fresh : (a : ℕ) → IsConsistent r sq nm h → lookup a h ≡ none → lookup a sq ≡ none
  lookup-seq-fresh a v e = elim (Option-cases (lookup a sq)) [
    | inl t ↦ t
    | inr (b, f) ↦ ground (arith, v.by_label a b f, not-contains-fresh a v e)
  ]

Distinct-snoc : (a : ℕ) (r : List ℕ) → Distinct r → contains a r ≡ false → Distinct (r ++ a ∷ [])
Distinct-snoc a [] d c = (refl, tt)
Distinct-snoc a (x ∷ r) d c = ground (arith, Distinct-snoc a r, contains-append x r (a ∷ []))

module _ (r : List ℕ) (sq : Map ℕ ℕ) (nm : Map Text ℕ) (h : Map ℕ ServiceInfo) where
  -- A service with a new address and a new name.
  pub IsConsistent-add :
      (a : ℕ) (i : ServiceInfo)
      → IsConsistent r sq nm h
      → i.label ≡ a
      → lookup a h ≡ none
      → lookup i.name nm ≡ none
      → IsConsistent (r ++ a ∷ []) (insert a a sq) (insert i.name a nm) (store a i h)
  IsConsistent-add a i v el eh en = record {
    distinct = Distinct-snoc a r v.distinct (not-contains-fresh r sq nm h a v eh);
    tracked = λ b hb. elim (Bool-cases (nat_eqb a b)) [
      | inl same ↦ (
        i,
        ground (arith, lookup-store b a i h),
        ground arith,
        ground (arith, lookup-insert b a a sq (lookup-seq-fresh r sq nm h a v eh)),
        ground (arith, lookup-insert i.name i.name a nm en, text_eqb_iff i.name i.name),
      )
      | inr other ↦
          let (k, ek, lk, sk, nk) = v.tracked b (ground (arith, contains-append b r (a ∷ []))) in
          (
            k,
            ground (arith, lookup-store b a i h),
            lk,
            ground (arith, lookup-insert b a a sq (lookup-seq-fresh r sq nm h a v eh)),
            ground (arith, lookup-insert k.name i.name a nm en, text_eqb_iff i.name k.name),
          )
    ];
    by_label = λ l b hb. ground (
      arith,
      lookup-insert l a a sq (lookup-seq-fresh r sq nm h a v eh),
      contains-append b r (a ∷ []),
      v.by_label l b,
    );
    by_name = λ n b hb. elim (Bool-cases (text_eqb i.name n)) [
      | inl same ↦ (
        ground (arith, lookup-insert n i.name a nm en, contains-append b r (a ∷ [])),
        i,
        ground (arith, lookup-insert n i.name a nm en, lookup-store b a i h),
        ground (arith, text_eqb_iff i.name n),
      )
      | inr other ↦
          let (m, k, ek, nk) = v.by_name n b (ground (arith, lookup-insert n i.name a nm en)) in
          (
            ground (arith, contains-append b r (a ∷ [])),
            k,
            ground (arith, lookup-store b a i h),
            nk,
          )
    ];
  }
