-- ===== src/Service/Collecting.antt =====
-- Freeing a service keeps the links of the others, and so does the first pass.
use service_excutor.Prelude.{
  ℕ, zero, suc, ◌≡◌, refl, true, false, ◌&&◌, not, List, [], ◌∷◌, some, Map, Text, lookup, erase,
  lookup-erase, contains, Distinct, get_elem?, erase_at, nat_eqb, nat_key, text_key, text_eqb_iff,
  inl, inr, arith, nat_eqb_iff, Bool-cases, Option-cases,
}
use service_excutor.Service.State.{ServiceInfo, World}
use service_excutor.Service.Invariant.{IsConsistent, IsConsistent-store}
use service_excutor.Service.Scanning.{aged, age, age_all, AllLive}

pub contains-get_elem? : (r : List ℕ) (n a : ℕ) → get_elem? r n ≡ some a → contains a r ≡ true
contains-get_elem? [] n a e = ground arith
contains-get_elem? (x ∷ r) zero a e = ground (arith, nat_eqb_iff x a)
contains-get_elem? (x ∷ r) (suc n) a e = ground (arith, contains-get_elem? r n a e)

contains-erase_at :
    (r : List ℕ) (n a b : ℕ)
    → Distinct r
    → get_elem? r n ≡ some a
    → contains b (erase_at r n) ≡ (not (nat_eqb a b) && contains b r)
contains-erase_at [] n a b d e = ground arith
contains-erase_at (x ∷ r) zero a b d e = elim (Bool-cases (nat_eqb a b)) [
  | inl t ↦ ground (arith, nat_eqb_iff a b)
  | inr f ↦ ground arith
]
contains-erase_at (x ∷ r) (suc n) a b d e =
    ground (arith, contains-erase_at r n a b d.1 e, contains-get_elem? r n a e)

Distinct-erase_at :
    (r : List ℕ) (n a : ℕ) → Distinct r → get_elem? r n ≡ some a → Distinct (erase_at r n)
Distinct-erase_at [] n a d e = tt
Distinct-erase_at (x ∷ r) zero a d e = d.1
Distinct-erase_at (x ∷ r) (suc n) a d e =
    (ground (arith, contains-erase_at r n a x d.1 e), Distinct-erase_at r n a d.1 e)

module _ (r : List ℕ) (sq : Map ℕ ℕ) (nm : Map Text ℕ) (h : Map ℕ ServiceInfo) where
  pub IsConsistent-erase :
      (n a : ℕ) (i : ServiceInfo)
      → IsConsistent r sq nm h
      → get_elem? r n ≡ some a
      → lookup a h ≡ some i
      → IsConsistent (erase_at r n) (erase i.label sq) (erase i.name nm) (erase a h)
  IsConsistent-erase n a i v eg eh = record {
    distinct = Distinct-erase_at r n a v.distinct eg;
    tracked = λ b hb.
        let own = v.tracked a (contains-get_elem? r n a eg) in
        let out = contains-erase_at r n a b v.distinct eg in
        let (k, ek, lk, sk, nk) = v.tracked b (ground arith) in
        (
          k,
          ground (arith, lookup-erase b a h),
          lk,
          ground (arith, lookup-erase b i.label sq),
          ground (arith, lookup-erase k.name i.name nm, text_eqb_iff i.name k.name),
        );
    by_label = λ l b hb.
        let own = v.tracked a (contains-get_elem? r n a eg) in
        let at = v.by_label l b in
        ground (arith, lookup-erase l i.label sq, contains-erase_at r n a b v.distinct eg);
    by_name = λ m b hb.
        let (c, k, ek, nk) = v.by_name m b (ground (arith, lookup-erase m i.name nm)) in
        let ne : nat_eqb a b ≡ false =
          ground (arith, lookup-erase m i.name nm, text_eqb_iff i.name m) in
        (
          ground (arith, contains-erase_at r n a b v.distinct eg),
          k,
          ground (arith, lookup-erase b a h),
          nk,
        );
  }

  IsConsistent-age : (w : World) (a : ℕ) → IsConsistent r sq nm h → IsConsistent r sq nm (age w a h)
  unfolding age
  IsConsistent-age w a v = elim (Option-cases (lookup a h)) [
    | inl e ↦ rw (e, age) v
    | inr (i, e) ↦ rw (e, age) (IsConsistent-store r sq nm h a i (aged w i) v e refl refl)
  ]

module _ (r : List ℕ) (sq : Map ℕ ℕ) (nm : Map Text ℕ) where
  pub IsConsistent-age_all :
      (w : World) (l : List ℕ) (h : Map ℕ ServiceInfo)
      → IsConsistent r sq nm h
      → IsConsistent r sq nm (age_all w l h)
  unfolding age_all
  IsConsistent-age_all w [] h v = v
  IsConsistent-age_all w (a ∷ l) h v =
      IsConsistent-age_all w l (age w a h) (IsConsistent-age r sq nm h w a v)

  pub AllLive-IsConsistent : (h : Map ℕ ServiceInfo) → IsConsistent r sq nm h → AllLive r h
  AllLive-IsConsistent h v a c = let t = v.tracked a c in (t.0, t.1)
