-- ===== src/Prelude/Maps.antt =====
-- `std::map`: entries in the order of their keys. `insert` keeps an entry that is there, as
-- `std::map::insert` does; `store` is a write through a pointer or `m[k] = v`.
use mathlib.Core.Path.{◌≡◌, refl}
use mathlib.Core.Bool.{Bool, true, false, ◌||◌}
use mathlib.Core.Option.{Option, none, some}
use mathlib.Core.List.{List, [], ◌∷◌}
use native.Mathlib.Omega.{arith}
use mathlib.Core.Logic.{inl, inr}
use service_excutor.Prelude.Tests.{Key, ◌==◌, if◌then◌else◌, Bool-cases}

abbrev pub Map : Type 0 → Type 0 → Type 0
Map K V = List (K × V)

module _ {K V : Type 0} ⦃e : Key K⦄ where
  unfoldable pub lookup : K → Map K V → Option V
  lookup k [] = none
  lookup k ((j, v) ∷ m) = if j == k then some v else lookup k m

  unfoldable pub has : K → Map K V → Bool
  has k [] = false
  has k ((j, v) ∷ m) = (j == k) || has k m

  -- Before the first entry with a greater key.
  unfoldable pub place : K → V → Map K V → Map K V
  place k v [] = (k, v) ∷ []
  place k v ((j, w) ∷ m) = if e.less k j then (k, v) ∷ (j, w) ∷ m else (j, w) ∷ place k v m

  unfoldable pub insert : K → V → Map K V → Map K V
  unfolding has place
  insert k v m = if has k m then m else place k v m

  unfoldable pub erase : K → Map K V → Map K V
  erase k [] = []
  erase k ((j, v) ∷ m) = if j == k then erase k m else (j, v) ∷ erase k m

  unfoldable pub store : K → V → Map K V → Map K V
  store k v [] = (k, v) ∷ []
  store k v ((j, w) ∷ m) = if j == k then (j, v) ∷ m else (j, w) ∷ store k v m

  pub has-lookup : (k : K) (m : Map K V) → has k m ≡ false → lookup k m ≡ none
  unfolding lookup has
  has-lookup k [] h = refl
  has-lookup k ((j, v) ∷ m) h = ground (arith, has-lookup k m)

  pub lookup-has : (k : K) (m : Map K V) → lookup k m ≡ none → has k m ≡ false
  unfolding lookup has
  lookup-has k [] h = refl
  lookup-has k ((j, v) ∷ m) h = ground (arith, lookup-has k m)

  pub has_of_lookup : (k : K) (v : V) (m : Map K V) → lookup k m ≡ some v → has k m ≡ true
  unfolding lookup has
  has_of_lookup k v [] h = ground arith
  has_of_lookup k v ((j, w) ∷ m) h = ground (arith, has_of_lookup k v m)

  lookup-place :
      (j k : K) (v : V) (m : Map K V)
      → lookup k m ≡ none
      → lookup j (place k v m) ≡ (if k == j then some v else lookup j m)
  unfolding lookup place
  lookup-place j k v [] h = refl
  lookup-place j k v ((i, w) ∷ m) h =
      ground (arith, e.beq_iff i k, e.beq_iff i j, e.beq_iff k j, lookup-place j k v m)

  -- A key that is new is added, and the others keep their values.
  pub lookup-insert :
      (j k : K) (v : V) (m : Map K V)
      → lookup k m ≡ none
      → lookup j (insert k v m) ≡ (if k == j then some v else lookup j m)
  unfolding insert
  lookup-insert j k v m h = ground (arith, lookup-has k m h, lookup-place j k v m h)

  pub lookup-erase :
      (j k : K) (m : Map K V) → lookup j (erase k m) ≡ (if k == j then none else lookup j m)
  unfolding lookup erase
  lookup-erase j k [] = ground arith
  lookup-erase j k ((i, w) ∷ m) =
      ground (arith, e.beq_iff i k, e.beq_iff i j, e.beq_iff k j, lookup-erase j k m)

  pub lookup-store :
      (j k : K) (v : V) (m : Map K V)
      → lookup j (store k v m) ≡ (if k == j then some v else lookup j m)
  unfolding lookup store
  lookup-store j k v [] = refl
  lookup-store j k v ((i, w) ∷ m) =
      ground (arith, e.beq_iff i k, e.beq_iff i j, e.beq_iff k j, lookup-store j k v m)

  has-place : (j k : K) (v : V) (m : Map K V) → has j (place k v m) ≡ ((k == j) || has j m)
  unfolding has place
  has-place j k v [] = refl
  has-place j k v ((i, w) ∷ m) = ground (arith, has-place j k v m)

  -- `insert` adds its key, if it is new, and takes none away.
  pub has-insert : (j k : K) (v : V) (m : Map K V) → has j (insert k v m) ≡ ((k == j) || has j m)
  unfolding insert
  has-insert j k v m =
      ground (arith, has-place j k v m, e.beq_iff k j, Bool-cases (has k m), Bool-cases (k == j))

  pub has-erase : (j k : K) (m : Map K V) → has j (erase k m) ≡ (if k == j then false else has j m)
  unfolding has erase
  has-erase j k [] = ground arith
  has-erase j k ((i, w) ∷ m) =
      ground (arith, e.beq_iff i k, e.beq_iff i j, e.beq_iff k j, has-erase j k m)

  erase-none : (k : K) (m : Map K V) → lookup k m ≡ none → erase k m ≡ m
  unfolding lookup erase
  erase-none k [] h = refl
  erase-none k ((j, w) ∷ m) h = ground (arith, erase-none k m)

  erase-place : (k : K) (v : V) (m : Map K V) → lookup k m ≡ none → erase k (place k v m) ≡ m
  unfolding lookup erase place
  erase-place k v [] h = ground (arith, e.beq_iff k k)
  erase-place k v ((j, w) ∷ m) h = ground (arith, e.beq_iff k k, erase-place k v m, erase-none k m)

  -- What is inserted under a new key and erased is as it was.
  pub erase-insert : (k : K) (v : V) (m : Map K V) → lookup k m ≡ none → erase k (insert k v m) ≡ m
  unfolding insert
  erase-insert k v m h = ground (arith, lookup-has k m h, erase-place k v m h)

  -- A property of every entry.
  abbrev pub Entries {κ} : (K → V → Type κ) → Map K V → Type κ
  Entries P [] = Unit
  Entries P ((k, v) ∷ m) = P k v × Entries P m

  place-Entries {κ} :
      (P : K → V → Type κ) (k : K) (v : V) (m : Map K V)
      → P k v
      → Entries P m
      → Entries P (place k v m)
  unfolding place
  place-Entries P k v [] p a = (p, tt)
  place-Entries P k v ((j, w) ∷ m) p (q, a) = elim (Bool-cases (e.less k j)) [
    | inl l ↦ rw l (p, (q, a))
    | inr l ↦ rw l (q, place-Entries P k v m p a)
  ]

  pub insert-Entries {κ} :
      (P : K → V → Type κ) (k : K) (v : V) (m : Map K V)
      → P k v
      → Entries P m
      → Entries P (insert k v m)
  unfolding insert
  insert-Entries P k v m p a = elim (Bool-cases (has k m)) [
    | inl h ↦ rw h a
    | inr h ↦ rw h (place-Entries P k v m p a)
  ]

  pub erase-Entries {κ} :
      (P : K → V → Type κ) (k : K) (m : Map K V) → Entries P m → Entries P (erase k m)
  unfolding erase
  erase-Entries P k [] a = tt
  erase-Entries P k ((j, w) ∷ m) (q, a) = elim (Bool-cases (j == k)) [
    | inl h ↦ rw h (erase-Entries P k m a)
    | inr h ↦ rw h (q, erase-Entries P k m a)
  ]

  pub Entries-map {κ ℓ} :
      (P : K → V → Type κ) (Q : K → V → Type ℓ)
      → ((k : K) (v : V) → P k v → Q k v)
      → (m : Map K V) → Entries P m
      → Entries Q m
  Entries-map P Q f [] a = tt
  Entries-map P Q f ((k, v) ∷ m) (p, a) = (f k v p, Entries-map P Q f m a)
