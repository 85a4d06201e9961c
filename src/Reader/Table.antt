-- ===== src/Reader/Table.antt =====
-- The table of clients over a round: the slots are `max_client_num`, no descriptor is in two slots,
-- and those in slots are open.
use service_excutor.Prelude.{
  ℕ, ◌≡◌, refl, Bool, true, false, ◌&&◌, ◌||◌, not, List, [], ◌∷◌, Option, none, some, contains,
  nat_eqb, nat_key, if◌then◌else◌, length, arith, nat_eqb_iff,
}
use service_excutor.Reader.Sockets.{max_client_num, without, place_client, drop_unknown}

-- A slot that has the descriptor.
unfoldable pub holds : ℕ → List (Option ℕ) → Bool
holds fd [] = false
holds fd (none ∷ cs) = holds fd cs
holds fd (some x ∷ cs) = nat_eqb x fd || holds fd cs

unfoldable pub distinct : List (Option ℕ) → Bool
distinct [] = true
distinct (none ∷ cs) = distinct cs
distinct (some x ∷ cs) = not (holds x cs) && distinct cs

unfoldable pub all_open : List (Option ℕ) → List ℕ → Bool
all_open [] open_fds = true
all_open (none ∷ cs) open_fds = all_open cs open_fds
all_open (some x ∷ cs) open_fds = contains x open_fds && all_open cs open_fds

unfoldable pub is_full : List (Option ℕ) → Bool
is_full [] = true
is_full (none ∷ cs) = false
is_full (some x ∷ cs) = is_full cs

pub record IsTable (clients : List (Option ℕ)) (open_fds : List ℕ) : Type 0 where
  pub size : length clients ≡ max_client_num
  pub apart : distinct clients ≡ true
  pub known : all_open clients open_fds ≡ true

pub contains-without :
    (x fd : ℕ) (l : List ℕ)
    → contains x (without fd l) ≡ (if nat_eqb x fd then false else contains x l)
unfolding without
contains-without x fd [] = ground arith
contains-without x fd (y ∷ l) = ground (arith, contains-without x fd l)

pub all_open-without :
    (fd : ℕ) (cs : List (Option ℕ)) (l : List ℕ)
    → holds fd cs ≡ false
    → all_open cs l ≡ true
    → all_open cs (without fd l) ≡ true
unfolding holds all_open
all_open-without fd [] l h a = refl
all_open-without fd (none ∷ cs) l h a = all_open-without fd cs l h a
all_open-without fd (some x ∷ cs) l h a =
    ground (arith, all_open-without fd cs l, contains-without x fd l)

pub all_open-cons :
    (fd : ℕ) (cs : List (Option ℕ)) (l : List ℕ)
    → all_open cs l ≡ true
    → all_open cs (fd ∷ l) ≡ true
unfolding all_open
all_open-cons fd [] l a = refl
all_open-cons fd (none ∷ cs) l a = all_open-cons fd cs l a
all_open-cons fd (some x ∷ cs) l a = ground (arith, all_open-cons fd cs l)

pub length-place_client : (fd : ℕ) (cs : List (Option ℕ)) → length (place_client fd cs) ≡ length cs
unfolding place_client
length-place_client fd [] = refl
length-place_client fd (none ∷ cs) = refl
length-place_client fd (some x ∷ cs) = ground (arith, length-place_client fd cs)

pub holds-place_client :
    (x fd : ℕ) (cs : List (Option ℕ))
    → nat_eqb fd x ≡ false
    → holds x (place_client fd cs) ≡ holds x cs
unfolding place_client holds
holds-place_client x fd [] n = refl
holds-place_client x fd (none ∷ cs) n = ground (arith)
holds-place_client x fd (some y ∷ cs) n = ground (arith, holds-place_client x fd cs n)

pub distinct-place_client :
    (fd : ℕ) (cs : List (Option ℕ))
    → holds fd cs ≡ false
    → distinct cs ≡ true
    → distinct (place_client fd cs) ≡ true
unfolding place_client holds distinct
distinct-place_client fd [] n d = refl
distinct-place_client fd (none ∷ cs) n d = ground (arith)
distinct-place_client fd (some y ∷ cs) n d = ground (
  arith,
  distinct-place_client fd cs,
  holds-place_client y fd cs,
  nat_eqb_iff y fd,
  nat_eqb_iff fd y,
)

pub all_open-place_client :
    (fd : ℕ) (cs : List (Option ℕ)) (l : List ℕ)
    → contains fd l ≡ true
    → all_open cs l ≡ true
    → all_open (place_client fd cs) l ≡ true
unfolding place_client all_open
all_open-place_client fd [] l n d = refl
all_open-place_client fd (none ∷ cs) l n d = ground (arith)
all_open-place_client fd (some y ∷ cs) l n d = ground (arith, all_open-place_client fd cs l)

-- After `select` failed: no slot gets a descriptor.
pub length-drop_unknown :
    (u : ℕ → Bool) (cs : List (Option ℕ)) → length (drop_unknown u cs) ≡ length cs
unfolding drop_unknown
length-drop_unknown u [] = refl
length-drop_unknown u (none ∷ cs) = ground (arith, length-drop_unknown u cs)
length-drop_unknown u (some x ∷ cs) = ground (arith, length-drop_unknown u cs)

pub holds-drop_unknown :
    (x : ℕ) (u : ℕ → Bool) (cs : List (Option ℕ))
    → holds x cs ≡ false
    → holds x (drop_unknown u cs) ≡ false
unfolding drop_unknown holds
holds-drop_unknown x u [] n = refl
holds-drop_unknown x u (none ∷ cs) n = holds-drop_unknown x u cs n
holds-drop_unknown x u (some y ∷ cs) n = ground (arith, holds-drop_unknown x u cs)

pub distinct-drop_unknown :
    (u : ℕ → Bool) (cs : List (Option ℕ)) → distinct cs ≡ true → distinct (drop_unknown u cs) ≡ true
unfolding drop_unknown distinct
distinct-drop_unknown u [] n = refl
distinct-drop_unknown u (none ∷ cs) n = distinct-drop_unknown u cs n
distinct-drop_unknown u (some y ∷ cs) n =
    ground (arith, distinct-drop_unknown u cs, holds-drop_unknown y u cs)

pub all_open-drop_unknown :
    (u : ℕ → Bool) (cs : List (Option ℕ)) (l : List ℕ)
    → all_open cs l ≡ true
    → all_open (drop_unknown u cs) l ≡ true
unfolding drop_unknown all_open
all_open-drop_unknown u [] l n = refl
all_open-drop_unknown u (none ∷ cs) l n = all_open-drop_unknown u cs l n
all_open-drop_unknown u (some y ∷ cs) l n = ground (arith, all_open-drop_unknown u cs l)

-- A descriptor that is not open is in no slot.
pub holds_of_closed :
    (fd : ℕ) (cs : List (Option ℕ)) (l : List ℕ)
    → contains fd l ≡ false
    → all_open cs l ≡ true
    → holds fd cs ≡ false
unfolding holds all_open
holds_of_closed fd [] l h a = refl
holds_of_closed fd (none ∷ cs) l h a = holds_of_closed fd cs l h a
holds_of_closed fd (some x ∷ cs) l h a = ground (arith, holds_of_closed fd cs l h, nat_eqb_iff x fd)
