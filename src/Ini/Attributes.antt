-- ===== src/Ini/Attributes.antt =====
-- `parse_service_attr` of saced/SaceEvent.cpp: a line that describes an event's service. The
-- extraction of words and numbers from a `stringstream` is a parameter.
use service_excutor.Prelude.{
  ℕ, zero, suc, ◌≡◌, refl, Bool, true, false, ◌&&◌, List, [], ◌∷◌, ◌++◌, Option, none, some, Text,
  codes, Map, lookup, text_key, text_eqb, nat_eqb, All, if◌then◌else◌, arith,
}
use service_excutor.Types.{SaceCommandParams, SaceEventParams}
use service_excutor.Params.Parsing.{add_property}

-- `words` are what successive `>>` give; `good` is the stream's state after the first; `limit` is
-- the name and the numbers of `>>rlm_name>>rlm_hard>>rlm_soft`; `limit_text` is what `add_rlimits`
-- stores.
pub record Stream : Type 0 where
  pub words : Text → List Text
  pub good : Text → Bool
  pub limit : Text → Option (Text × ℕ × ℕ)
  pub limit_text : Option ℕ → ℕ → ℕ → Text

-- `find` and `substr`: what stands before the first such character, and from it on.
unfoldable pub split_at : ℕ → Text → Option (Text × Text)
split_at k [] = none
split_at k (c ∷ s) =
    if nat_eqb c k
    then some ([], c ∷ s)
    else elim (split_at k s) [ none ↦ none | some (b, r) ↦ some (c ∷ b, r) ]

-- `!strncmp(str_value.data(), prefix, strlen(prefix))`
unfoldable pub has_prefix : Text → Text → Bool
has_prefix [] s = true
has_prefix (c ∷ p) [] = false
has_prefix (c ∷ p) (d ∷ s) = nat_eqb c d && has_prefix p s

-- `capabilities[cap] = true` where `cap` is in range.
unfoldable pub set_bit : ℕ → List Bool → List Bool
set_bit n [] = []
set_bit zero (b ∷ bs) = true ∷ bs
set_bit (suc n) (b ∷ bs) = b ∷ set_bit n bs

-- The number of the name in `cap_map`, or nothing for -1.
unfoldable pub parse_capability_name : Map Text ℕ → Text → Option ℕ
parse_capability_name cap_map s = lookup s cap_map

-- The same in `rlimit_map`.
unfoldable pub parse_rlimits_name : Map Text ℕ → Text → Option ℕ
parse_rlimits_name rlimit_map s = lookup s rlimit_map

-- The loop of "capability"; an unknown name is -1, which is out of range.
unfoldable pub add_capabilities : Map Text ℕ → List Text → List Bool → List Bool
add_capabilities m [] bs = bs
add_capabilities m (s ∷ ss) bs = elim (parse_capability_name m s) [
  | none ↦ add_capabilities m ss bs
  | some n ↦ add_capabilities m ss (set_bit n bs)
]

abbrev with_base : SaceEventParams → SaceCommandParams → SaceEventParams
with_base p b = record p { base = b }

-- The colon and the equal sign are the first characters of what is stored.
unfoldable pub property_attr : Text → SaceEventParams → SaceEventParams
property_attr s p = elim (split_at 58 s) [
  | none ↦ p
  | some (b, from_colon) ↦ elim (split_at 61 from_colon) [
    | none ↦ p
    | some (name, value) ↦ add_property name value p
  ]
]

unfoldable pub trigger_attr : Text → SaceEventParams → SaceEventParams
trigger_attr s p =
    if has_prefix (codes "property") s
    then property_attr s p
    else if has_prefix (codes "boot") s
    then record p { boot = true }
    else p

-- An attribute that has one word as its value.
unfoldable pub one_word : List Text → (Text → SaceEventParams) → SaceEventParams → SaceEventParams
one_word [] set p = p
one_word (s ∷ ss) set p = set s

unfoldable pub limit_attr : Stream → Map Text ℕ → Text → SaceEventParams → SaceEventParams
limit_attr y m line p = elim (y.limit line) [
  | none ↦ p
  | some (name, hard, soft) ↦ with_base p (record p.base {
    rlimits = p.base.rlimits ++ y.limit_text (parse_rlimits_name m name) hard soft ∷ [];
  })
]

-- The chain on the tag, with the words after it.
unfoldable pub tag_attr :
    Stream
    → (caps limits : Map Text ℕ) → Text
    → Text
    → List Text
    → SaceEventParams
    → SaceEventParams
tag_attr y caps limits line tag ss p =
    if text_eqb tag (codes "user")
    then one_word ss (λ s. with_base p (record p.base { uid = s })) p
    else if text_eqb tag (codes "group")
    then one_word ss (λ s. with_base p (record p.base { gid = s })) p
    else if text_eqb tag (codes "seclabel")
    then one_word ss (λ s. with_base p (record p.base { seclabel = s })) p
    else if text_eqb tag (codes "capability")
    then with_base p (record p.base { capabilities = add_capabilities caps ss p.base.capabilities })
    else if text_eqb tag (codes "groups")
    then with_base p (record p.base { supp_gids = p.base.supp_gids ++ ss })
    else if text_eqb tag (codes "trigger")
    then one_word ss (λ s. trigger_attr s p) p
    else if text_eqb tag (codes "rlimits")
    then limit_attr y limits line p
    else p

-- A line that ends with its tag is ignored.
unfoldable pub parse_service_attr :
    Stream → (caps limits : Map Text ℕ) → Text → SaceEventParams → SaceEventParams
parse_service_attr y caps limits line p =
    if y.good line
    then (elim (y.words line) [ [] ↦ p | tag ∷ ss ↦ tag_attr y caps limits line tag ss p ])
    else p

split_lem :
    (k : ℕ) (b r : Text)
    → All (λ c. nat_eqb c k ≡ false) b
    → nat_eqb k k ≡ true
    → split_at k (b ++ k ∷ r) ≡ some (b, k ∷ r)
unfolding split_at
split_lem k [] r a e = ground (arith, e)
split_lem k (c ∷ b) r (n, a) e = ground (arith, split_lem k b r a e)

property_at :
    (s before from_colon name value : Text) (p : SaceEventParams)
    → split_at 58 s ≡ some (before, from_colon)
    → split_at 61 from_colon ≡ some (name, value)
    → property_attr s p ≡ add_property name value p
unfolding property_attr
property_at s before from_colon name value p colon equal = ground arith

property_lem :
    (name value : Text) (p : SaceEventParams)
    → All (λ c. nat_eqb c 61 ≡ false) name
    → property_attr (codes "property" ++ 58 ∷ (name ++ 61 ∷ value)) p
      ≡ add_property (58 ∷ name) (61 ∷ value) p
property_lem name value p a =
    let colon =
      split_lem 58 (codes "property") (name ++ 61 ∷ value)
        (refl, (refl, (refl, (refl, (refl, (refl, (refl, (refl, tt)))))))) refl in
    let equal = split_lem 61 (58 ∷ name) value (refl, a) refl in
    property_at (codes "property" ++ 58 ∷ (name ++ 61 ∷ value)) (codes "property")
      (58 ∷ (name ++ 61 ∷ value)) (58 ∷ name) (61 ∷ value) p colon equal

-- A trigger line for a property, whose name has no equal sign: the parameters get the name with
-- the colon before it and the value with the equal sign before it.
pub parse_service_attr-property :
    (y : Stream) (caps limits : Map Text ℕ) (line name value : Text) (p : SaceEventParams)
    → y.good line ≡ true
    → y.words line ≡ codes "trigger" ∷ (codes "property" ++ 58 ∷ (name ++ 61 ∷ value)) ∷ []
    → All (λ c. nat_eqb c 61 ≡ false) name
    → parse_service_attr y caps limits line p ≡ add_property (58 ∷ name) (61 ∷ value) p
unfolding parse_service_attr tag_attr one_word trigger_attr has_prefix text_eqb
parse_service_attr-property y caps limits line name value p g w a =
    rw (g, w) (property_lem name value p a)
