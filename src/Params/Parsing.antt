-- ===== src/Params/Parsing.antt =====
-- `SaceCommandParams::parseCommandParams` with `decode_uid`, `add_rlimits`, and
-- `SaceEventParams::parseEventParams`. The password file and the C library are parameters.
use service_excutor.Prelude.{
  ℕ, suc, ◌+◌, ◌*◌, ◌%◌, ◌^◌, ◌≡◌, refl, Bool, true, false, List, [], ◌∷◌, ◌++◌, Option, none, some,
  Text, length, if◌then◌else◌, arith, append_assoc, append-nil, not, map, sym, ◌∙◌,
}
use service_excutor.Types.{SaceCommandParams, SaceEventParams}
use service_excutor.Params.Triggers.{PropertyTrigger, BootTrigger, property_trigger}

pub record Limit : Type 0 where
  pub resource : ℕ
  pub rlim_cur : ℕ
  pub rlim_max : ℕ

-- A group that was never assigned is `none`.
pub record CommandParams : Type 0 where
  pub uid : ℕ
  pub gid : ℕ
  pub supp_gids : List (Option ℕ)
  pub rlimits : List Limit
  pub seclabel : Text
  pub capabilities : List Bool

-- `strtoul` gives its value and whether it set `errno`; `read_limit` is the three `>>` of a
-- `stringstream`, which leave what they do not read as it was.
pub record Library : Type 0 where
  pub isalpha : ℕ → Bool
  pub getpwnam : Text → Option ℕ
  pub strtoul : Text → ℕ × Bool
  pub read_limit : Limit → Text → Limit
  pub aid_system : ℕ
  pub unread : Limit

-- `decode_uid`: its answer, and `*uid` after the call if it was written.
unfoldable pub decode_uid : Library → Text → Bool × Option ℕ
decode_uid y [] = (false, none)
decode_uid y (c ∷ s) =
    if y.isalpha c
    then elim (y.getpwnam (c ∷ s)) [ none ↦ (false, none) | some u ↦ (true, some u) ]
    else let (u, errno) = y.strtoul (c ∷ s) in (not errno, some (u % 2 ^ 32))

abbrev or_default : Library → Bool × Option ℕ → ℕ
or_default y (true, some u) = u
or_default y (true, none) = y.aid_system
or_default y (false, u) = y.aid_system

abbrev or_old : Option ℕ → Option ℕ → Option ℕ
or_old none old = old
or_old (some u) old = some u

-- The loop over the groups, with `supp_gid`, which starts without a value.
unfoldable pub parse_groups : Library → Option ℕ → List Text → List (Option ℕ)
parse_groups y supp_gid [] = []
parse_groups y supp_gid (g ∷ gs) =
    let (ok, u) = decode_uid y g in
    let supp_gid' = or_old u supp_gid in
    let rest = parse_groups y supp_gid' gs in if not ok then supp_gid' ∷ rest else rest

-- The loop over the limits, with the variables that the stream writes.
unfoldable pub parse_limits : Library → Limit → List Text → List Limit
parse_limits y last [] = []
parse_limits y last (s ∷ ss) = let limit = y.read_limit last s in limit ∷ parse_limits y limit ss

unfoldable pub parse_command_params : Library → SaceCommandParams → CommandParams
unfolding decode_uid parse_groups parse_limits
parse_command_params y p = record {
  uid = or_default y (decode_uid y p.uid);
  gid = or_default y (decode_uid y p.gid);
  supp_gids = parse_groups y none p.supp_gids;
  rlimits = parse_limits y y.unread p.rlimits;
  seclabel = p.seclabel;
  capabilities = p.capabilities;
}

pub data Trigger : Type 0 where
  on_property : PropertyTrigger → Trigger
  on_boot : BootTrigger → Trigger

-- The loop over `property_key`; a value that is missing is read past the end of its vector.
unfoldable pub property_triggers : List Text → List Text → Option (List Trigger)
unfolding property_trigger
property_triggers [] vs = some []
property_triggers (k ∷ ks) [] = none
property_triggers (k ∷ ks) (v ∷ vs) = elim (property_triggers ks vs) [
  | none ↦ none
  | some ts ↦ some (on_property (property_trigger k v) ∷ ts)
]

unfoldable pub parse_event_params : SaceEventParams → Option (List Trigger)
unfolding property_triggers
parse_event_params p = elim (property_triggers p.property_key p.property_value) [
  | none ↦ none
  | some ts ↦ some (if p.boot then ts ++ on_boot (record { has_triggered = false }) ∷ [] else ts)
]

unfoldable pub add_property : Text → Text → SaceEventParams → SaceEventParams
add_property name value p = record p {
  property_key = p.property_key ++ name ∷ [];
  property_value = p.property_value ++ value ∷ [];
}

-- `in_stream<<rlimit<<soft<<hard`, for numbers that are not negative.
unfoldable pub limit_text : (ℕ → Text) → ℕ → ℕ → ℕ → Text
limit_text show rlimit soft hard = show rlimit ++ (show soft ++ show hard)

-- How many of the groups cannot be decoded.
unfoldable pub undecoded : Library → List Text → ℕ
undecoded y [] = 0
undecoded y (g ∷ gs) = let rest = undecoded y gs in if (decode_uid y g).0 then rest else suc rest

groups_lem :
    (y : Library) (old : Option ℕ) (gs : List Text)
    → length (parse_groups y old gs) ≡ undecoded y gs
unfolding parse_groups undecoded
groups_lem y old [] = refl
groups_lem y old (g ∷ gs) = ground (arith, groups_lem y (or_old (decode_uid y g).1 old) gs)

-- The test on a group is the wrong way round: the parameters get one entry for each group that
-- cannot be decoded, and none for one that can.
pub parse-undecoded :
    (y : Library) (p : SaceCommandParams)
    → length (parse_command_params y p).supp_gids ≡ undecoded y p.supp_gids
unfolding parse_command_params
parse-undecoded y p = groups_lem y none p.supp_gids

-- The parameters after `add_property` for each pair, the first one first.
unfoldable pub add_properties : List (Text × Text) → SaceEventParams → SaceEventParams
unfolding add_property
add_properties [] p = p
add_properties ((k, v) ∷ ps) p = add_properties ps (add_property k v p)

abbrev pub trigger_for : Text × Text → Trigger
trigger_for (k, v) = on_property (property_trigger k v)

abbrev first : Text × Text → Text
first (k, v) = k

abbrev second : Text × Text → Text
second (k, v) = v

triggers_lem :
    (ps : List (Text × Text))
    → property_triggers (map first ps) (map second ps) ≡ some (map trigger_for ps)
unfolding property_triggers
triggers_lem [] = refl
triggers_lem ((k, v) ∷ ps) = ground (arith, triggers_lem ps)

abbrev Added : List (Text × Text) → SaceEventParams → SaceEventParams → Type 0
Added ps p q =
    (q.property_key ≡ p.property_key ++ map first ps)
    × (q.property_value ≡ p.property_value ++ map second ps)
    × (q.boot ≡ p.boot)

added_lem : (ps : List (Text × Text)) (p : SaceEventParams) → Added ps p (add_properties ps p)
unfolding add_properties add_property
added_lem [] p = (sym (append-nil p.property_key), sym (append-nil p.property_value), refl)
added_lem ((k, v) ∷ ps) p =
    let (ks, vs, b) = added_lem ps (add_property k v p) in
    (
      ks ∙ append_assoc p.property_key (k ∷ []) (map first ps),
      vs ∙ append_assoc p.property_value (v ∷ []) (map second ps),
      b,
    )

-- A client's properties become triggers in the order in which they were added, with the boot
-- trigger last, if the parameters began without properties.
pub parse-add_properties :
    (ps : List (Text × Text)) (p : SaceEventParams)
    → p.property_key ≡ []
    → p.property_value ≡ []
    → parse_event_params (add_properties ps p)
      ≡ some (
          map trigger_for ps
          ++ (if p.boot then on_boot (record { has_triggered = false }) ∷ [] else []))
unfolding parse_event_params
parse-add_properties ps p nk nv =
    let (ks, vs, b) = added_lem ps p in
    ground (arith, ks, vs, b, triggers_lem ps, append-nil (map trigger_for ps))

-- With numbers printed in decimal, so that the digits of a number follow each other, a limit whose
-- soft value begins with a digit has the same text as the one where that digit ends the resource:
-- what `add_rlimits` stores does not say where a number ends.
pub limit_text_collides :
    (show : ℕ → Text) (r d e hard : ℕ)
    → show (10 * d + e) ≡ show d ++ show e
    → show (10 * r + d) ≡ show r ++ show d
    → limit_text show r (10 * d + e) hard ≡ limit_text show (10 * r + d) e hard
unfolding limit_text
limit_text_collides show r d e hard soft resource = ground (
  arith,
  append_assoc (show r) (show d) (show e ++ show hard),
  append_assoc (show d) (show e) (show hard),
)
