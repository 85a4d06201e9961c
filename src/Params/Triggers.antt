-- ===== src/Params/Triggers.antt =====
-- `PropertyTrigger::triggered` and `BootTrigger::triggered`.
use service_excutor.Prelude.{
  ◌≡◌, refl, Bool, true, false, not, ◌&&◌, List, [], ◌∷◌, Text, text_eqb, text_eqb_iff,
  if◌then◌else◌, arith, Bool-cases, inl, inr, map,
}
use service_excutor.Types.{c_str}

pub record PropertyTrigger : Type 0 where
  pub property_name : Text
  pub property_value : Text
  pub last_value : Text

pub record BootTrigger : Type 0 where
  pub has_triggered : Bool

unfoldable pub property_trigger : Text → Text → PropertyTrigger
property_trigger name value = record {
  property_name = name;
  property_value = value;
  last_value = [];
}

abbrev is_empty : Text → Bool
is_empty [] = true
is_empty (c ∷ s) = false

-- `value` is what `property_get` puts into its buffer, as a C string, with its length as result.
unfoldable pub property_triggered : Text → PropertyTrigger → Bool × PropertyTrigger
unfolding text_eqb c_str
property_triggered value t =
    if is_empty value
    then (false, t)
    else if text_eqb (c_str t.property_value) value
    then (if text_eqb t.last_value value
        then (false, t)
        else (true, record t { last_value = value }))
    else (false, t)

unfoldable pub boot_triggered : BootTrigger → Bool × BootTrigger
boot_triggered t = if t.has_triggered then (false, t) else (true, record { has_triggered = true })

-- The answers to a sequence of polls, each with the value that the property has then.
unfoldable pub property_polls : List Text → PropertyTrigger → List Bool
property_polls [] t = []
property_polls (v ∷ vs) t = let (fired, t') = property_triggered v t in fired ∷ property_polls vs t'

-- Whether the property has the value that is waited for.
abbrev pub matches : PropertyTrigger → Text → Bool
matches t v = not (is_empty v) && text_eqb (c_str t.property_value) v

-- True at the first value that passes the test, and nowhere else.
unfoldable pub first_only : (Text → Bool) → List Text → List Bool
first_only p [] = []
first_only p (v ∷ vs) = if p v then true ∷ map (λ w. false) vs else false ∷ first_only p vs

silent :
    (vs : List Text) (t : PropertyTrigger)
    → t.last_value ≡ c_str t.property_value
    → property_polls vs t ≡ map (λ w. false) vs
unfolding property_polls property_triggered
silent [] t e = refl
silent (v ∷ vs) t e = ground (arith, silent vs t e)

polls_from :
    (vs : List Text) (t : PropertyTrigger)
    → t.last_value ≡ []
    → property_polls vs t ≡ first_only (matches t) vs
unfolding property_polls property_triggered first_only
polls_from [] t e = refl
polls_from ([] ∷ vs) t e = ground (arith, polls_from vs t e)
polls_from ((c ∷ s) ∷ vs) t e = elim (Bool-cases (text_eqb (c_str t.property_value) (c ∷ s))) [
  | inl eq ↦
      let same = text_eqb_iff (c_str t.property_value) (c ∷ s) in
      ground (
        arith,
        text_eqb_iff t.last_value (c ∷ s),
        silent vs (record t { last_value = c ∷ s }) (ground (arith, same)),
      )
  | inr ne ↦ ground (arith, polls_from vs t e)
]

-- A property trigger fires at the first poll that finds the value it waits for, and never again,
-- whatever values the property takes in between.
pub polls_once :
    (name value : Text) (vs : List Text)
    → property_polls vs (property_trigger name value)
      ≡ first_only (matches (property_trigger name value)) vs
unfolding property_trigger
polls_once name value vs = polls_from vs (property_trigger name value) refl
