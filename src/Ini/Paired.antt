-- ===== src/Ini/Paired.antt =====
-- The triggers the event file gives an event: as many names as values, so that none of the reads
-- of `parse_event_params` is out of range.
use service_excutor.Prelude.{
  ℕ, ◌≡◌, refl, false, List, [], ◌∷◌, ◌++◌, some, Text, Map, length, length-append, if◌then◌else◌,
  Option-cases, inl, inr, arith,
}
use service_excutor.Types.{SaceEventParams}
use service_excutor.Params.Triggers.{property_trigger}
use service_excutor.Params.Parsing.{
  Trigger, on_property, on_boot, property_triggers, parse_event_params, add_property,
}
use service_excutor.Ini.Attributes.{
  Stream, split_at, property_attr, trigger_attr, one_word, limit_attr, tag_attr, parse_service_attr,
}

-- As many values as names.
abbrev pub Paired : SaceEventParams → Type 0
Paired p = length p.property_key ≡ length p.property_value

triggers_total :
    (ks vs : List Text)
    → length ks ≡ length vs
    → (ts : List Trigger) × (property_triggers ks vs ≡ some ts)
unfolding property_triggers
triggers_total [] vs h = ([], refl)
triggers_total (k ∷ ks) [] h = ground (arith, h)
triggers_total (k ∷ ks) (v ∷ vs) h =
    let (ts, e) = triggers_total ks vs (omega (arith, h)) in
    (on_property (property_trigger k v) ∷ ts, ground (arith, e))

pub parse_total :
    (p : SaceEventParams) → Paired p → (ts : List Trigger) × (parse_event_params p ≡ some ts)
unfolding parse_event_params
parse_total p h =
    let (ts, e) = triggers_total p.property_key p.property_value h in
    (
      if p.boot then ts ++ on_boot (record { has_triggered = false }) ∷ [] else ts,
      ground (arith, e),
    )

property-Paired : (s : Text) (p : SaceEventParams) → Paired p → Paired (property_attr s p)
unfolding property_attr add_property
property-Paired s p h = elim (Option-cases (split_at 58 s)) [
  | inl n ↦ ground (arith, h, n)
  | inr ((b, r), e) ↦ elim (Option-cases (split_at 61 r)) [
    | inl n ↦ ground (arith, h, e, n)
    | inr ((name, value), f) ↦ ground (
      arith,
      h,
      e,
      f,
      length-append p.property_key (name ∷ []),
      length-append p.property_value (value ∷ []),
    )
  ]
]

trigger-Paired : (s : Text) (p : SaceEventParams) → Paired p → Paired (trigger_attr s p)
unfolding trigger_attr
trigger-Paired s p h = ground (arith, h, property-Paired s p)

tag-Paired :
    (y : Stream) (caps limits : Map Text ℕ) (line tag : Text) (ss : List Text) (p : SaceEventParams)
    → Paired p
    → Paired (tag_attr y caps limits line tag ss p)
unfolding tag_attr one_word limit_attr
tag-Paired y caps limits line tag [] p h = ground (arith, h)
tag-Paired y caps limits line tag (s ∷ ss) p h = ground (arith, h, trigger-Paired s p)

pub words-Paired :
    (y : Stream) (caps limits : Map Text ℕ) (line : Text) (ws : List Text) (p : SaceEventParams)
    → y.words line ≡ ws
    → Paired p
    → Paired (parse_service_attr y caps limits line p)
unfolding parse_service_attr
words-Paired y caps limits line [] p e h = ground (arith, e, h)
words-Paired y caps limits line (tag ∷ ss) p e h =
    ground (arith, e, h, tag-Paired y caps limits line tag ss p h)
