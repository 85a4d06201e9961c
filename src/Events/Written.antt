-- ===== src/Events/Written.antt =====
-- What `write_ini_file` writes, as lines.
use service_excutor.Prelude.{
  ℕ, ◌≡◌, refl, sym, ◌∙◌, ap, leb, true, List, [], ◌∷◌, ◌++◌, some, Text, Map, lookup, nat_key,
  text_key, length, All, map, append_assoc, arith,
}
use service_excutor.Types.{SaceCommandParams, Params, c_str}
use service_excutor.Wire.Parcel.{to_ulong}
use service_excutor.Params.Parsing.{Trigger}
use service_excutor.Ini.Lines.{joined, joined-append, IsLine}
use service_excutor.Events.State.{Event, World}
use service_excutor.Events.Saving.{
  newline, base_params, service_line, identity_lines, capability_line, groups_line, rlimits_words,
  printed, trigger_lines, service_str, ini_text,
}
use service_excutor.Events.AttributeLines.{trigger_text, identity_texts}

-- The lines of an event without capabilities, groups and limits.
abbrev pub first_text : Event → Text
first_text e = c_str e.cmd.name ++ 32 ∷ c_str e.cmd.command

abbrev pub attribute_texts : Event → SaceCommandParams → List Text
attribute_texts e p = identity_texts p ++ map trigger_text e.triggers

abbrev pub event_texts : Event → SaceCommandParams → List Text
event_texts e p = first_text e ∷ (attribute_texts e p ++ [] ∷ [])

-- The parameters set a user, a group and a label at most, and what is printed fits its buffer.
pub record IsSimple (e : Event) (p : SaceCommandParams) : Type 0 where
  pub params : Params
  pub has_params : e.cmd.params ≡ some params
  pub has_base : base_params params ≡ p
  pub capabilities : to_ulong p.capabilities ≡ 0
  pub groups : p.supp_gids ≡ []
  pub rlimits : p.rlimits ≡ []
  pub first_fits : leb (length (service_line e)) 127 ≡ true
  pub identity_fits : leb (length (identity_lines p)) 127 ≡ true
  pub are_lines : All IsLine (event_texts e p)

printed_lem : (s : Text) → leb (length s) 127 ≡ true → printed s ≡ some s
unfolding printed
printed_lem s h = ground (arith, h)

trigger_lines_lem : (ts : List Trigger) → trigger_lines ts ≡ joined (map trigger_text ts)
unfolding trigger_lines
trigger_lines_lem [] = refl
trigger_lines_lem (t ∷ ts) =
    append_assoc (trigger_text t) newline (trigger_lines ts)
    ∙ ap (λ s. trigger_text t ++ 10 ∷ s) (trigger_lines_lem ts)

lines_lem :
    (e : Event) (p : SaceCommandParams) (s : Text)
    → (((service_line e ++ identity_lines p) ++ trigger_lines e.triggers) ++ newline) ++ s
      ≡ joined (event_texts e p) ++ s
unfolding service_line identity_lines
lines_lem e p s = simp (trigger_lines_lem e.triggers, joined-append, append_assoc) refl

groups_line_none : groups_line [] ≡ []
unfolding groups_line
groups_line_none = refl

capability_line_none :
    (y : World) (p : SaceCommandParams) → to_ulong p.capabilities ≡ 0 → capability_line y p ≡ []
unfolding capability_line
capability_line_none y p h = rw h refl

service_str_lem :
    (y : World) (e : Event) (p : SaceCommandParams)
    → IsSimple e p
    → service_str y e ≡ some ((service_line e ++ identity_lines p) ++ trigger_lines e.triggers)
unfolding service_str groups_line rlimits_words service_line
service_str_lem y e p v =
    rw
      (
        service_str,
        v.has_params,
        v.has_base,
        printed_lem (service_line e) v.first_fits,
        printed_lem (identity_lines p) v.identity_fits,
        capability_line_none y p v.capabilities,
        v.rlimits,
        v.groups,
      )
      refl

-- The entries of the map, with the objects and the parameters they stand for.
pub data Stands (h : Map ℕ Event) : Map Text ℕ → List (Event × SaceCommandParams) → Type 0 where
  no_events : Stands h [] []
  one_event :
      {name : Text} {a : ℕ} {m : Map Text ℕ} {e : Event} {p : SaceCommandParams}
      {es : List (Event × SaceCommandParams)}
      → lookup a h ≡ some e
      → IsSimple e p
      → Stands h m es
      → Stands h ((name, a) ∷ m) ((e, p) ∷ es)

abbrev pub all_texts : List (Event × SaceCommandParams) → List Text
all_texts [] = []
all_texts ((e, p) ∷ es) = event_texts e p ++ all_texts es

All-append : (P : Text → Type 0) (ls ms : List Text) → All P ls → All P ms → All P (ls ++ ms)
All-append P [] ms h k = k
All-append P (l ∷ ls) ms (p, h) k = (p, All-append P ls ms h k)

pub all_texts-IsLine :
    (h : Map ℕ Event) (m : Map Text ℕ) (es : List (Event × SaceCommandParams))
    → Stands h m es
    → All IsLine (all_texts es)
all_texts-IsLine h [] [] no_events = tt
all_texts-IsLine h [] (e ∷ es) v = elim v [ ]
all_texts-IsLine h ((name, a) ∷ m) [] v = elim v [ ]
all_texts-IsLine h ((name, a) ∷ m) ((e, p) ∷ es) (one_event f v vs) =
    All-append IsLine (event_texts e p) (all_texts es) v.are_lines (all_texts-IsLine h m es vs)

pub ini_text-joined :
    (y : World) (h : Map ℕ Event) (m : Map Text ℕ) (es : List (Event × SaceCommandParams))
    → Stands h m es
    → ini_text y m h ≡ some (joined (all_texts es))
unfolding ini_text
ini_text-joined y h [] [] no_events = refl
ini_text-joined y h [] (e ∷ es) v = elim v [ ]
ini_text-joined y h ((name, a) ∷ m) [] v = elim v [ ]
ini_text-joined y h ((name, a) ∷ m) ((e, p) ∷ es) (one_event f v vs) =
    simp (f, service_str_lem y e p v, ini_text-joined y h m es vs)
      (ap some (
        lines_lem e p (joined (all_texts es))
        ∙ sym (joined-append (event_texts e p) (all_texts es))))
