-- ===== src/Events/Saving.antt =====
-- `write_ini_file`: the events as lines of the event file, with the `to_string` of triggers.
use service_excutor.Prelude.{
  ℕ, List, [], ◌∷◌, ◌++◌, Option, none, some, Text, codes, Map, lookup, length, nat_key, ltb,
  if◌then◌else◌, ◌>>=◌,
}
use service_excutor.Types.{c_str, SaceCommandParams, Params, command_params, event_params}
use service_excutor.Params.Triggers.{PropertyTrigger}
use service_excutor.Params.Parsing.{Trigger, on_property, on_boot}
use service_excutor.Wire.Parcel.{to_ulong}
use service_excutor.Events.State.{Event, SaceEvent, World}

-- `PropertyTrigger::to_string`
unfoldable pub property_to_string : PropertyTrigger → Text
property_to_string t = (codes "property:" ++ t.property_name) ++ (codes "=" ++ t.property_value)

-- `Trigger::to_string`, a virtual call.
unfoldable pub trigger_to_string : Trigger → Text
trigger_to_string (on_property t) = property_to_string t
trigger_to_string (on_boot t) = codes "boot"

abbrev pub newline : Text
newline = 10 ∷ []

-- `sprintf` into `char buf[128]`, and `append(buf, strlen(buf))`.
unfoldable pub printed : Text → Option Text
printed s = if ltb 127 (length s) then none else some s

abbrev pub base_params : Params → SaceCommandParams
base_params (command_params p) = p
base_params (event_params p) = p.base

-- The first line of an event.
unfoldable pub service_line : Event → Text
service_line e = (c_str e.cmd.name ++ codes " ") ++ (c_str e.cmd.command ++ newline)

-- User, group and label.
unfoldable pub identity_lines : SaceCommandParams → Text
identity_lines p =
    ((codes "  user " ++ c_str p.uid) ++ newline)
    ++ (((codes "  group " ++ c_str p.gid) ++ newline)
        ++ ((codes "  seclabel " ++ c_str p.seclabel) ++ newline))

-- No newline follows.
unfoldable pub capability_line : World → SaceCommandParams → Text
capability_line y p =
    let n = to_ulong p.capabilities in if ltb 0 n then codes "  capability " ++ y.show n else []

unfoldable pub groups_words : List Text → Text
groups_words [] = []
groups_words (g ∷ gs) = (g ++ codes " ") ++ groups_words gs

unfoldable pub groups_line : List Text → Text
groups_line [] = []
groups_line (g ∷ gs) = codes "  groups " ++ (groups_words (g ∷ gs) ++ newline)

-- Three characters of each text as numbers. The character at the size of a text is a NUL; one
-- past it is out of range.
unfoldable pub rlimit_words : World → Text → Option Text
rlimit_words y [] = none
rlimit_words y (a ∷ []) = none
rlimit_words y (a ∷ b ∷ []) = some (
    (codes "  rlimits " ++ (y.show a ++ codes " "))
    ++ ((y.show b ++ codes " ") ++ (y.show 0 ++ codes " ")))
rlimit_words y (a ∷ b ∷ c ∷ s) = some (
    (codes "  rlimits " ++ (y.show a ++ codes " "))
    ++ ((y.show b ++ codes " ") ++ (y.show c ++ codes " ")))

unfoldable pub rlimits_words : World → List Text → Option Text
rlimits_words y [] = some []
rlimits_words y (r ∷ rs) = rlimit_words y r >>= λ a. rlimits_words y rs >>= λ b. some (a ++ b)

unfoldable pub trigger_lines : List Trigger → Text
trigger_lines [] = []
trigger_lines (t ∷ ts) =
    ((codes "  trigger " ++ trigger_to_string t) ++ newline) ++ trigger_lines ts

-- `service_str` for one event; a missing `command_params` is a null pointer that is read.
unfoldable pub service_str : World → Event → Option Text
service_str y e = elim e.cmd.params [
  | none ↦ none
  | some x ↦
      let p = base_params x in
      printed (service_line e) >>= λ a. printed (identity_lines p) >>= λ b.
      rlimits_words y p.rlimits >>= λ r. some (
        (a ++ b)
        ++ (capability_line y p ++ (groups_line p.supp_gids ++ (r ++ trigger_lines e.triggers))))
]

-- The loop over `events`, each followed by `endl`.
unfoldable pub ini_text : World → Map Text ℕ → Map ℕ Event → Option Text
ini_text y [] h = some []
ini_text y ((name, a) ∷ m) h = lookup a h >>= λ e.
    service_str y e >>= λ s. ini_text y m h >>= λ rest. some ((s ++ newline) ++ rest)

-- The stream, whose writes do not fail once it is open.
unfoldable pub write_stream : World → SaceEvent → Option SaceEvent
write_stream y s =
    if y.streams
    then (ini_text y s.events s.heap >>= λ text. some (record s { ini_file = text }))
    else some s

-- `write_ini_file`. A file that is there is opened once before, which creates nothing.
unfoldable pub write_ini_file : World → SaceEvent → Option SaceEvent
write_ini_file y s =
    if y.exists then (if y.opens then write_stream y s else some s) else write_stream y s
