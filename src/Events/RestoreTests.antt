-- ===== src/Events/RestoreTests.antt =====
-- A write of the event file and a reading of it, as an instance of the theorem on them.
use service_excutor.Prelude.{
  ℕ, ◌≡◌, refl, Bool, true, false, List, [], ◌∷◌, ◌++◌, none, some, Text, codes, insert, text_key,
  lookup, if◌then◌else◌,
}
use service_excutor.Types.{c_str, SaceCommandParams, event_params}
use service_excutor.Params.Triggers.{property_trigger}
use service_excutor.Params.Parsing.{on_property, on_boot, add_property, add_properties}
use service_excutor.Client.Calls.{init_command}
use service_excutor.Ini.Attributes.{Stream}
use service_excutor.Ini.Sections.{Reader, parse_none}
use service_excutor.Ini.File.{read_ini_file}
use service_excutor.Events.State.{Event, SaceEvent}
use service_excutor.Events.Saving.{
  write_ini_file, service_line, identity_lines, trigger_to_string, property_to_string,
}
use service_excutor.Wire.Parcel.{to_ulong}
use service_excutor.Events.Written.{IsSimple, no_events, one_event}
use service_excutor.Events.Restored.{IsReadable, read-write_ini_file}
use service_excutor.Events.FileTests.{isspace, new_event, world, starting}

-- The pieces of a line between characters that are spaces.
abbrev grow : ℕ → List Text → List Text
grow c [] = (c ∷ []) ∷ []
grow c (p ∷ ps) = (c ∷ p) ∷ ps

abbrev pieces : Text → List Text
pieces [] = []
pieces (c ∷ s) = if isspace c then [] ∷ pieces s else grow c (pieces s)

abbrev several : List Text → Bool
several [] = false
several (p ∷ []) = false
several (p ∷ q ∷ ps) = true

abbrev stream : Stream
stream = record {
  words = pieces;
  good = λ line. several (pieces line);
  limit = λ line. none;
  limit_text = λ resource hard soft. [];
}

-- The user and the label of an event that is to start when a property is set.
abbrev base : SaceCommandParams
base = record new_event.base { uid = codes "1000"; seclabel = codes "u:r:log:s0" }

abbrev event : Event
event = record {
  triggers =
      on_boot (record { has_triggered = true })
      ∷ on_property (property_trigger (codes "on") (codes "1"))
      ∷ [];
  cmd = record (init_command (codes "1:1") 4) {
    name = codes "log";
    command = codes "logcat";
    params = some (event_params (record new_event { base = base }));
  };
}

abbrev saved : SaceEvent
saved = record starting { events = (codes "log", 7) ∷ []; heap = (7, event) ∷ [] }

event-IsSimple : IsSimple event base
unfolding service_line identity_lines trigger_to_string property_to_string to_ulong c_str
    property_trigger
event-IsSimple = record {
  params = event_params (record new_event { base = base });
  has_params = refl;
  has_base = refl;
  capabilities = refl;
  groups = refl;
  rlimits = refl;
  first_fits = refl;
  identity_fits = refl;
  are_lines = (refl, (refl, (refl, (refl, (refl, (refl, (refl, tt)))))));
}

event-IsReadable :
    IsReadable isspace refl refl (refl, refl, refl, refl) stream [] [] new_event event base
unfolding property_to_string c_str property_trigger
event-IsReadable = record {
  head = 108;
  tail = codes "og";
  is_name = refl;
  begins = refl;
  is_event = refl;
  is_word = (refl, (refl, (refl, tt)));
  identity = ((refl, refl), (refl, refl), (refl, refl));
  triggers = ((refl, refl), (((refl, refl), (refl, (refl, tt))), tt));
}

read-write_ini_file_example :
    (t : SaceEvent) × (r : Reader) × (write_ini_file world saved ≡ some t)
    × (read_ini_file isspace stream [] [] new_event
          (some t.ini_file)
          none
          (record { state = parse_none; events = [] })
        ≡ some (true, r))
    × (r.events
        ≡ (
          codes "log",
          (
            record {
              name = codes "log";
              command = codes " logcat";
              params = add_property (codes ":on") (61 ∷ 49 ∷ 0 ∷ []) (record new_event {
                base = record new_event.base {
                  uid = codes "1000" ++ 0 ∷ [];
                  gid = 0 ∷ [];
                  seclabel = codes "u:r:log:s0" ++ 0 ∷ [];
                };
              });
            },
            on_property (property_trigger (codes ":on") (61 ∷ 49 ∷ 0 ∷ []))
                ∷ on_boot (record { has_triggered = false })
                ∷ [],
          ),
        )
          ∷ [])
unfolding insert c_str add_properties lookup property_trigger
read-write_ini_file_example =
    read-write_ini_file isspace refl refl (refl, refl, refl, refl) stream [] [] new_event world
      saved ((event, base) ∷ []) none refl refl (one_event refl event-IsSimple no_events)
      (event-IsReadable, tt) refl refl refl
