-- ===== src/Events/FileTests.antt =====
-- An event file, and an instance of the theorem on the first pass over it.
use service_excutor.Prelude.{
  ℕ, ◌≡◌, refl, Bool, true, false, ◌||◌, [], ◌∷◌, ◌++◌, none, some, Text, codes, nat_eqb, insert,
  text_key, text_eqb, map,
}
use service_excutor.Types.{SaceEventParams, service_payload, service_cmd_stop, service_flag_normal}
use service_excutor.Params.Triggers.{property_trigger}
use service_excutor.Params.Parsing.{
  on_property, on_boot, parse_event_params, property_triggers, add_property,
}
use service_excutor.Client.Calls.{init_command}
use service_excutor.Ini.Lexing.{
  is_blank, next_token, trim_space_char, cut, scan, trim_left, trim_right, trim_end,
}
use service_excutor.Ini.Attributes.{
  Stream, parse_service_attr, tag_attr, one_word, trigger_attr, has_prefix, property_attr, split_at,
}
use service_excutor.Ini.Sections.{
  Draft, Reader, parse_none, parse_event_from_ini, finish, parse_line,
}
use service_excutor.Ini.File.{read_ini_file, read_opened, read_loop, read_round, getline, assigned}
use service_excutor.Events.State.{SaceEvent, World}
use service_excutor.Events.Monitor.{pass}
use service_excutor.Events.Loading.{on_init, loaded_events}
use service_excutor.Events.Booting.{file_start, on_init-pass}

abbrev pub isspace : ℕ → Bool
isspace c = is_blank c || nat_eqb c 13

-- A stream that reads every line as one trigger.
abbrev stream : Stream
stream = record {
  words = λ line. codes "trigger" ∷ codes "property:sys.ready=1" ∷ [];
  good = λ line. true;
  limit = λ line. none;
  limit_text = λ resource hard soft. [];
}

abbrev pub new_event : SaceEventParams
new_event = record {
  base = record {
    uid = [];
    gid = [];
    supp_gids = [];
    rlimits = [];
    seclabel = [];
    capabilities = [];
  };
  property_key = [];
  property_value = [];
  boot = true;
}

-- An event that is to start when a property is set.
abbrev file : Text
file = codes "log logcat" ++ 10 ∷ (codes "trigger property:sys.ready=1" ++ 10 ∷ [])

abbrev pub world : World
world = record {
  fresh = 3;
  pid = 200;
  property = λ name. [];
  exists = true;
  opens = true;
  streams = true;
  show = λ n. [];
}

abbrev pub starting : SaceEvent
starting = record {
  events = [];
  writers = [];
  running_events = [];
  failed_events = [];
  starting_events = [];
  heap = [];
  stop_cmd = record (init_command (codes "1:1") 2) {
    payload = service_payload service_cmd_stop service_flag_normal;
  };
  posted = [];
  ini_file = file;
  trace = [];
}

abbrev log_draft : Draft
log_draft = record {
  name = codes "log";
  command = codes " logcat";
  params = add_property (codes ":sys.ready") (codes "=1") new_event;
}

abbrev read : Reader
read = record {
  state = parse_none;
  events =
      (
        codes "log",
        (
          log_draft,
          on_property (property_trigger (codes ":sys.ready") (codes "=1"))
              ∷ on_boot (record { has_triggered = false })
              ∷ [],
        ),
      )
      ∷ [];
}

on_init-pass_example :
    (r : Reader) × (t : SaceEvent) × (u : SaceEvent) × (read_ini_file isspace stream [] [] new_event
        (some file)
        none
        (record { state = parse_none; events = [] })
      ≡ some (true, r))
    × (on_init
          (codes "1:1")
          (λ name. 4)
          isspace
          stream
          []
          []
          new_event
          true
          true
          (some file)
          none
          starting
        ≡ some (true, t))
    × (t.events ≡ loaded_events (codes "1:1") (λ name. 4) 1 r.events)
    × (pass world none t ≡ some u)
    × (u.posted ≡ map (file_start (codes "1:1") (λ name. 4) world) r.events)
on_init-pass_example =
    on_init-pass (codes "1:1") (λ name. 4) isspace stream [] [] new_event (some file) none world
      true starting refl refl refl

-- The event file has one event, with the trigger of the file and the boot trigger.
reads_file :
    read_ini_file isspace stream [] [] new_event
      (some file)
      none
      (record { state = parse_none; events = [] })
    ≡ some (true, read)
unfolding read_ini_file read_opened read_loop read_round getline assigned parse_event_from_ini
    trim_space_char trim_left trim_right trim_end next_token cut scan finish parse_line
    parse_event_params property_triggers parse_service_attr tag_attr one_word trigger_attr
    has_prefix property_attr split_at add_property insert loaded_events text_eqb
reads_file = refl
