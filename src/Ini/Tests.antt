-- ===== src/Ini/Tests.antt =====
-- Lines of an event file, and instances of the theorems.
use service_excutor.Prelude.{
  ℕ, ◌≡◌, Bool, true, false, ◌||◌, [], ◌∷◌, ◌++◌, none, some, Text, codes, nat_eqb, text_key, ◌>>=◌,
}
use service_excutor.Ini.Sections.{Reader, parse_none, parse_lines, parse_event_from_ini}
use service_excutor.Types.{SaceEventParams}
use service_excutor.Ini.File.{read_ini_file}
use service_excutor.Ini.Whole.{read_ini_file-parse_lines}
use service_excutor.Ini.Attributes.{Stream}
use service_excutor.Ini.Lexing.{is_blank}

-- Blanks, and the carriage return.
abbrev isspace : ℕ → Bool
isspace c = is_blank c || nat_eqb c 13

-- A stream that reads every line as one trigger.
abbrev stream : Stream
stream = record {
  words = λ line. codes "trigger" ∷ codes "property:sys.ready=1" ∷ [];
  good = λ line. true;
  limit = λ line. none;
  limit_text = λ resource hard soft. [];
}

abbrev new_event : SaceEventParams
new_event = record {
  base = record {
    uid = [];
    gid = [];
    supp_gids = [];
    rlimits = [];
    seclabel = [];
    capabilities = [];
  };
  property_key = [];
  property_value = [];
  boot = true;
}

abbrev header : Text
header = codes "log logcat" ++ 0 ∷ []

abbrev attribute : Text
attribute = codes "trigger property:sys.ready=1" ++ 0 ∷ []

abbrev file : Text
file = codes "log logcat" ++ 10 ∷ (codes "trigger property:sys.ready=1" ++ 10 ∷ [])

abbrev reading : Reader
reading = record { state = parse_none; events = [] }

read_ini_file-parse_lines_example :
    (read_ini_file isspace stream [] [] new_event (some file) none reading ≡ (
      parse_lines isspace stream [] [] new_event (header ∷ attribute ∷ []) reading >>= λ t.
      parse_event_from_ini isspace stream [] [] new_event [] t >>= λ u. some (true, u)))
    × (read_ini_file isspace stream [] [] new_event none (some file) reading ≡ (
        parse_lines isspace stream [] [] new_event (header ∷ attribute ∷ []) reading >>= λ t.
        parse_event_from_ini isspace stream [] [] new_event [] t >>= λ u. some (true, u)))
    × (read_ini_file isspace stream [] [] new_event none none reading ≡ some (false, reading))
read_ini_file-parse_lines_example =
    read_ini_file-parse_lines isspace stream [] [] new_event file none reading
