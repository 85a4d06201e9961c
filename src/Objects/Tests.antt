-- ===== src/Objects/Tests.antt =====
-- Objects, and instances of the theorems.
use service_excutor.Prelude.{◌<◌, ◌+◌, ◌^◌, ◌≡◌, ◌≢◌, refl, ◌∷◌, none, some, codes, arith}
use service_excutor.Types.{type_event}
use service_excutor.Objects.Commands.{CommandObject, zeros, copy_object, assign_object, view}
use service_excutor.Objects.Copying.{IsBuffer, view-copy_object}
use service_excutor.Objects.Numbers.{number_of, number_of-repeats}

abbrev original : CommandObject
original = record {
  header = record { len = 40; type = type_event; sequence = 65538 };
  label = 0;
  name = codes "boot_log";
  command = codes "logcat";
  command_params = none;
  extra = 1 ∷ 2 ∷ zeros 254;
  extra_len = 2;
  kind_word = 1;
  flags_word = 1;
}

abbrev memory : CommandObject
memory = record original { extra = zeros 256; extra_len = 300; kind_word = 9; name = codes "old" }

view-copy_object_example :
    (p : CommandObject) × (copy_object original memory ≡ some p)
    × (assign_object original memory ≡ some p)
    × (view p ≡ view original)
    × (p.header.len ≡ 40)
    × IsBuffer p.extra_len p.extra
unfolding zeros
view-copy_object_example = view-copy_object original memory (omega arith, refl) refl

number_of-repeats_example :
    (number_of (codes "10:11") 11 65534 (0 + 1) ≢ number_of (codes "10:11") 11 65534 0)
    × (number_of (codes "10:11") 11 65534 (0 + 2 ^ 15) ≡ number_of (codes "10:11") 11 65534 0)
    × (number_of (codes "10:11") 11 65534 0 < 2 ^ 32)
number_of-repeats_example =
    number_of-repeats (codes "10:11") 11 65534 0 1 (omega arith) (omega arith) (omega arith)
