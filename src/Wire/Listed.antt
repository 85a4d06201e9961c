-- ===== src/Wire/Listed.antt =====
-- A parcel that is the list of its writes, and a command that is written to it.
use service_excutor.Prelude.{
  ℕ, ◌*◌, refl, Bool, true, false, List, [], ◌∷◌, Option, none, some, Text, codes, length,
}
use service_excutor.Types.{
  SaceEventParams, SaceCommand, event_params, event_payload, event_type_add, event_flag_restart,
}
use service_excutor.Wire.Parcel.{
  Item, uint32, byte, uint64, utf8, bytes, bool, utf8_vector, file_descriptor, Parcel, IsParcel,
}

abbrev number : List Item → ℕ × List Item
number (uint32 n ∷ r) = (n, r)
number (byte n ∷ r) = (n, r)
number (uint64 n ∷ r) = (n, r)
number r = (0, r)

abbrev text : List Item → Text × List Item
text (utf8 s ∷ r) = (s, r)
text r = ([], r)

abbrev block : ℕ → List Item → List ℕ × List Item
block n (bytes b ∷ r) = (b, r)
block n r = ([], r)

abbrev flag : List Item → Bool × List Item
flag (bool b ∷ r) = (b, r)
flag r = (false, r)

abbrev texts : List Item → List Text × List Item
texts (utf8_vector ss ∷ r) = (ss, r)
texts r = ([], r)

abbrev descriptor : List Item → Option ℕ × List Item
descriptor (file_descriptor fd ∷ r) = (fd, r)
descriptor r = (none, r)

-- Its size counts each write as four bytes.
abbrev pub listed : Parcel (List Item)
listed = record {
  holding = λ r. r;
  data_size = λ r. 4 * length r;
  read_uint32 = number;
  read_byte = number;
  read_uint64 = number;
  read_utf8 = text;
  read_bytes = block;
  read_bool = flag;
  read_utf8_vector = texts;
  read_file_descriptor = descriptor;
}

pub listed-IsParcel : IsParcel listed
listed-IsParcel = record {
  reads_uint32 = λ n r _. refl;
  reads_byte = λ n r _. refl;
  reads_uint64 = λ n r _. refl;
  reads_utf8 = λ s r. refl;
  reads_bytes = λ b r. refl;
  reads_bool = λ b r. refl;
  reads_utf8_vector = λ ss r. refl;
  reads_file_descriptor = λ n r. refl;
}

abbrev params : SaceEventParams
params = record {
  base = record {
    uid = codes "root";
    gid = codes "1000";
    supp_gids = codes "3003" ∷ [];
    rlimits = [];
    seclabel = [];
    capabilities = true ∷ false ∷ true ∷ [];
  };
  property_key = codes "sys.ready" ∷ [];
  property_value = codes "1" ∷ [];
  boot = true;
}

abbrev pub adding : SaceCommand
adding = record {
  sequence = 65537;
  label = 0;
  name = codes "boot_log";
  command = codes "logcat";
  params = some (event_params params);
  extra = 1 ∷ 2 ∷ [];
  payload = event_payload event_type_add event_flag_restart;
}
