-- ===== src/Objects/Commands.antt =====
-- `SaceCommandHeader` and `SaceCommand` as objects: the extra bytes are a buffer of 256 with a
-- length, and the union is the two words that its members share.
use service_excutor.Prelude.{
  ℕ, zero, suc, ◌+◌, ◌*◌, ◌%◌, ◌^◌, List, [], ◌∷◌, ◌++◌, Option, none, some, Text, take, drop, leb,
  if◌then◌else◌, ◌>>=◌,
}
use service_excutor.Types.{
  CommandType, type_normal, type_service, type_event, type_other, SaceCommand, Params, Payload,
  normal_payload, service_payload, event_payload, other_payload, extra_bufer_len,
}
use service_excutor.Wire.Codes.{
  service_cmd_of, normal_cmd_of, event_type_of, service_flag_of, cmd_flag_of, event_flag_of,
}

pub record Header : Type 0 where
  pub len : ℕ
  pub type : CommandType
  pub sequence : ℕ

pub record CommandObject : Type 0 where
  pub header : Header
  pub label : ℕ
  pub name : Text
  pub command : Text
  pub command_params : Option Params
  pub extra : List ℕ
  pub extra_len : ℕ
  pub kind_word : ℕ
  pub flags_word : ℕ

-- `memcpy` of `n` bytes into a field of 256: more are written past it, which is none.
unfoldable pub memcpy_extra : ℕ → List ℕ → List ℕ → Option (List ℕ)
memcpy_extra n src dst = if leb n extra_bufer_len then some (take n src ++ drop n dst) else none

unfoldable pub zeros : ℕ → List ℕ
zeros zero = []
zeros (suc n) = 0 ∷ zeros n

-- `gettid() << 16 | ++mSequence` in 32 bits, and the counter of 16 bits after it.
unfoldable pub next_number : ℕ → ℕ → ℕ × ℕ
next_number tid counter = let n = suc counter % 2 ^ 16 in ((tid % 2 ^ 16) * 2 ^ 16 + n, n)

-- `SaceCommandHeader::init`
unfoldable pub init_header : ℕ → ℕ → Header × ℕ
unfolding next_number
init_header tid counter =
    let (number, n) = next_number tid counter in
    (record { len = 0; type = type_normal; sequence = number }, n)

-- `SaceCommand::init`; `self_name` is the process and the thread as text. START and IN are 0.
unfoldable pub init_object : Text → ℕ → ℕ → CommandObject × ℕ
unfolding init_header zeros
init_object self_name tid counter =
    let (h, n) = init_header tid counter in
    (
      record {
        header = h;
        label = 0;
        name = self_name;
        command = [];
        command_params = none;
        extra = zeros extra_bufer_len;
        extra_len = 0;
        kind_word = 0;
        flags_word = 0;
      },
      n,
    )

-- The constructor: the header's own, and `init`, which begins with the header again.
unfoldable pub new_object : Text → ℕ → ℕ → CommandObject × ℕ
unfolding init_header init_object
new_object self_name tid counter =
    let (h, n) = init_header tid counter in init_object self_name tid n

-- The words of the union after a copy from `o` to `g`: a type that names no kind copies neither.
unfoldable pub copied_words : CommandObject → CommandObject → ℕ × ℕ
copied_words o g = elim o.header.type [
  | type_normal ↦ (o.kind_word, o.flags_word)
  | type_service ↦ (o.kind_word, o.flags_word)
  | type_event ↦ (o.kind_word, o.flags_word)
  | type_other n ↦ (g.kind_word, g.flags_word)
]

-- The fields that the copy constructor and `operator=` set alike, over an object `g`.
unfoldable pub set_fields : CommandObject → CommandObject → List ℕ → CommandObject
unfolding copied_words
set_fields o g e =
    let (k, f) = copied_words o g in
    record g {
      label = o.label;
      name = o.name;
      command = o.command;
      command_params = o.command_params;
      extra = e;
      extra_len = o.extra_len;
      kind_word = k;
      flags_word = f;
    }

-- The header's copy constructor and its `operator=`.
unfoldable pub copy_header : Header → Header
copy_header h = record { len = h.len; type = h.type; sequence = h.sequence }

unfoldable pub assign_header : Header → Header → Header
assign_header h self = record self { len = h.len; type = h.type; sequence = h.sequence }

-- `SaceCommand (const SaceCommand&)`, in memory that held `g`.
unfoldable pub copy_object : CommandObject → CommandObject → Option CommandObject
unfolding memcpy_extra set_fields copy_header
copy_object o g = memcpy_extra o.extra_len o.extra g.extra >>= λ e.
    some (set_fields o (record g { header = copy_header o.header }) e)

-- `operator=`
unfoldable pub assign_object : CommandObject → CommandObject → Option CommandObject
unfolding memcpy_extra set_fields assign_header
assign_object o self = memcpy_extra o.extra_len o.extra self.extra >>= λ e.
    some (set_fields o (record self { header = assign_header o.header self.header }) e)

unfoldable pub payload_of : CommandType → ℕ → ℕ → Payload
payload_of type_normal k f = normal_payload (normal_cmd_of k) (cmd_flag_of f)
payload_of type_service k f = service_payload (service_cmd_of k) (service_flag_of f)
payload_of type_event k f = event_payload (event_type_of k) (event_flag_of f)
payload_of (type_other n) k f = other_payload n

-- What the rest of the program reads of an object.
unfoldable pub view : CommandObject → SaceCommand
view o = record {
  sequence = o.header.sequence;
  label = o.label;
  name = o.name;
  command = o.command;
  params = o.command_params;
  extra = take o.extra_len o.extra;
  payload = payload_of o.header.type o.kind_word o.flags_word;
}
