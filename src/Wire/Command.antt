-- ===== src/Wire/Command.antt =====
-- `SaceCommandHeader` and `SaceCommand`: `writeToParcel` and `readFromParcel`.
use service_excutor.Prelude.{
  ℕ, ◌%◌, ◌<◌, ◌≤◌, ◌^◌, ◌≡◌, refl, sym, ap, ◌∙◌, Bool, true, false, List, [], ◌∷◌, ◌++◌, Option,
  none, some, length, append-nil, ltb, if◌then◌else◌, arith, ◌⊎◌, inl, inr, ◌&&◌,
}
use service_excutor.Types.{
  CommandType, type_normal, type_service, type_event, type_other, SaceCommand, Params,
  command_params, event_params, Payload, normal_payload, service_payload, event_payload,
  other_payload, payload_type, extra_bufer_len, SaceCommandParams, SaceEventParams,
}
use service_excutor.Wire.Codes.{
  command_type_code, command_type_of, service_cmd_code, service_cmd_of, normal_cmd_code,
  normal_cmd_of, event_type_code, event_type_of, service_flag_code, service_flag_of, cmd_flag_code,
  cmd_flag_of, event_flag_code, event_flag_of, normal_cmd_named, cmd_flag_named, service_cmd_named,
  service_flag_named, event_type_named, event_flag_named, normal_cmd_of-normal_cmd_code,
  cmd_flag_of-cmd_flag_code, service_cmd_of-service_cmd_code, service_flag_of-service_flag_code,
  event_type_of-event_type_code, event_flag_of-event_flag_code,
}
use service_excutor.Wire.Parcel.{
  Item, uint32, byte, uint64, utf8, bytes, bool, Parcel, IsParcel, write_first, write_size,
}
use service_excutor.Wire.Params.{
  write_params, read_command_params, read_event_params, read-write_command_params,
  read-write_event_params,
}

unfoldable pub write_payload : Payload → List Item
unfolding normal_cmd_code cmd_flag_code service_cmd_code service_flag_code event_type_code
    event_flag_code
write_payload (normal_payload t f) = byte (normal_cmd_code t) ∷ byte (cmd_flag_code f) ∷ []
write_payload (service_payload t f) = byte (service_cmd_code t) ∷ byte (service_flag_code f) ∷ []
write_payload (event_payload t f) = byte (event_type_code t) ∷ byte (event_flag_code f) ∷ []
write_payload (other_payload n) = []

unfoldable pub write_optional : Option Params → List Item
write_optional none = bool false ∷ []
write_optional (some p) = bool true ∷ write_params p

-- What is written before the size, `reserveSpace` first.
unfoldable pub command_items : SaceCommand → List Item
command_items c =
    uint32 0
    ∷ byte (command_type_code (payload_type c.payload))
    ∷ uint32 c.sequence
    ∷ uint64 c.label
    ∷ utf8 c.name
    ∷ utf8 c.command
    ∷ uint32 (length c.extra)
    ∷ bytes c.extra
    ∷ (write_payload c.payload ++ write_optional c.params)

-- A type and flags that name enumerators.
unfoldable pub is_named : Payload → Bool
is_named (normal_payload t f) = normal_cmd_named t && cmd_flag_named f
is_named (service_payload t f) = service_cmd_named t && service_flag_named f
is_named (event_payload t f) = event_type_named t && event_flag_named f
is_named (other_payload n) = false

unfoldable pub write_command : {P : Type 0} → Parcel P → SaceCommand → List Item
write_command y c = write_size y (command_items c)

module _ {P : Type 0} (y : Parcel P) (cap_count : ℕ) where
  unfoldable pub read_payload : CommandType → P → Payload × P
  unfolding normal_cmd_of cmd_flag_of service_cmd_of service_flag_of event_type_of event_flag_of
  read_payload type_normal p =
      let (t, p1) = y.read_byte p in
      let (f, p2) = y.read_byte p1 in (normal_payload (normal_cmd_of t) (cmd_flag_of f), p2)
  read_payload type_service p =
      let (t, p1) = y.read_byte p in
      let (f, p2) = y.read_byte p1 in (service_payload (service_cmd_of t) (service_flag_of f), p2)
  read_payload type_event p =
      let (t, p1) = y.read_byte p in
      let (f, p2) = y.read_byte p1 in (event_payload (event_type_of t) (event_flag_of f), p2)
  read_payload (type_other n) p = (other_payload n, p)

  -- The class of the parameters is chosen by the type.
  unfoldable pub read_params : CommandType → P → Params × P
  read_params type_event p = let (x, p1) = read_event_params y cap_count p in (event_params x, p1)
  read_params type_normal p =
      let (x, p1) = read_command_params y cap_count p in (command_params x, p1)
  read_params type_service p =
      let (x, p1) = read_command_params y cap_count p in (command_params x, p1)
  read_params (type_other n) p =
      let (x, p1) = read_command_params y cap_count p in (command_params x, p1)

  unfoldable pub read_optional : CommandType → P → Option Params × P
  read_optional t p =
      let (given, p1) = y.read_bool p in
      if given then (let (x, p2) = read_params t p1 in (some x, p2)) else (none, p1)

  -- `len`, the command and the parcel after it. More bytes than `extra` has room for are written
  -- past it.
  unfoldable pub read_command : P → Option (ℕ × SaceCommand × P)
  read_command p =
      let (len, p1) = y.read_uint32 p in
      let (type_byte, p2) = y.read_byte p1 in
      let (sequence, p3) = y.read_uint32 p2 in
      let (label, p4) = y.read_uint64 p3 in
      let (name, p5) = y.read_utf8 p4 in
      let (command, p6) = y.read_utf8 p5 in
      let (extra_len, p7) = y.read_uint32 p6 in
      let (extra, p8) = y.read_bytes extra_len p7 in
      let type = command_type_of type_byte in
      let (payload, p9) = read_payload type p8 in
      let (params, p10) = read_optional type p9 in
      if ltb extra_bufer_len extra_len
      then none
      else some (
        len,
        record {
          sequence = sequence;
          label = label;
          name = name;
          command = command;
          params = params;
          extra = extra;
          payload = payload;
        },
        p10,
      )

  -- The parameters have the class that the type asks for, and as many capabilities as the set.
  pub data Fits : CommandType → Option Params → Type 0 where
    no_params : {t : CommandType} → Fits t none
    for_command :
        {t : CommandType} {p : SaceCommandParams}
        → (t ≡ type_normal) ⊎ (t ≡ type_service)
        → length p.capabilities ≡ cap_count
        → Fits t (some (command_params p))
    for_event :
        {p : SaceEventParams}
        → length p.base.capabilities ≡ cap_count
        → Fits type_event (some (event_params p))

  optional_lem :
      (t : CommandType) (x : Option Params) (r : List Item)
      → IsParcel y
      → cap_count ≤ 64
      → Fits t x
      → read_optional t (y.holding (write_optional x ++ r)) ≡ (x, y.holding r)
  unfolding read_optional write_optional read_params write_params
  optional_lem t none r law bound no_params = simp (law.reads_bool) refl
  optional_lem type_event (some (event_params p)) r law bound (for_event n) =
      simp (law.reads_bool, read-write_event_params y cap_count p r law n bound) refl
  optional_lem t (some (command_params p)) r law bound (for_command (inl e) n) =
      rw e (simp (law.reads_bool, read-write_command_params y cap_count p r law n bound) refl)
  optional_lem t (some (command_params p)) r law bound (for_command (inr e) n) =
      rw e (simp (law.reads_bool, read-write_command_params y cap_count p r law n bound) refl)
  optional_lem type_normal (some (event_params p)) r law bound x = elim x [ ]
  optional_lem type_service (some (event_params p)) r law bound x = elim x [ ]
  optional_lem (type_other _) (some (event_params p)) r law bound x = elim x [ ]

  payload_lem :
      (x : Payload) (r : List Item)
      → IsParcel y
      → is_named x ≡ true
      → read_payload (payload_type x) (y.holding (write_payload x ++ r)) ≡ (x, y.holding r)
  unfolding read_payload write_payload payload_type is_named
  payload_lem (normal_payload t f) r law n =
      let (et, bt) = normal_cmd_of-normal_cmd_code t (ground arith) in
      let (ef, bf) = cmd_flag_of-cmd_flag_code f (ground arith) in
      simp (law.reads_byte, bt, bf, et, ef) refl
  payload_lem (service_payload t f) r law n =
      let (et, bt) = service_cmd_of-service_cmd_code t (ground arith) in
      let (ef, bf) = service_flag_of-service_flag_code f (ground arith) in
      simp (law.reads_byte, bt, bf, et, ef) refl
  payload_lem (event_payload t f) r law n =
      let (et, bt) = event_type_of-event_type_code t (ground arith) in
      let (ef, bf) = event_flag_of-event_flag_code f (ground arith) in
      simp (law.reads_byte, bt, bf, et, ef) refl
  payload_lem (other_payload n) r law h = ground arith

  type_lem :
      (x : Payload)
      → is_named x ≡ true
      → (command_type_of (command_type_code (payload_type x)) ≡ payload_type x)
        × (command_type_code (payload_type x) < 2 ^ 7)
  unfolding is_named payload_type command_type_of command_type_code
  type_lem (normal_payload t f) n = (refl, omega arith)
  type_lem (service_payload t f) n = (refl, omega arith)
  type_lem (event_payload t f) n = (refl, omega arith)
  type_lem (other_payload m) n = ground arith

  -- The same wherever the length was written, as for a parcel that starts with a token.
  pub read_command_lem :
      (n : ℕ) (c : SaceCommand)
      → IsParcel y
      → cap_count ≤ 64
      → n < 2 ^ 32
      → is_named c.payload ≡ true
      → Fits (payload_type c.payload) c.params
      → c.sequence < 2 ^ 32
      → c.label < 2 ^ 64
      → length c.extra ≤ extra_bufer_len
      → read_command (y.holding (write_first n (command_items c))) ≡ some (n, c, y.holding [])
  unfolding read_command command_items
  read_command_lem n c law bound size named fits seq label room =
      let (et, bt) = type_lem c.payload named in
      let few : length c.extra < 2 ^ 32 = omega (arith, room) in
      let fit : ltb 256 (length c.extra) ≡ false = ground (arith, room) in
      let pay = payload_lem c.payload (write_optional c.params) law named in
      let opt =
        ap (λ l. read_optional (payload_type c.payload) (y.holding l))
          (sym (append-nil (write_optional c.params)))
        ∙ optional_lem (payload_type c.payload) c.params [] law bound fits in
      simp
        (
          law.reads_uint32, law.reads_uint64, law.reads_utf8, law.reads_bytes, law.reads_byte, size,
          bt, seq, label, few, et, pay, opt, fit,
        )
        refl

  -- A command whose type and flags name enumerators, with the parameters that its type asks for,
  -- numbers that fit their fields and at most 256 extra bytes: what is read is the command, and
  -- the length is the size of the parcel.
  pub read-write_command :
      (c : SaceCommand)
      → IsParcel y
      → cap_count ≤ 64
      → is_named c.payload ≡ true
      → Fits (payload_type c.payload) c.params
      → c.sequence < 2 ^ 32
      → c.label < 2 ^ 64
      → length c.extra ≤ extra_bufer_len
      → read_command (y.holding (write_command y c))
        ≡ some (y.data_size (command_items c) % 2 ^ 32, c, y.holding [])
  unfolding write_command write_size
  read-write_command c law bound named fits seq label room =
      read_command_lem (y.data_size (command_items c) % 2 ^ 32) c law bound (omega arith) named fits
        seq label room
