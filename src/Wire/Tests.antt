-- ===== src/Wire/Tests.antt =====
-- Instances of the round trips on a parcel that is the list of its writes.
use service_excutor.Prelude.{◌*◌, ◌%◌, ◌^◌, ◌≡◌, refl, [], ◌∷◌, some, codes, length, arith}
use service_excutor.Wire.Codes.{event_type_named, event_flag_named}
use service_excutor.Types.{
  payload_type, SaceStatusResponse, response_type_service, response_status_exit,
}
use service_excutor.Wire.Command.{
  for_event, command_items, write_command, read_command, read-write_command, is_named,
}
use service_excutor.Wire.Listed.{listed, listed-IsParcel, adding}

read-write_command_example :
    read_command listed 3 (write_command listed adding)
    ≡ some (4 * length (command_items adding) % 2 ^ 32, adding, [])
unfolding is_named event_type_named event_flag_named payload_type
read-write_command_example =
    read-write_command listed 3 adding listed-IsParcel (omega arith) refl (for_event refl)
      (omega arith) (omega arith) (omega arith)

abbrev ended : SaceStatusResponse
ended = record {
  label = 7;
  name = codes "log";
  type = response_type_service;
  status = response_status_exit;
  extra = 1 ∷ 0 ∷ 0 ∷ 0 ∷ [];
}
