-- ===== src/Client/Calls.antt =====
-- A client's call of the daemon: the command after `SaceCommand::init`, and what comes back in the
-- extra field. The sender is a parameter: its answer, and the number that the next command takes.
use service_excutor.Prelude.{
  ℕ, List, [], Option, none, some, Text, length, nat_eqb, if◌then◌else◌, take, drop,
}
use service_excutor.Types.{
  SaceCommand, SaceResult, ServiceState, normal_payload, normal_cmd_start, cmd_flag_in, of_bytes,
  c_str, service_paused, service_stoped, service_running, service_died, service_died_signal,
  service_died_unknown, service_finished, service_finishing_user, service_finished_user,
  service_unknown,
}

-- `excute` is none where the daemon's side is undefined; `tick` counts and gives the number.
pub record CommandSender (S : Type 0) : Type 0 where
  pub self_name : Text
  pub tick : S → ℕ × S
  pub excute : SaceCommand → S → Option (SaceResult × S)

-- `SaceCommand::init`.
unfoldable pub init_command : Text → ℕ → SaceCommand
init_command self_name number = record {
  sequence = number;
  label = 0;
  name = self_name;
  command = [];
  params = none;
  extra = [];
  payload = normal_payload normal_cmd_start cmd_flag_in;
}

-- A command that `init` made and `edit` filled in is sent.
unfoldable pub send :
    {S : Type 0} → CommandSender S → (SaceCommand → SaceCommand) → S → Option (SaceResult × S)
send x edit s = let (n, t) = x.tick s in x.excute (edit (init_command x.self_name n)) t

-- `memcpy` of the extra field into a label that was not set: other than eight bytes leave a part
-- of it unset or go past it.
unfoldable pub copied_label : List ℕ → Option ℕ
copied_label extra = if nat_eqb (length extra) 8 then some (of_bytes extra) else none

-- A number that is read as `enum ServiceState`: none, if it names no state.
unfoldable pub state_of : ℕ → Option ServiceState
state_of n =
    if nat_eqb n 0
    then some service_paused
    else if nat_eqb n 1
    then some service_stoped
    else if nat_eqb n 2
    then some service_running
    else if nat_eqb n 3
    then some service_died
    else if nat_eqb n 4
    then some service_died_signal
    else if nat_eqb n 5
    then some service_died_unknown
    else if nat_eqb n 6
    then some service_finished
    else if nat_eqb n 7
    then some service_finishing_user
    else if nat_eqb n 8
    then some service_finished_user
    else if nat_eqb n 9
    then some service_unknown
    else none

-- `struct ServiceInfo` as a client reads it, its texts up to the first NUL.
pub record CopiedInfo : Type 0 where
  pub name : Text
  pub cmd : Text
  pub state : Option ServiceState
  pub label : ℕ

abbrev pub sizeof_service_info : ℕ
sizeof_service_info = 208

-- `memcpy` of the extra field into a `struct ServiceInfo` that was not set.
unfoldable pub copied_info : List ℕ → Option CopiedInfo
copied_info extra =
    if nat_eqb (length extra) sizeof_service_info
    then some (record {
      name = c_str extra;
      cmd = c_str (drop 64 extra);
      state = state_of (of_bytes (take 4 (drop 192 extra)));
      label = of_bytes (take 8 (drop 200 extra));
    })
    else none
