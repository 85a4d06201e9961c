-- ===== src/Client/Objects.antt =====
-- `SaceCmdObj`, `SaceCommandObj` and `SaceServiceObj`: what a client holds of a command or a
-- service.
use service_excutor.Prelude.{
  ℕ, Bool, true, false, Option, none, some, Text, codes, nat_eqb, if◌then◌else◌, ◌>>=◌,
}
use service_excutor.Types.{
  SaceResult, ResultStatus, ServiceState, result_status_ok, result_status_timeout,
  result_status_fail, result_status_secure, result_status_exists, service_died_unknown,
  normal_payload, normal_cmd_close, cmd_flag_in, service_payload, ServiceCommandType,
  service_cmd_stop, service_cmd_pause, service_cmd_restart, service_cmd_info, service_flag_normal,
}
use service_excutor.Client.Calls.{CommandSender, send, copied_info}

pub data ErrorCode : Type 0 where
  err_ok err_timeout err_exit err_exit_user err_not_exists err_unknown : ErrorCode

pub data Exception : Type 0 where
  unsupported_operation remote_exception invalid_operation : Exception

-- How a call ends: it returns, throws, or throws what its specification does not list, which ends
-- the client's process (`std::unexpected`).
pub data Outcome (A : Type 0) : Type 0 where
  returned : A → Outcome A
  threw : Exception → Outcome A
  terminated : Outcome A

-- `label` is none in an object that was made of an error, which has no sender either.
pub record ServiceObj : Type 0 where
  pub error : ErrorCode
  pub label : Option ℕ
  pub name : Text
  pub command : Text

-- `reads` is the field `in`, which an object that was made of an error does not set.
pub record CommandObj : Type 0 where
  pub error : ErrorCode
  pub label : Option ℕ
  pub cmd : Text
  pub fd : Option ℕ
  pub reads : Option Bool

unfoldable pub failed_service : ErrorCode → ServiceObj
failed_service code = record {
  error = code;
  label = none;
  name = codes "unknown";
  command = codes "unknown";
}

unfoldable pub new_service_obj : ℕ → Text → Text → ServiceObj
new_service_obj label name cmd = record {
  error = err_ok;
  label = some label;
  name = name;
  command = cmd;
}

unfoldable pub failed_command : ErrorCode → CommandObj
failed_command code = record {
  error = code;
  label = none;
  cmd = codes "unknown";
  fd = none;
  reads = none;
}

unfoldable pub new_command_obj : ℕ → Text → Option ℕ → Bool → CommandObj
new_command_obj label cmd fd reads = record {
  error = err_ok;
  label = some label;
  cmd = cmd;
  fd = fd;
  reads = some reads;
}

unfoldable pub is_ok : ResultStatus → Bool
is_ok result_status_ok = true
is_ok result_status_timeout = false
is_ok result_status_fail = false
is_ok result_status_secure = false
is_ok result_status_exists = false

-- The checks before a command is read or written: they list two exceptions, and a third is thrown.
-- What passes uses the descriptor.
unfoldable pub pipe_guard : CommandObj → Outcome (Option ℕ)
pipe_guard o = elim o.error [
  | err_unknown ↦ threw remote_exception
  | err_exit ↦ threw remote_exception
  | err_exit_user ↦ terminated
  | err_ok ↦ returned o.fd
  | err_timeout ↦ returned o.fd
  | err_not_exists ↦ returned o.fd
]

-- `SaceCommandObj::read` up to the system's read; none where a field is used that was not set.
unfoldable pub read : CommandObj → Option (Outcome (Option ℕ))
read o = o.reads >>= λ reads. some (if reads then pipe_guard o else threw unsupported_operation)

unfoldable pub write : CommandObj → Option (Outcome (Option ℕ))
write o = o.reads >>= λ reads. some (if reads then threw unsupported_operation else pipe_guard o)

unfoldable pub is_closed : ErrorCode → Bool
is_closed err_ok = false
is_closed err_timeout = false
is_closed err_exit = true
is_closed err_exit_user = true
is_closed err_not_exists = false
is_closed err_unknown = true

-- What a call of a service's object may do: a status that is checked first.
unfoldable pub service_guard : ErrorCode → Option (Outcome Bool)
service_guard err_unknown = some (threw remote_exception)
service_guard err_not_exists = some (threw remote_exception)
service_guard err_exit = some (threw remote_exception)
service_guard err_exit_user = some terminated
service_guard err_ok = none
service_guard err_timeout = none

module _ {S : Type 0} (x : CommandSender S) where
  -- `close`: the descriptor that is closed, the object and the sender. A call through a sender
  -- that is null is undefined.
  unfoldable pub close : CommandObj → S → Option (Option ℕ × CommandObj × S)
  close o s =
      if is_closed o.error
      then some (none, o, s)
      else (o.label >>= λ label.
          send x
            (λ c. record c { label = label; payload = normal_payload normal_cmd_close cmd_flag_in })
            s
          >>= λ (r, t).
              some (
                o.fd,
                (if is_ok r.result_status then record o { error = err_exit_user } else o),
                t,
              ))

  unfoldable pub service_command : ServiceCommandType → ℕ → S → Option (SaceResult × S)
  service_command kind label s =
      send x (λ c. record c { label = label; payload = service_payload kind service_flag_normal }) s

  -- `stop`, `pause` and `restart`, which differ in the command they send.
  unfoldable pub control : ServiceCommandType → ServiceObj → S → Option (Outcome Bool × S)
  control kind o s = elim (service_guard o.error) [
    | some e ↦ some (e, s)
    | none ↦ o.label >>= λ label.
        if nat_eqb label 0
        then some (returned false, s)
        else (service_command kind label s >>= λ (r, t). some (returned (is_ok r.result_status), t))
  ]

  unfoldable pub stop : ServiceObj → S → Option (Outcome Bool × S)
  stop = control service_cmd_stop

  unfoldable pub pause : ServiceObj → S → Option (Outcome Bool × S)
  pause = control service_cmd_pause

  unfoldable pub restart : ServiceObj → S → Option (Outcome Bool × S)
  restart = control service_cmd_restart

  unfoldable pub info_by_label : ℕ → S → Option (SaceResult × S)
  info_by_label label s =
      send x
        (λ c. record c {
          label = label;
          command = codes "GET_BY_LABEL";
          payload = service_payload service_cmd_info service_flag_normal;
        })
        s

  unfoldable pub ask_state : ServiceObj → S → Option (Outcome (Option ServiceState) × S)
  ask_state o s = o.label >>= λ label. info_by_label label s >>= λ (r, t).
      if is_ok r.result_status
      then (copied_info r.result_extra >>= λ info. some (returned info.state, t))
      else some (returned (some service_died_unknown), t)

  -- `getState`; a state that the daemon sends and that has no name is none.
  unfoldable pub get_state : ServiceObj → S → Option (Outcome (Option ServiceState) × S)
  get_state o s = elim o.error [
    | err_exit ↦ some (threw remote_exception, s)
    | err_exit_user ↦ some (threw invalid_operation, s)
    | err_ok ↦ ask_state o s
    | err_timeout ↦ ask_state o s
    | err_not_exists ↦ ask_state o s
    | err_unknown ↦ ask_state o s
  ]
