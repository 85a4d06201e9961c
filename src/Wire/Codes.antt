-- ===== src/Wire/Codes.antt =====
-- The bytes of enumerators in a parcel: the casts to `int8_t` and back.
use service_excutor.Prelude.{
  ℕ, ◌<◌, ◌^◌, ◌≡◌, refl, arith, Bool, true, false, nat_eqb, if◌then◌else◌, Option, none, some,
}
use service_excutor.Types.{
  CommandType, type_normal, type_service, type_event, type_other, ServiceCommandType,
  service_cmd_start, service_cmd_stop, service_cmd_pause, service_cmd_restart, service_cmd_info,
  service_cmd_other, NormalCommandType, normal_cmd_start, normal_cmd_close, normal_cmd_other,
  EventType, event_type_add, event_type_del, event_type_info, event_type_other, ServiceFlags,
  service_flag_normal, service_flag_event, service_flag_other, CommandFlags, cmd_flag_in,
  cmd_flag_out, cmd_flag_other, EventFlags, event_flag_none, event_flag_restart, event_flag_other,
  ResultStatus, result_status_ok, result_status_timeout, result_status_fail, result_status_secure,
  result_status_exists, ResultType, result_type_none, result_type_fd, result_type_extra,
  result_type_label, ResponseStatus, response_status_exit, response_status_signal,
  response_status_user, response_status_unknown, ResponseType, response_type_normal,
  response_type_service,
}

unfoldable pub command_type_code : CommandType → ℕ
command_type_code type_normal = 0
command_type_code type_service = 1
command_type_code type_event = 2
command_type_code (type_other n) = n

unfoldable pub command_type_of : ℕ → CommandType
command_type_of n =
    if nat_eqb n 0
    then type_normal
    else if nat_eqb n 1
    then type_service
    else if nat_eqb n 2
    then type_event
    else type_other n

unfoldable pub service_cmd_code : ServiceCommandType → ℕ
service_cmd_code service_cmd_start = 0
service_cmd_code service_cmd_stop = 1
service_cmd_code service_cmd_pause = 2
service_cmd_code service_cmd_restart = 3
service_cmd_code service_cmd_info = 4
service_cmd_code (service_cmd_other n) = n

unfoldable pub service_cmd_of : ℕ → ServiceCommandType
service_cmd_of n =
    if nat_eqb n 0
    then service_cmd_start
    else if nat_eqb n 1
    then service_cmd_stop
    else if nat_eqb n 2
    then service_cmd_pause
    else if nat_eqb n 3
    then service_cmd_restart
    else if nat_eqb n 4
    then service_cmd_info
    else service_cmd_other n

unfoldable pub normal_cmd_code : NormalCommandType → ℕ
normal_cmd_code normal_cmd_start = 0
normal_cmd_code normal_cmd_close = 1
normal_cmd_code (normal_cmd_other n) = n

unfoldable pub normal_cmd_of : ℕ → NormalCommandType
normal_cmd_of n =
    if nat_eqb n 0
    then normal_cmd_start
    else if nat_eqb n 1
    then normal_cmd_close
    else normal_cmd_other n

unfoldable pub event_type_code : EventType → ℕ
event_type_code event_type_add = 0
event_type_code event_type_del = 1
event_type_code event_type_info = 2
event_type_code (event_type_other n) = n

unfoldable pub event_type_of : ℕ → EventType
event_type_of n =
    if nat_eqb n 0
    then event_type_add
    else if nat_eqb n 1
    then event_type_del
    else if nat_eqb n 2
    then event_type_info
    else event_type_other n

unfoldable pub service_flag_code : ServiceFlags → ℕ
service_flag_code service_flag_normal = 0
service_flag_code service_flag_event = 1
service_flag_code (service_flag_other n) = n

unfoldable pub service_flag_of : ℕ → ServiceFlags
service_flag_of n =
    if nat_eqb n 0
    then service_flag_normal
    else if nat_eqb n 1
    then service_flag_event
    else service_flag_other n

unfoldable pub cmd_flag_code : CommandFlags → ℕ
cmd_flag_code cmd_flag_in = 0
cmd_flag_code cmd_flag_out = 1
cmd_flag_code (cmd_flag_other n) = n

unfoldable pub cmd_flag_of : ℕ → CommandFlags
cmd_flag_of n =
    if nat_eqb n 0 then cmd_flag_in else if nat_eqb n 1 then cmd_flag_out else cmd_flag_other n

unfoldable pub event_flag_code : EventFlags → ℕ
event_flag_code event_flag_none = 0
event_flag_code event_flag_restart = 1
event_flag_code (event_flag_other n) = n

unfoldable pub event_flag_of : ℕ → EventFlags
event_flag_of n =
    if nat_eqb n 0
    then event_flag_none
    else if nat_eqb n 1
    then event_flag_restart
    else event_flag_other n

unfoldable pub result_status_code : ResultStatus → ℕ
result_status_code result_status_ok = 0
result_status_code result_status_timeout = 1
result_status_code result_status_fail = 2
result_status_code result_status_secure = 3
result_status_code result_status_exists = 4

-- A value that names no enumerator is not modelled.
unfoldable pub result_status_of : ℕ → Option ResultStatus
result_status_of n =
    if nat_eqb n 0
    then some result_status_ok
    else if nat_eqb n 1
    then some result_status_timeout
    else if nat_eqb n 2
    then some result_status_fail
    else if nat_eqb n 3
    then some result_status_secure
    else if nat_eqb n 4
    then some result_status_exists
    else none

unfoldable pub result_type_code : ResultType → ℕ
result_type_code result_type_none = 0
result_type_code result_type_fd = 1
result_type_code result_type_extra = 2
result_type_code result_type_label = 3

unfoldable pub result_type_of : ℕ → Option ResultType
result_type_of n =
    if nat_eqb n 0
    then some result_type_none
    else if nat_eqb n 1
    then some result_type_fd
    else if nat_eqb n 2
    then some result_type_extra
    else if nat_eqb n 3
    then some result_type_label
    else none

unfoldable pub response_status_code : ResponseStatus → ℕ
response_status_code response_status_exit = 0
response_status_code response_status_signal = 1
response_status_code response_status_user = 2
response_status_code response_status_unknown = 3

unfoldable pub response_status_of : ℕ → Option ResponseStatus
response_status_of n =
    if nat_eqb n 0
    then some response_status_exit
    else if nat_eqb n 1
    then some response_status_signal
    else if nat_eqb n 2
    then some response_status_user
    else if nat_eqb n 3
    then some response_status_unknown
    else none

unfoldable pub response_type_code : ResponseType → ℕ
response_type_code response_type_normal = 0
response_type_code response_type_service = 1

unfoldable pub response_type_of : ℕ → Option ResponseType
response_type_of n =
    if nat_eqb n 0
    then some response_type_normal
    else if nat_eqb n 1
    then some response_type_service
    else none

-- An enumerator, not another value of the byte.
unfoldable pub command_type_named : CommandType → Bool
command_type_named (type_other n) = false
command_type_named _ = true

pub command_type_of-command_type_code :
    (x : CommandType)
    → command_type_named x ≡ true
    → (command_type_of (command_type_code x) ≡ x) × (command_type_code x < 2 ^ 7)
unfolding command_type_of command_type_code command_type_named
command_type_of-command_type_code type_normal h = (refl, omega arith)
command_type_of-command_type_code type_service h = (refl, omega arith)
command_type_of-command_type_code type_event h = (refl, omega arith)
command_type_of-command_type_code (type_other n) h = ground arith

-- An enumerator, not another value of the byte.
unfoldable pub service_cmd_named : ServiceCommandType → Bool
service_cmd_named (service_cmd_other n) = false
service_cmd_named _ = true

pub service_cmd_of-service_cmd_code :
    (x : ServiceCommandType)
    → service_cmd_named x ≡ true
    → (service_cmd_of (service_cmd_code x) ≡ x) × (service_cmd_code x < 2 ^ 7)
unfolding service_cmd_of service_cmd_code service_cmd_named
service_cmd_of-service_cmd_code service_cmd_start h = (refl, omega arith)
service_cmd_of-service_cmd_code service_cmd_stop h = (refl, omega arith)
service_cmd_of-service_cmd_code service_cmd_pause h = (refl, omega arith)
service_cmd_of-service_cmd_code service_cmd_restart h = (refl, omega arith)
service_cmd_of-service_cmd_code service_cmd_info h = (refl, omega arith)
service_cmd_of-service_cmd_code (service_cmd_other n) h = ground arith

-- An enumerator, not another value of the byte.
unfoldable pub normal_cmd_named : NormalCommandType → Bool
normal_cmd_named (normal_cmd_other n) = false
normal_cmd_named _ = true

pub normal_cmd_of-normal_cmd_code :
    (x : NormalCommandType)
    → normal_cmd_named x ≡ true
    → (normal_cmd_of (normal_cmd_code x) ≡ x) × (normal_cmd_code x < 2 ^ 7)
unfolding normal_cmd_of normal_cmd_code normal_cmd_named
normal_cmd_of-normal_cmd_code normal_cmd_start h = (refl, omega arith)
normal_cmd_of-normal_cmd_code normal_cmd_close h = (refl, omega arith)
normal_cmd_of-normal_cmd_code (normal_cmd_other n) h = ground arith

-- An enumerator, not another value of the byte.
unfoldable pub event_type_named : EventType → Bool
event_type_named (event_type_other n) = false
event_type_named _ = true

pub event_type_of-event_type_code :
    (x : EventType)
    → event_type_named x ≡ true
    → (event_type_of (event_type_code x) ≡ x) × (event_type_code x < 2 ^ 7)
unfolding event_type_of event_type_code event_type_named
event_type_of-event_type_code event_type_add h = (refl, omega arith)
event_type_of-event_type_code event_type_del h = (refl, omega arith)
event_type_of-event_type_code event_type_info h = (refl, omega arith)
event_type_of-event_type_code (event_type_other n) h = ground arith

-- An enumerator, not another value of the byte.
unfoldable pub service_flag_named : ServiceFlags → Bool
service_flag_named (service_flag_other n) = false
service_flag_named _ = true

pub service_flag_of-service_flag_code :
    (x : ServiceFlags)
    → service_flag_named x ≡ true
    → (service_flag_of (service_flag_code x) ≡ x) × (service_flag_code x < 2 ^ 7)
unfolding service_flag_of service_flag_code service_flag_named
service_flag_of-service_flag_code service_flag_normal h = (refl, omega arith)
service_flag_of-service_flag_code service_flag_event h = (refl, omega arith)
service_flag_of-service_flag_code (service_flag_other n) h = ground arith

-- An enumerator, not another value of the byte.
unfoldable pub cmd_flag_named : CommandFlags → Bool
cmd_flag_named (cmd_flag_other n) = false
cmd_flag_named _ = true

pub cmd_flag_of-cmd_flag_code :
    (x : CommandFlags)
    → cmd_flag_named x ≡ true
    → (cmd_flag_of (cmd_flag_code x) ≡ x) × (cmd_flag_code x < 2 ^ 7)
unfolding cmd_flag_of cmd_flag_code cmd_flag_named
cmd_flag_of-cmd_flag_code cmd_flag_in h = (refl, omega arith)
cmd_flag_of-cmd_flag_code cmd_flag_out h = (refl, omega arith)
cmd_flag_of-cmd_flag_code (cmd_flag_other n) h = ground arith

-- An enumerator, not another value of the byte.
unfoldable pub event_flag_named : EventFlags → Bool
event_flag_named (event_flag_other n) = false
event_flag_named _ = true

pub event_flag_of-event_flag_code :
    (x : EventFlags)
    → event_flag_named x ≡ true
    → (event_flag_of (event_flag_code x) ≡ x) × (event_flag_code x < 2 ^ 7)
unfolding event_flag_of event_flag_code event_flag_named
event_flag_of-event_flag_code event_flag_none h = (refl, omega arith)
event_flag_of-event_flag_code event_flag_restart h = (refl, omega arith)
event_flag_of-event_flag_code (event_flag_other n) h = ground arith

pub result_status_of-result_status_code :
    (x : ResultStatus)
    → (result_status_of (result_status_code x) ≡ some x) × (result_status_code x < 2 ^ 7)
unfolding result_status_of result_status_code
result_status_of-result_status_code result_status_ok = (refl, omega arith)
result_status_of-result_status_code result_status_timeout = (refl, omega arith)
result_status_of-result_status_code result_status_fail = (refl, omega arith)
result_status_of-result_status_code result_status_secure = (refl, omega arith)
result_status_of-result_status_code result_status_exists = (refl, omega arith)

pub result_type_of-result_type_code :
    (x : ResultType) → (result_type_of (result_type_code x) ≡ some x) × (result_type_code x < 2 ^ 7)
unfolding result_type_of result_type_code
result_type_of-result_type_code result_type_none = (refl, omega arith)
result_type_of-result_type_code result_type_fd = (refl, omega arith)
result_type_of-result_type_code result_type_extra = (refl, omega arith)
result_type_of-result_type_code result_type_label = (refl, omega arith)

pub response_status_of-response_status_code :
    (x : ResponseStatus)
    → (response_status_of (response_status_code x) ≡ some x) × (response_status_code x < 2 ^ 7)
unfolding response_status_of response_status_code
response_status_of-response_status_code response_status_exit = (refl, omega arith)
response_status_of-response_status_code response_status_signal = (refl, omega arith)
response_status_of-response_status_code response_status_user = (refl, omega arith)
response_status_of-response_status_code response_status_unknown = (refl, omega arith)

pub response_type_of-response_type_code :
    (x : ResponseType)
    → (response_type_of (response_type_code x) ≡ some x) × (response_type_code x < 2 ^ 7)
unfolding response_type_of response_type_code
response_type_of-response_type_code response_type_normal = (refl, omega arith)
response_type_of-response_type_code response_type_service = (refl, omega arith)
