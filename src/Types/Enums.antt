-- ===== src/Types/Enums.antt =====
-- The enumerations of libsace/SaceTypes.h, libsace/include/sace/SaceServiceInfo.h and
-- saced/SaceMessage.h. Those that are cast from a byte of a client's message have a constructor
-- `…_other` for the values that name no enumerator.
use service_excutor.Prelude.{ℕ, Bool, true, false, nat_eqb}

pub data CommandType : Type 0 where
  type_normal type_service type_event : CommandType
  type_other : ℕ → CommandType

pub data ServiceCommandType : Type 0 where
  service_cmd_start service_cmd_stop service_cmd_pause service_cmd_restart service_cmd_info :
      ServiceCommandType
  service_cmd_other : ℕ → ServiceCommandType

pub data NormalCommandType : Type 0 where
  normal_cmd_start normal_cmd_close : NormalCommandType
  normal_cmd_other : ℕ → NormalCommandType

pub data EventType : Type 0 where
  event_type_add event_type_del event_type_info : EventType
  event_type_other : ℕ → EventType

pub data ServiceFlags : Type 0 where
  service_flag_normal service_flag_event : ServiceFlags
  service_flag_other : ℕ → ServiceFlags

pub data CommandFlags : Type 0 where
  cmd_flag_in cmd_flag_out : CommandFlags
  cmd_flag_other : ℕ → CommandFlags

pub data EventFlags : Type 0 where
  event_flag_none event_flag_restart : EventFlags
  event_flag_other : ℕ → EventFlags

pub data ResultStatus : Type 0 where
  result_status_ok result_status_timeout result_status_fail result_status_secure
        result_status_exists :
      ResultStatus

pub data ResultType : Type 0 where
  result_type_none result_type_fd result_type_extra result_type_label : ResultType

pub data ResponseStatus : Type 0 where
  response_status_exit response_status_signal response_status_user response_status_unknown :
      ResponseStatus

pub data ResponseType : Type 0 where
  response_type_normal response_type_service : ResponseType

pub data ServiceState : Type 0 where
  service_paused service_stoped service_running service_died service_died_signal
        service_died_unknown service_finished service_finishing_user service_finished_user
        service_unknown :
      ServiceState

pub data MessageHandlerType : Type 0 where
  message_handler_unkown message_handler_normal message_handler_service message_handler_event
        message_handler_all :
      MessageHandlerType

pub data MessageType : Type 0 where
  message_type_normal message_type_event : MessageType

-- The value of an enumerator.
unfoldable pub state_code : ServiceState → ℕ
state_code service_paused = 0
state_code service_stoped = 1
state_code service_running = 2
state_code service_died = 3
state_code service_died_signal = 4
state_code service_died_unknown = 5
state_code service_finished = 6
state_code service_finishing_user = 7
state_code service_finished_user = 8
state_code service_unknown = 9

-- `==` on `enum SaceServiceFlags`.
unfoldable pub same_flags : ServiceFlags → ServiceFlags → Bool
same_flags service_flag_normal service_flag_normal = true
same_flags service_flag_event service_flag_event = true
same_flags (service_flag_other m) (service_flag_other n) = nat_eqb m n
same_flags _ _ = false

-- `==` on `enum SaceMessageHandlerType`.
unfoldable pub same_handler : MessageHandlerType → MessageHandlerType → Bool
same_handler message_handler_unkown message_handler_unkown = true
same_handler message_handler_normal message_handler_normal = true
same_handler message_handler_service message_handler_service = true
same_handler message_handler_event message_handler_event = true
same_handler message_handler_all message_handler_all = true
same_handler _ _ = false
