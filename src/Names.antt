-- ===== src/Names.antt =====
-- The names of enumerators in log messages: the functions `map...Str` of libsace/SaceTypes.cpp and
-- libsace/SaceServiceInfo.cpp, and `mapIdToName` and `mapTypeToName` of saced/SaceMessage.cpp; and
-- `to_string` of commands, results and responses, over the decimal numbers of the C++ library.
pub mod Messages
use service_excutor.Prelude.{ℕ, [], ◌++◌, Text, codes, none, some}
use service_excutor.Types.{
  SaceCommand, SaceResult, SaceStatusResponse, Payload, normal_payload, service_payload,
  event_payload, other_payload, payload_type, ServiceState, service_paused, service_stoped,
  service_running, service_died, service_died_signal, service_died_unknown, service_finished,
  service_finishing_user, service_finished_user, service_unknown, MessageType, message_type_normal,
  message_type_event, CommandType, type_normal, type_service, type_event, type_other,
  ServiceCommandType, service_cmd_info, service_cmd_stop, service_cmd_start, service_cmd_pause,
  service_cmd_restart, service_cmd_other, ServiceFlags, service_flag_normal, service_flag_event,
  service_flag_other, NormalCommandType, normal_cmd_start, normal_cmd_close, normal_cmd_other,
  CommandFlags, cmd_flag_in, cmd_flag_out, cmd_flag_other, EventFlags, event_flag_restart,
  event_flag_none, event_flag_other, EventType, event_type_add, event_type_del, event_type_info,
  event_type_other, ResultType, result_type_fd, result_type_none, result_type_label,
  result_type_extra, ResultStatus, result_status_ok, result_status_fail, result_status_secure,
  result_status_timeout, result_status_exists, ResponseStatus, response_status_exit,
  response_status_signal, response_status_user, response_status_unknown, ResponseType,
  response_type_normal, response_type_service, MessageHandlerType, message_handler_normal,
  message_handler_service, message_handler_event, message_handler_all, message_handler_unkown,
}

unfoldable pub map_cmd_type_str : CommandType → Text
map_cmd_type_str type_normal = codes "SACE_TYPE_NORMAL"
map_cmd_type_str type_service = codes "SACE_TYPE_SERVICE"
map_cmd_type_str type_event = codes "SACE_TYPE_EVENT"
map_cmd_type_str (type_other n) = codes "UNKNOWN"

unfoldable pub map_service_cmd_type_str : ServiceCommandType → Text
map_service_cmd_type_str service_cmd_info = codes "SACE_SERVICE_CMD_INFO"
map_service_cmd_type_str service_cmd_stop = codes "SACE_SERVICE_CMD_STOP"
map_service_cmd_type_str service_cmd_start = codes "SACE_SERVICE_CMD_START"
map_service_cmd_type_str service_cmd_pause = codes "SACE_SERVICE_CMD_PAUSE"
map_service_cmd_type_str service_cmd_restart = codes "SACE_SERVICE_CMD_RESTART"
map_service_cmd_type_str (service_cmd_other n) = codes "UNKNOWN"

unfoldable pub map_service_flag_str : ServiceFlags → Text
map_service_flag_str service_flag_normal = codes "SACE_SERVICE_FLAG_NORMAL"
map_service_flag_str service_flag_event = codes "SACE_SERVICE_FLAG_EVENT"
map_service_flag_str (service_flag_other n) = codes "UNKNOWN"

unfoldable pub map_normal_cmd_type_str : NormalCommandType → Text
map_normal_cmd_type_str normal_cmd_start = codes "SACE_NORMAL_CMD_START"
map_normal_cmd_type_str normal_cmd_close = codes "SACE_NORMAL_CMD_CLOSE"
map_normal_cmd_type_str (normal_cmd_other n) = codes "UNKNOWN"

unfoldable pub map_normal_cmd_flag_str : CommandFlags → Text
map_normal_cmd_flag_str cmd_flag_in = codes "SACE_CMD_FLAG_IN"
map_normal_cmd_flag_str cmd_flag_out = codes "SACE_CMD_FLAG_OUT"
map_normal_cmd_flag_str (cmd_flag_other n) = codes "UNKNOWN"

unfoldable pub map_event_flag_str : EventFlags → Text
map_event_flag_str event_flag_restart = codes "SACE_EVENT_FLAG_RESTART"
map_event_flag_str event_flag_none = codes "SACE_EVENT_FLAG_NONE"
map_event_flag_str (event_flag_other n) = codes "UNKNOWN"

unfoldable pub map_event_type_str : EventType → Text
map_event_type_str event_type_add = codes "SACE_EVENT_TYPE_ADD"
map_event_type_str event_type_del = codes "SACE_EVENT_TYPE_DEL"
map_event_type_str event_type_info = codes "SACE_EVENT_TYPE_INFO"
map_event_type_str (event_type_other n) = codes "UNKNOWN"

unfoldable pub map_result_type_str : ResultType → Text
map_result_type_str result_type_fd = codes "SACE_RESULT_TYPE_FD"
map_result_type_str result_type_none = codes "SACE_RESULT_TYPE_NONE"
map_result_type_str result_type_label = codes "SACE_RESULT_TYPE_LABEL"
map_result_type_str result_type_extra = codes "SACE_RESULT_TYPE_EXTRA"

unfoldable pub map_result_status_str : ResultStatus → Text
map_result_status_str result_status_ok = codes "SACE_RESULT_STATUS_OK"
map_result_status_str result_status_fail = codes "SACE_RESULT_STATUS_FAIL"
map_result_status_str result_status_secure = codes "SACE_RESULT_STATUS_SECURE"
map_result_status_str result_status_timeout = codes "SACE_RESULT_STATUS_TIMEOUT"
map_result_status_str result_status_exists = codes "UNKNOWN"

unfoldable pub map_status_str : ResponseStatus → Text
map_status_str response_status_exit = codes "SACE_RESPONSE_STATUS_EXIT"
map_status_str response_status_signal = codes "SACE_RESPONSE_STATUS_SIGNAL"
map_status_str response_status_user = codes "SACE_RESPONSE_STATUS_USER"
map_status_str response_status_unknown = codes "SACE_RESPONSE_STATUS_UNKNOWN"

unfoldable pub map_type_str : ResponseType → Text
map_type_str response_type_normal = codes "SACE_RESPONSE_TYPE_NORMAL"
map_type_str response_type_service = codes "SACE_RESPONSE_TYPE_SERVICE"

unfoldable pub map_id_to_name : MessageHandlerType → Text
map_id_to_name message_handler_normal = codes "SACE_MESSAGE_HANDLER_NORMAL"
map_id_to_name message_handler_service = codes "SACE_MESSAGE_HANDLER_SERVICE"
map_id_to_name message_handler_event = codes "SACE_MESSAGE_HANDLER_EVENT"
map_id_to_name message_handler_all = codes "SACE_MESSAGE_HANDLER_ALL"
map_id_to_name message_handler_unkown = codes "UNKNOWN"

-- The states that have no case are named as those that name no enumerator.
unfoldable pub map_state_str : ServiceState → Text
map_state_str service_running = codes "SERVICE_RUNNING"
map_state_str service_paused = codes "SERVICE_PAUSED"
map_state_str service_died = codes "SERVICE_DIED"
map_state_str service_stoped = codes "SERVICE_STOPED"
map_state_str service_finished = codes "SERVICE_FINISHED"
map_state_str service_died_signal = codes "UNKOWN"
map_state_str service_died_unknown = codes "UNKOWN"
map_state_str service_finishing_user = codes "UNKOWN"
map_state_str service_finished_user = codes "UNKOWN"
map_state_str service_unknown = codes "UNKOWN"

unfoldable pub map_type_to_name : MessageType → Text
map_type_to_name message_type_normal = codes "SACE_MESSAGE_HANDLER_NORMAL"
map_type_to_name message_type_event = codes "SACE_MESSAGE_HANDLER_EVENT"

-- The two fields of the union.
unfoldable pub payload_to_string : Payload → Text
payload_to_string (normal_payload t f) =
    codes " normalCmdType="
    ++ map_normal_cmd_type_str t
    ++ codes " flags="
    ++ map_normal_cmd_flag_str f
payload_to_string (service_payload t f) =
    codes " serviceCmdType="
    ++ map_service_cmd_type_str t
    ++ codes " flags="
    ++ map_service_flag_str f
payload_to_string (event_payload t f) =
    codes " eventType=" ++ map_event_type_str t ++ codes " eventFlags=" ++ map_event_flag_str f
payload_to_string (other_payload n) = []

module _ (show : ℕ → Text) where
  unfoldable pub command_to_string : SaceCommand → Text
  command_to_string c =
      codes "SaceCommand={"
      ++ codes "type="
      ++ map_cmd_type_str (payload_type c.payload)
      ++ codes " sequecne="
      ++ show c.sequence
      ++ codes " name="
      ++ c.name
      ++ codes " command="
      ++ c.command
      ++ payload_to_string c.payload
      ++ codes "}"

  -- No descriptor is -1, which the daemon sets where it has none.
  unfoldable pub result_to_string : SaceResult → Text
  result_to_string r =
      codes "SaceResult={"
      ++ codes "sequence="
      ++ show r.sequence
      ++ codes " name="
      ++ r.name
      ++ codes " resultType="
      ++ map_result_type_str r.result_type
      ++ codes " resultStatus="
      ++ map_result_status_str r.result_status
      ++ codes " resultFd="
      ++ (elim r.result_fd [ none ↦ codes "-1" | some fd ↦ show fd ])
      ++ codes "}"

  unfoldable pub response_to_string : SaceStatusResponse → Text
  response_to_string r =
      codes "SaceStatusResponse={"
      ++ codes "sequence="
      ++ show r.label
      ++ codes " name="
      ++ r.name
      ++ codes " type="
      ++ map_type_str r.type
      ++ codes " status="
      ++ map_status_str r.status
      ++ codes "}"
