-- ===== src/Types/Records.antt =====
-- The classes of libsace/SaceTypes.h, libsace/include/sace/SaceParams.h (the client's form),
-- saced/SaceMessage.h and saced/SaceWriter.h. `extra` with `extraLen` is the list of the bytes in
-- use. The union of command type and flags is a sum, so its arm is the one that `type` names.
use service_excutor.Prelude.{ℕ, Bool, List, [], Text, Option, none, nat_eqb}
use service_excutor.Types.Enums.{
  CommandType, type_normal, type_service, type_event, type_other, ServiceCommandType,
  NormalCommandType, EventType, ServiceFlags, CommandFlags, EventFlags, ResultStatus,
  result_status_ok, ResultType, result_type_none, ResponseStatus, response_status_exit,
  ResponseType, response_type_service, MessageHandlerType, MessageType,
}

pub record SaceCommandParams : Type 0 where
  pub uid : Text
  pub gid : Text
  pub supp_gids : List Text
  pub rlimits : List Text
  pub seclabel : Text
  pub capabilities : List Bool

pub record SaceEventParams : Type 0 where
  pub base : SaceCommandParams
  pub open base use *
  pub property_key : List Text
  pub property_value : List Text
  pub boot : Bool

-- `shared_ptr<SaceCommandParams>`, which may point to an object of the subclass.
pub data Params : Type 0 where
  command_params : SaceCommandParams → Params
  event_params : SaceEventParams → Params

pub data Payload : Type 0 where
  normal_payload : NormalCommandType → CommandFlags → Payload
  service_payload : ServiceCommandType → ServiceFlags → Payload
  event_payload : EventType → EventFlags → Payload
  other_payload : ℕ → Payload

unfoldable pub payload_type : Payload → CommandType
payload_type (normal_payload t f) = type_normal
payload_type (service_payload t f) = type_service
payload_type (event_payload t f) = type_event
payload_type (other_payload n) = type_other n

pub record SaceCommand : Type 0 where
  pub sequence : ℕ
  pub label : ℕ
  pub name : Text
  pub command : Text
  pub params : Option Params
  pub extra : List ℕ
  pub payload : Payload

-- `resultFd` is not set by the constructor, nor where there is no descriptor.
pub record SaceResult : Type 0 where
  pub sequence : ℕ
  pub name : Text
  pub result_type : ResultType
  pub result_status : ResultStatus
  pub result_extra : List ℕ
  pub result_fd : Option ℕ

unfoldable pub new_result : SaceResult
new_result = record {
  sequence = 0;
  name = [];
  result_type = result_type_none;
  result_status = result_status_ok;
  result_extra = [];
  result_fd = none;
}

pub record SaceStatusResponse : Type 0 where
  pub label : ℕ
  pub name : Text
  pub type : ResponseType
  pub status : ResponseStatus
  pub extra : List ℕ

unfoldable pub new_response : SaceStatusResponse
new_response = record {
  label = 0;
  name = [];
  type = response_type_service;
  status = response_status_exit;
  extra = [];
}

-- Where a writer sends: a client's socket, a binder client with its listener if it registered
-- one, the pipe of the event excutor, or nowhere (`SaceEventStopWriter`).
pub data Channel : Type 0 where
  socket_writer : ℕ → Channel
  binder_writer : Option ℕ → Channel
  event_writer stop_writer : Channel

-- `mId` is the client's pid, as a bit pattern of 32 bits.
pub record SaceWriter : Type 0 where
  pub id : ℕ
  pub channel : Channel

-- `SaceWriter::operator==`, at a writer that is not null.
unfoldable pub same_writer : SaceWriter → SaceWriter → Bool
same_writer v w = nat_eqb v.id w.id

pub record SaceReaderMessage : Type 0 where
  pub msg_handler : MessageHandlerType
  pub msg_type : MessageType
  pub msg_cmd : SaceCommand
  pub msg_writer : SaceWriter

-- What the daemon does to the outside, in order.
pub data Effect : Type 0 where
  kill : ℕ → ℕ → Effect
  send_result : SaceWriter → SaceResult → Effect
  send_response : SaceWriter → SaceStatusResponse → Effect
  close_fd : ℕ → Effect
  wait_pid : ℕ → Effect
