-- ===== src/Names/Messages.antt =====
-- `to_string` of messages in saced/SaceMessage.cpp: the text is cut at the size of a buffer, and
-- the message keeps it.
use service_excutor.Prelude.{ℕ, ◌-◌, ◌≡◌, refl, [], ◌∷◌, ◌++◌, Text, codes, take}
use service_excutor.Types.{
  SaceReaderMessage, MessageHandlerType, message_handler_normal, message_handler_service,
  message_handler_event, message_handler_all, message_handler_unkown, MessageType,
  message_type_normal, message_type_event, c_str,
}
use service_excutor.Names.{map_id_to_name, map_type_to_name, command_to_string}

pub data EventMessageType : Type 0 where
  event_type_sigchld event_type_unkown : EventMessageType

unfoldable pub map_event_to_name : EventMessageType → Text
map_event_to_name event_type_sigchld = codes "SACE_EVENT_TYPE_SIGCHLD"
map_event_to_name event_type_unkown = codes "SACE_EVENT_TYPE_UNKOWN"

-- `snprintf` into a buffer of `n`, and the string of the buffer.
unfoldable pub snprintf : ℕ → Text → Text
snprintf n s = take (n - 1) s

-- `msgDescriptor`, which is made by the first call.
unfoldable pub described : Text → Text → Text
described [] text = text
described (c ∷ d) text = c ∷ d

abbrev pub kind_text : MessageHandlerType → MessageType → Text
kind_text h t =
    codes "={ msgHandler=" ++ map_id_to_name h ++ codes " msgType=" ++ map_type_to_name t

abbrev pub header_text : MessageHandlerType → MessageType → Text
header_text h t = codes "SaceMessageHeader" ++ kind_text h t ++ codes " }"

unfoldable pub header_to_string : Text → MessageHandlerType → MessageType → Text
unfolding described snprintf
header_to_string d h t = described d (snprintf 100 (header_text h t))

unfoldable pub reader_to_string : (ℕ → Text) → Text → SaceReaderMessage → Text
unfolding described snprintf
reader_to_string show d m = described d (
    snprintf 1024 (
      codes "SaceReaderMessage"
      ++ kind_text m.msg_handler m.msg_type
      ++ codes " msgCmd="
      ++ c_str (command_to_string show m.msg_cmd)
      ++ codes " }"))

unfoldable pub event_to_string : Text → MessageHandlerType → MessageType → EventMessageType → Text
unfolding described snprintf
event_to_string d h t e = described d (
    snprintf 1024 (
      codes "SaceEventMessage"
      ++ kind_text h t
      ++ codes " msgEvent="
      ++ map_event_to_name e
      ++ codes " }"))

-- A header's text is never cut.
pub header_to_string_lem :
    (h : MessageHandlerType) (t : MessageType) → header_to_string [] h t ≡ header_text h t
unfolding header_to_string described snprintf map_id_to_name map_type_to_name
header_to_string_lem message_handler_normal message_type_normal = refl
header_to_string_lem message_handler_normal message_type_event = refl
header_to_string_lem message_handler_service message_type_normal = refl
header_to_string_lem message_handler_service message_type_event = refl
header_to_string_lem message_handler_event message_type_normal = refl
header_to_string_lem message_handler_event message_type_event = refl
header_to_string_lem message_handler_all message_type_normal = refl
header_to_string_lem message_handler_all message_type_event = refl
header_to_string_lem message_handler_unkown message_type_normal = refl
header_to_string_lem message_handler_unkown message_type_event = refl

-- A message is described as it was at the first call, whatever it is at a later one.
pub reader_to_string-again :
    (show : ℕ → Text) (d : Text) (m n : SaceReaderMessage)
    → reader_to_string show (reader_to_string show d m) n ≡ reader_to_string show d m
unfolding reader_to_string described snprintf
reader_to_string-again show [] m n = refl
reader_to_string-again show (c ∷ d) m n = refl
