-- ===== src/Websocket/Message.antt =====
-- internal/websocket/hub/message.go. JSON encoding is a parameter of the functions that use it;
-- times are Unix seconds.
use go_chat_msa.Common.{ℕ, String, Option, none, some}

abbrev pub msg_type_chat : String
msg_type_chat = "chat"

abbrev pub msg_type_conflict : String
msg_type_conflict = "conflict"

abbrev pub msg_type_system : String
msg_type_system = "system"

abbrev pub system_sender_id : String
system_sender_id = "system"

pub record Message : Type 0 where
  pub id : String
  pub room_id : String
  pub sender_id : String
  pub content : String
  pub client_msg_id : String
  pub type : String
  pub sequence_number : ℕ  -- int64
  pub timestamp : ℕ
  pub received_at : Option ℕ  -- time.Time, `none` for the zero value

pub record IncomingRequest : Type 0 where
  pub content : String
  pub client_msg_id : String
  pub type : String

-- A message with only the fields that the hub and the sessions set themselves.
abbrev pub notice : String → String → String → ℕ → Message
notice type room_id content timestamp = record {
  id = "";
  room_id = room_id;
  sender_id = system_sender_id;
  content = content;
  client_msg_id = "";
  type = type;
  sequence_number = 0;
  timestamp = timestamp;
  received_at = none;
}

-- `NewSystemMessage`; the first argument is what uuid.NewV7 returned.
unfoldable pub new_system_message : Option String → ℕ → String → String → Option Message
new_system_message none now room_id content = none
new_system_message (some id) now room_id content =
    let m : Message = notice msg_type_system room_id content now in
    some (record m { client_msg_id = id })
