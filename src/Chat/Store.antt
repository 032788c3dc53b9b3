-- ===== src/Chat/Store.antt =====
-- internal/websocket/store.go: the message store of a hub, which calls the chat service over gRPC.
use go_chat_msa.Common.{ℕ, String, Option, none, some, List, map}
use go_chat_msa.Grpc.{Code, Error, status}
use go_chat_msa.Websocket.Message
use go_chat_msa.Websocket.Hub.{PersistTask}
use go_chat_msa.Chat.Repository.{Collection}
use go_chat_msa.Chat.Service.{Request, Env, ok, err, batch_create_messages, last_sequence}

-- What gRPC does to a call: it comes back, or it fails with an error of its own, the call being
-- carried out or not.
pub data Rpc : Type 0 where
  returns : Rpc
  fails : Error → Rpc

unfoldable pub request_of : Message.Message → Request
request_of m = record {
  room_id = m.room_id;
  sender_id = m.sender_id;
  content = m.content;
  client_msg_id = m.client_msg_id;
  type = m.type;
  sequence_number = m.sequence_number;
  message_id = m.id;
}

abbrev pub error_of : Option Code → Option Error
error_of none = none
error_of (some c) = some (status c)

module _ (e : Env) (c : Collection) where
  -- `chatStoreAdapter.SaveMany`, of the messages of some tasks.
  unfoldable pub save_tasks : Rpc → List PersistTask → Option Error
  save_tasks (fails x) ts = some x
  save_tasks returns ts = error_of (batch_create_messages e c (map (λ t. request_of t.msg) ts))

  -- `chatStoreAdapter.GetLastSequenceNumber`, the error as an error of gRPC.
  unfoldable pub stored_sequence : Rpc → String → Option ℕ
  stored_sequence (fails x) room_id = none
  stored_sequence returns room_id = elim (last_sequence e c room_id) [
    | ok n ↦ some n
    | err x ↦ none
  ]
