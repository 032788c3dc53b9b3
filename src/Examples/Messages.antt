-- ===== src/Examples/Messages.antt =====
-- A batch of two messages that meets a collection which holds them already.
use go_chat_msa.Common.{◌≡◌, refl, none, some, List, [], ◌∷◌}
use go_chat_msa.Grpc.{status, internal}
use go_chat_msa.Websocket.Message
use go_chat_msa.Websocket.Hub.{PersistTask}
use go_chat_msa.Websocket.Persistence
use go_chat_msa.Websocket.Persistence.{State, settle_save, enqueue_persist_retry}
use go_chat_msa.Chat.Repository.{
  Message, WriteError, inserted, bulk_error, find_error, Collection, kind_of, is_sequence_duplicate,
  is_client_message_duplicate, save_many, write_errors,
}
use go_chat_msa.Chat.Service.{
  Env, Config, messages_from, message_from_request, batch_create_messages,
}
use go_chat_msa.Chat.Store.{returns, request_of, save_tasks}
use go_chat_msa.Chat.Saving.{CarryAll, Accepted, bulk_settled, batch_ok}
use go_chat_msa.Examples.Hubs.{message}

abbrev config : Config
config = record {
  max_length = 2000;
  history_default = 50;
  history_max = 100;
  sync_default = 100;
  sync_max = 300;
}

abbrev env : Env
env = record {
  config = config;
  parse = λ s. some (record { text = s; v7_time = some 7 });
  new_v7 = λ n. none;
  now = λ n. 9;
}

abbrev empty : Collection
empty = record { insert_many = λ ms. inserted; find = λ q. none; find_one = λ r. find_error }

-- The index of _id is the first that an insertion meets.
abbrev duplicate : WriteError
duplicate = record { code = 11000; message = "E11000 duplicate key error index: _id_" }

abbrev full : Collection
full = record empty { insert_many = λ ms. bulk_error (duplicate ∷ []) }

abbrev sent : Message.Message
sent = record message { id = "0190"; sequence_number = 42 }

abbrev task : PersistTask
task = record { msg = sent; hub = 1 }

abbrev state : State
state = record { retry_ch = []; acked = []; calls = 0 }

abbrev worker : Persistence.Env
worker = record { save = none; now = 0; rand = λ n. 0 }

abbrev stored : Message
stored = record {
  id = "0190";
  room_id = "room";
  sender_id = "ann";
  content = "hello";
  client_msg_id = "c1";
  type = "chat";
  sequence_number = 42;
  created_at = 7;
}

bulk_settled_example :
    settle_save worker (task ∷ []) (save_tasks env full returns (task ∷ [])) state
    ≡ enqueue_persist_retry worker (task ∷ []) (status internal) state
unfolding messages_from message_from_request request_of kind_of is_sequence_duplicate
    is_client_message_duplicate
bulk_settled_example =
    bulk_settled env full worker task [] stored [] (duplicate ∷ []) state refl refl

-- The client sent the message before.
abbrev repeated : Collection
repeated = record empty {
  insert_many = λ ms. bulk_error (
      record { code = 11000; message = "E11000 duplicate key error index: unique_room_client_msg" }
      ∷ []);
}

batch_ok_example :
    (ms : List Message) × CarryAll env (request_of sent ∷ []) ms
    × Accepted (repeated.insert_many ms)
unfolding batch_create_messages messages_from message_from_request request_of save_many write_errors
    kind_of is_sequence_duplicate is_client_message_duplicate
batch_ok_example = batch_ok env repeated (request_of sent) [] refl
