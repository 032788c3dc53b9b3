-- ===== src/Chat/Service.antt =====
-- internal/chat/service.go. uuid.Parse, uuid.NewV7 and the clock are parameters.
use Prim.Native.String.{count}
use go_chat_msa.Common.{
  ℕ, ◌+◌, ◌-◌, String, Bool, ◌||◌, Option, none, some, List, [], ◌∷◌, ltb, str_eq, if◌then◌else◌,
  mod_64, mod_32, min_32, sle_64, slt_64,
}
use go_chat_msa.Grpc.{Code, invalid_argument, aborted, internal}
use go_chat_msa.Chat.Repository.{
  Message, Collection, SaveError, sequence_conflict, insert_failed, save_many, get_history,
  sync_messages, get_last_sequence_number,
}

pub record Request : Type 0 where
  pub room_id : String
  pub sender_id : String
  pub content : String
  pub client_msg_id : String
  pub type : String
  pub sequence_number : ℕ
  pub message_id : String

-- A parsed uuid: its text, and its time where the version is 7.
pub record Uuid : Type 0 where
  pub text : String
  pub v7_time : Option ℕ

-- MaxLength is an int, the limits are int64.
pub record Config : Type 0 where
  pub max_length : ℕ
  pub history_default : ℕ
  pub history_max : ℕ
  pub sync_default : ℕ
  pub sync_max : ℕ

-- The number of the call tells the answers of uuid.NewV7 and time.Now apart.
pub record Env : Type 0 where
  pub config : Config
  pub parse : String → Option Uuid
  pub new_v7 : ℕ → Option Uuid
  pub now : ℕ → ℕ

pub data Result (A : Type 0) : Type 0 where
  ok : A → Result A
  err : Code → Result A

abbrev pub or_else : Option ℕ → ℕ → ℕ
or_else none n = n
or_else (some m) n = m

-- int64(x) of an int32.
unfoldable pub extend_32 : ℕ → ℕ
extend_32 a = if ltb a min_32 then a else a + (mod_64 - mod_32)

-- The limit of a page.
unfoldable pub page_limit : ℕ → ℕ → ℕ → ℕ
page_limit default most limit =
    if sle_64 (extend_32 limit) 0
    then default
    else if slt_64 most (extend_32 limit)
    then most
    else extend_32 limit

module _ (e : Env) where
  open e use {config, parse, new_v7, now}

  abbrev pub document : ℕ → Request → Uuid → Message
  document n r id = record {
    id = id.text;
    room_id = r.room_id;
    sender_id = r.sender_id;
    content = r.content;
    type = r.type;
    client_msg_id = r.client_msg_id;
    sequence_number = r.sequence_number;
    created_at = or_else id.v7_time (now n);
  }

  abbrev pub identified : ℕ → Request → Option Uuid → Result Message
  identified n r none = err internal
  identified n r (some id) = ok (document n r id)

  -- `messageFromRequest` of the request with this number.
  unfoldable pub message_from_request : ℕ → Request → Result Message
  message_from_request n r =
      if ltb config.max_length (count r.content)
      then err invalid_argument
      else identified n r (if str_eq r.message_id "" then new_v7 n else parse r.message_id)

  abbrev pub lacks_field : Request → Bool
  lacks_field r = str_eq r.room_id "" || str_eq r.sender_id "" || str_eq r.content ""

  abbrev pub prepend : Result Message → Result (List Message) → Result (List Message)
  prepend (err c) rest = err c
  prepend (ok m) (err c) = err c
  prepend (ok m) (ok ms) = ok (m ∷ ms)

  -- The loop of BatchCreateMessages, from the request with this number on.
  unfoldable pub messages_from : ℕ → List Request → Result (List Message)
  messages_from n [] = ok []
  messages_from n (r ∷ rs) =
      let rest = messages_from (n + 1) rs in
      if lacks_field r then err invalid_argument else prepend (message_from_request n r) rest

  module _ (c : Collection) where
    abbrev pub saved : Option SaveError → Option Code
    saved none = none
    saved (some sequence_conflict) = some aborted
    saved (some insert_failed) = some internal

    abbrev pub save_all : Result (List Message) → Option Code
    save_all (err x) = some x
    save_all (ok ms) = saved (save_many c ms)

    -- `none` for no error.
    unfoldable pub batch_create_messages : List Request → Option Code
    batch_create_messages [] = none
    batch_create_messages (r ∷ rs) = save_all (messages_from 0 (r ∷ rs))

    abbrev pub or_internal : {A : Type 0} → Option A → Result A
    or_internal none = err internal
    or_internal (some a) = ok a

    unfoldable pub list_messages : String → ℕ → Option ℕ → Result (List Message)
    list_messages room_id limit joined_at =
        if str_eq room_id ""
        then err invalid_argument
        else or_internal (
            get_history c room_id (page_limit config.history_default config.history_max limit)
              joined_at)

    unfoldable pub sync : String → ℕ → ℕ → Option ℕ → Result (List Message)
    sync room_id last_seq limit joined_at =
        if str_eq room_id ""
        then err invalid_argument
        else or_internal (
            sync_messages c room_id last_seq (page_limit config.sync_default config.sync_max limit)
              joined_at)

    unfoldable pub last_sequence : String → Result ℕ
    last_sequence room_id =
        if str_eq room_id ""
        then err invalid_argument
        else or_internal (get_last_sequence_number c room_id)
