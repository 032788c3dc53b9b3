-- ===== src/Chat/Repository.antt =====
-- internal/chat/repository.go and models.go. The collection's InsertMany, Find and FindOne are
-- parameters; integers of 64 bits are bit patterns; a time is in
-- nanoseconds, `none` the zero time, and a date of BSON in milliseconds.
use Prim.Native.String.{String}
use text.Mathlib.Text.{find? as index_of}
use go_chat_msa.Common.{
  ℕ, ◌/◌, Bool, true, false, not, ◌||◌, Option, none, some, List, [], ◌∷◌, ◌==◌, is_some,
  if◌then◌else◌,
}

pub record Message : Type 0 where
  pub id : String
  pub room_id : String
  pub sender_id : String
  pub content : String
  pub client_msg_id : String
  pub type : String
  pub sequence_number : ℕ  -- int64
  pub created_at : ℕ

-- A mongo.BulkWriteError.
pub record WriteError : Type 0 where
  pub code : ℕ
  pub message : String

-- What InsertMany returns: nil, a BulkWriteException with these write errors, or another error.
pub data Inserted : Type 0 where
  inserted insert_error : Inserted
  bulk_error : List WriteError → Inserted

-- The driver encodes a time as a BSON date, which counts milliseconds, rounded down.
abbrev pub bson_date : ℕ → ℕ
bson_date t = t / 1_000_000

-- The lower bound of a filter on createdAt; the zero time sets none.
abbrev pub since_date : Option ℕ → Option ℕ
since_date none = none
since_date (some joined_at) = some (bson_date joined_at)

-- A filter with its order and limit.
pub record Query : Type 0 where
  pub room_id : String
  pub after : Option ℕ  -- sequenceNumber $gt
  pub since : Option ℕ  -- createdAt $gte, a date
  pub ascending : Bool
  pub limit : ℕ

-- The first document of a room by falling sequence number, or an error.
pub data FoundOne : Type 0 where
  found : ℕ → FoundOne
  no_documents find_error : FoundOne

pub record Collection : Type 0 where
  pub insert_many : List Message → Inserted
  pub find : Query → Option (List Message)
  pub find_one : String → FoundOne

pub data SaveError : Type 0 where
  sequence_conflict insert_failed : SaveError

-- strings.Contains.
abbrev pub contains : String → String → Bool
contains s t = is_some (index_of s t)

unfoldable pub is_client_message_duplicate : WriteError → Bool
is_client_message_duplicate e =
    contains e.message "unique_room_client_msg" || contains e.message "clientMsgId"

unfoldable pub is_sequence_duplicate : WriteError → Bool
is_sequence_duplicate e =
    contains e.message "unique_room_sequence" || contains e.message "sequenceNumber"

-- What the loop of SaveMany does with one write error.
pub data Kind : Type 0 where
  sequence client other : Kind

unfoldable pub kind_of : WriteError → Kind
kind_of e =
    if not (e.code == 11000)
    then other
    else if is_sequence_duplicate e
    then sequence
    else if is_client_message_duplicate e
    then client
    else other

-- The loop, with `hasSequenceConflict`.
unfoldable pub write_errors : Bool → List WriteError → Option SaveError
write_errors conflict [] = if conflict then some sequence_conflict else none
write_errors conflict (e ∷ es) = elim (kind_of e) [
  | sequence ↦ write_errors true es
  | client ↦ write_errors conflict es
  | other ↦ some insert_failed
]

abbrev pub classify : Inserted → Option SaveError
classify inserted = none
classify insert_error = some insert_failed
classify (bulk_error es) = write_errors false es

module _ (c : Collection) where
  -- `none` for nil.
  unfoldable pub save_many : List Message → Option SaveError
  save_many [] = none
  save_many (m ∷ ms) = classify (c.insert_many (m ∷ ms))

  unfoldable pub get_history : String → ℕ → Option ℕ → Option (List Message)
  get_history room_id limit joined_at = c.find (record {
    room_id = room_id;
    after = none;
    since = since_date joined_at;
    ascending = false;
    limit = limit;
  })

  unfoldable pub sync_messages : String → ℕ → ℕ → Option ℕ → Option (List Message)
  sync_messages room_id last_seq limit joined_at = c.find (record {
    room_id = room_id;
    after = some last_seq;
    since = since_date joined_at;
    ascending = true;
    limit = limit;
  })

  -- `none` for an error.
  unfoldable pub get_last_sequence_number : String → Option ℕ
  get_last_sequence_number room_id = elim (c.find_one room_id) [
    | found n ↦ some n
    | no_documents ↦ some 0
    | find_error ↦ none
  ]
