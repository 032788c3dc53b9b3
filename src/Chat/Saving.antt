-- ===== src/Chat/Saving.antt =====
-- internal/chat: what becomes of a batch of messages, from the worker that saves it to the answer of
-- the collection.
use Prim.Native.String.{count}
use go_chat_msa.Common.{
  ℕ, ◌+◌, ◌≤◌, ◌≡◌, ◌≢◌, refl, sym, subst, String, Bool, true, false, ◌||◌, Option, none, some,
  List, [], ◌∷◌, All, map, arith, str_eq, ltb, str_eq_refl, if◌then◌else◌, Bool-cases, inl, inr,
}
use go_chat_msa.Grpc.{status, code, internal, aborted}
use go_chat_msa.Websocket.Hub.{PersistTask}
use go_chat_msa.Websocket.Persistence
use go_chat_msa.Websocket.Persistence.{
  State, settle_save, ack_persist_tasks, enqueue_persist_retry, is_idempotent_persist_success,
  is_retryable_persist_error,
}
use go_chat_msa.Chat.Repository.{
  Message, WriteError, Inserted, inserted, insert_error, classify, bulk_error, Collection,
  SaveError, sequence_conflict, insert_failed, Kind, sequence, client, other, kind_of, write_errors,
  save_many,
}
use go_chat_msa.Chat.Service.{
  Request, Env, Uuid, identified, save_all, Result, ok, err, message_from_request, lacks_field,
  prepend, messages_from, batch_create_messages,
}
use go_chat_msa.Chat.Store.{returns, request_of, save_tasks}

-- Whether there is a write error of a kind.
abbrev is_other : Kind → Bool
is_other sequence = false
is_other client = false
is_other other = true

abbrev is_sequence : Kind → Bool
is_sequence sequence = true
is_sequence client = false
is_sequence other = false

abbrev pub any_other : List WriteError → Bool
any_other [] = false
any_other (e ∷ es) = is_other (kind_of e) || any_other es

abbrev pub any_sequence : List WriteError → Bool
any_sequence [] = false
any_sequence (e ∷ es) = is_sequence (kind_of e) || any_sequence es

-- The outcome by what is among the write errors, whatever their order.
abbrev pub outcome : List WriteError → Option SaveError
outcome es =
    if any_other es
    then some insert_failed
    else if any_sequence es
    then some sequence_conflict
    else none

write_errors_lem :
    (b : Bool) (es : List WriteError)
    → write_errors b es ≡ (
        if any_other es
        then some insert_failed
        else if b || any_sequence es
        then some sequence_conflict
        else none)
unfolding write_errors
write_errors_lem b [] = ground arith
write_errors_lem b (e ∷ es) = ground (arith, write_errors_lem b es, write_errors_lem true es)

save_many-outcome :
    (c : Collection) (m : Message) (ms : List Message) (es : List WriteError)
    → c.insert_many (m ∷ ms) ≡ bulk_error es
    → save_many c (m ∷ ms) ≡ outcome es
unfolding save_many
save_many-outcome c m ms es h = rw h (write_errors_lem false es)

-- The request has its fields and an allowed content.
abbrev pub Allowed : Env → Request → Type 0
Allowed e r =
    (r.room_id ≢ "")
    × (r.sender_id ≢ "")
    × (r.content ≢ "")
    × (count r.content ≤ e.config.max_length)

-- The message carries what the request says.
abbrev pub Copied : Request → Message → Type 0
Copied r m =
    (m.room_id ≡ r.room_id)
    × (m.sender_id ≡ r.sender_id)
    × (m.content ≡ r.content)
    × (m.client_msg_id ≡ r.client_msg_id)
    × (m.type ≡ r.type)
    × (m.sequence_number ≡ r.sequence_number)

abbrev pub CarryAll : Env → List Request → List Message → Type 0
CarryAll e [] [] = Unit
CarryAll e [] (m ∷ ms) = ⊥
CarryAll e (r ∷ rs) [] = ⊥
CarryAll e (r ∷ rs) (m ∷ ms) = Allowed e r × Copied r m × CarryAll e rs ms

named : (s : String) → str_eq s "" ≡ false → s ≢ ""
named s h same = ground (arith, h, subst (λ x. str_eq x "" ≡ true) (sym same) (str_eq_refl ""))

is_client : (k : Kind) → is_other k ≡ false → is_sequence k ≡ false → k ≡ client
is_client sequence o s = absurd (ground (arith, s))
is_client client o s = refl
is_client other o s = absurd (ground (arith, o))

clients :
    (es : List WriteError)
    → any_other es ≡ false
    → any_sequence es ≡ false
    → All (λ e. kind_of e ≡ client) es
clients [] o s = tt
clients (e ∷ es) o s = (
  is_client (kind_of e) (ground (arith, o)) (ground (arith, s)),
  clients es (ground (arith, o)) (ground (arith, s)),
)

-- What InsertMany answers where SaveMany returns nil: no error, or write errors that are all
-- duplicates of a client message ID.
abbrev pub Accepted : Inserted → Type 0
Accepted inserted = Unit
Accepted insert_error = ⊥
Accepted (bulk_error es) = All (λ e. kind_of e ≡ client) es

classify-Accepted : (a : Inserted) → classify a ≡ none → Accepted a
classify-Accepted inserted h = tt
classify-Accepted insert_error h = absurd (ground (arith, h))
classify-Accepted (bulk_error es) h =
    let unordered = write_errors_lem false es in
    clients es (ground (arith, h, unordered)) (ground (arith, h, unordered))

module _ (e : Env) where
  identified-Copied :
      (n : ℕ) (r : Request) (id : Option Uuid) (m : Message)
      → identified e n r id ≡ ok m
      → Copied r m
  identified-Copied n r none m h = cc
  identified-Copied n r (some id) m h = ground (arith, h)

  message_from_request-Copied :
      (n : ℕ) (r : Request) (m : Message)
      → message_from_request e n r ≡ ok m
      → (count r.content ≤ e.config.max_length) × Copied r m
  unfolding message_from_request
  message_from_request-Copied n r m h =
      elim (Bool-cases (ltb e.config.max_length (count r.content))) [
        | inl b ↦ ground (arith, h, b)
        | inr b ↦
            let id = if str_eq r.message_id "" then e.new_v7 n else e.parse r.message_id in
            (ground (arith, b), identified-Copied n r id m (rw (b, message_from_request) at h))
      ]

  prepend_ok :
      (x : Result Message) (y : Result (List Message)) (ms : List Message)
      → prepend e x y ≡ ok ms
      → (m : Message) × (rest : List Message) × (ms ≡ m ∷ rest) × (x ≡ ok m) × (y ≡ ok rest)
  prepend_ok (err c) y ms h = cc
  prepend_ok (ok m) (err c) ms h = cc
  prepend_ok (ok m) (ok rest) ms h = (m, rest, ground (arith, h), refl, refl)

  saved_all :
      (c : Collection) (x : Result (List Message))
      → save_all e c x ≡ none
      → (ms : List Message) × (x ≡ ok ms) × (save_many c ms ≡ none)
  saved_all c (err k) h = cc
  saved_all c (ok ms) h = (ms, refl, ground (arith, h))

  messages_from-CarryAll :
      (n : ℕ) (rs : List Request) (ms : List Message)
      → messages_from e n rs ≡ ok ms
      → CarryAll e rs ms
  unfolding messages_from
  messages_from-CarryAll n [] [] h = tt
  messages_from-CarryAll n [] (m ∷ ms) h = cc
  messages_from-CarryAll n (r ∷ rs) ms h = elim (Bool-cases (lacks_field e r)) [
    | inl b ↦ ground (arith, h, b)
    | inr b ↦
        let (m, rest, eq, first, others) =
          prepend_ok (message_from_request e n r) (messages_from e (n + 1) rs) ms
            (rw (b, messages_from) at h) in
        let (short, copied) = message_from_request-Copied n r m first in
        let n1 = named r.room_id (ground (arith, b)) in
        let n2 = named r.sender_id (ground (arith, b)) in
        let n3 = named r.content (ground (arith, b)) in
        subst (λ x. CarryAll e (r ∷ rs) x) (sym eq)
          ((n1, n2, n3, short), copied, messages_from-CarryAll (n + 1) rs rest others)
  ]

  save_many-Accepted :
      (c : Collection) (r : Request) (rs : List Request) (ms : List Message)
      → CarryAll e (r ∷ rs) ms
      → save_many c ms ≡ none
      → Accepted (c.insert_many ms)
  unfolding save_many
  save_many-Accepted c r rs [] carried h = absurd carried
  save_many-Accepted c r rs (m ∷ ms) carried h = classify-Accepted (c.insert_many (m ∷ ms)) h

  -- If BatchCreateMessages reports no error for requests that are not none: every request has a
  -- room, a sender and a content within the allowed length, one message for each, in their
  -- order and with their fields, is handed to InsertMany, and InsertMany answers these messages
  -- without an error, or with write errors, possibly none, that are all duplicates of a client
  -- message ID.
  pub batch_ok :
      (c : Collection) (r : Request) (rs : List Request)
      → batch_create_messages e c (r ∷ rs) ≡ none
      → (ms : List Message) × CarryAll e (r ∷ rs) ms × Accepted (c.insert_many ms)
  unfolding batch_create_messages
  batch_ok c r rs h =
      let (ms, made, kept) = saved_all c (messages_from e 0 (r ∷ rs)) h in
      let carried = messages_from-CarryAll 0 (r ∷ rs) ms made in
      (ms, carried, save_many-Accepted c r rs ms carried kept)

  -- When a batch of tasks is made into messages and the collection answers with write errors,
  -- the worker does the same whatever their order: with any error that is no duplicate of a
  -- known index it retries under Internal, else with any duplicate of a sequence number it
  -- acknowledges the tasks with Aborted, else it acknowledges them as saved.
  pub bulk_settled :
      (c : Collection) (w : Persistence.Env) (t : PersistTask) (ts : List PersistTask) (m : Message)
      (ms : List Message) (es : List WriteError) (s : State)
      → messages_from e 0 (map (λ x. request_of x.msg) (t ∷ ts)) ≡ ok (m ∷ ms)
      → c.insert_many (m ∷ ms) ≡ bulk_error es
      → settle_save w (t ∷ ts) (save_tasks e c returns (t ∷ ts)) s ≡ (
          if any_other es
          then enqueue_persist_retry w (t ∷ ts) (status internal) s
          else if any_sequence es
          then ack_persist_tasks (t ∷ ts) (some (status aborted)) s
          else ack_persist_tasks (t ∷ ts) none s)
  unfolding settle_save save_tasks batch_create_messages is_idempotent_persist_success
      is_retryable_persist_error code
  bulk_settled c w t ts m ms es s made answered =
      rw (made, save_many-outcome c m ms es answered, batch_create_messages, save_tasks)
        (elim (Bool-cases (any_other es)) [
          | inl b ↦ rw b refl
          | inr b ↦
              rw b (elim (Bool-cases (any_sequence es)) [ inl d ↦ rw d refl | inr d ↦ rw d refl ])
        ])
