-- ===== src/Websocket/Persistence.antt =====
-- internal/websocket/hub/manager.go: the workers that save messages in batches, and the worker
-- that retries. A call of the store is answered by `save`, given the number of the call; the ack of
-- a task is recorded with its error. Times are nanoseconds.
pub mod Conservation
pub mod Backoff
use go_chat_msa.Common.{
  ℕ, zero, suc, ◌+◌, ◌-◌, ◌*◌, ◌^◌, min, Bool, true, false, Option, none, some, List, [], ◌∷◌, ◌++◌,
  map, length, ltb, leb, if◌then◌else◌,
}
use go_chat_msa.Grpc.{
  Code, Error, status, other, code, already_exists, unavailable, deadline_exceeded, internal,
  resource_exhausted,
}
use go_chat_msa.Websocket.Hub.{PersistTask}

abbrev pub persist_batch_size : ℕ
persist_batch_size = 500

abbrev pub persist_retry_queue_size : ℕ
persist_retry_queue_size = 250

abbrev pub persist_retry_max_attempts : ℕ
persist_retry_max_attempts = 5

abbrev pub persist_retry_init_backoff : ℕ
persist_retry_init_backoff = 1_000_000_000

abbrev pub persist_retry_max_backoff : ℕ
persist_retry_max_backoff = 30_000_000_000

pub record PersistRetryTask : Type 0 where
  pub tasks : List PersistTask
  pub attempts : ℕ
  pub next_retry : ℕ
  pub created_at : ℕ

-- What the workers share: the retry channel, the acks made so far, and how often the store was
-- called.
pub record State : Type 0 where
  pub retry_ch : List PersistRetryTask  -- oldest first
  pub acked : List (PersistTask × Option Error)
  pub calls : ℕ

-- What comes from outside: `m.store` (`none` for nil), the clock and rand.Int64N.
pub record Env : Type 0 where
  pub save : Option (ℕ → List PersistTask → Option Error)
  pub now : ℕ
  pub rand : ℕ → ℕ

unfoldable pub is_idempotent_persist_success : Error → Bool
is_idempotent_persist_success e = elim (code e) [ already_exists ↦ true | _ ↦ false ]

unfoldable pub is_retryable_persist_error : Error → Bool
is_retryable_persist_error other = true
is_retryable_persist_error (status unavailable) = true
is_retryable_persist_error (status deadline_exceeded) = true
is_retryable_persist_error (status internal) = true
is_retryable_persist_error (status resource_exhausted) = true
is_retryable_persist_error (status _) = false

-- `err == nil || isIdempotentPersistSuccess(err)`.
unfoldable pub persisted : Option Error → Bool
persisted none = true
persisted (some e) = is_idempotent_persist_success e

-- Attempts are counted from 1, so `-` does not stop short.
unfoldable pub jittered_persist_backoff : (ℕ → ℕ) → ℕ → ℕ
jittered_persist_backoff rand attempts =
    rand (min (persist_retry_init_backoff * 2 ^ min (attempts - 1) 5) persist_retry_max_backoff)

unfoldable pub ack_persist_tasks : List PersistTask → Option Error → State → State
ack_persist_tasks tasks err s = record s { acked = s.acked ++ map (λ t. (t, err)) tasks }

-- A full retry channel drops the batch, with the error.
unfoldable pub enqueue_persist_retry : Env → List PersistTask → Error → State → State
enqueue_persist_retry e tasks cause s =
    if ltb (length s.retry_ch) persist_retry_queue_size
    then record s {
      retry_ch =
          s.retry_ch
          ++ record {
            tasks = tasks;
            attempts = 1;
            next_retry = e.now + jittered_persist_backoff e.rand 1;
            created_at = e.now;
          }
            ∷ [];
    }
    else ack_persist_tasks tasks (some cause) s

-- From the answer of `SaveMany` on.
unfoldable pub settle_save : Env → List PersistTask → Option Error → State → State
settle_save e tasks none s = ack_persist_tasks tasks none s
settle_save e tasks (some err) s =
    if is_idempotent_persist_success err
    then ack_persist_tasks tasks none s
    else if is_retryable_persist_error err
    then enqueue_persist_retry e tasks err s
    else ack_persist_tasks tasks (some err) s

unfoldable pub save_persist_tasks : Env → List PersistTask → State → State
save_persist_tasks e [] s = s
save_persist_tasks e (t ∷ ts) s = elim e.save [
  | none ↦ ack_persist_tasks (t ∷ ts) none s
  | some save ↦ settle_save e (t ∷ ts) (save s.calls (t ∷ ts)) (record s { calls = s.calls + 1 })
]

-- What a worker of `runPersistenceWorker` reads: a task, the tick of its timer, or the closing of
-- the channel.
pub data Input : Type 0 where
  task : PersistTask → Input
  tick closed : Input

unfoldable pub flush : Env → List PersistTask × State → List PersistTask × State
flush e (batch, s) = ([], save_persist_tasks e batch s)

unfoldable pub worker_step : Env → Input → List PersistTask × State → List PersistTask × State
worker_step e (task t) (batch, s) =
    let batch' = batch ++ t ∷ [] in
    if leb persist_batch_size (length batch') then flush e (batch', s) else (batch', s)
worker_step e tick w = flush e w
worker_step e closed w = flush e w

-- One task of `processRetryBatch` whose time has come, from the store's answer on. The first
-- result is what stays in the batch.
unfoldable pub settle_retry :
    Env → PersistRetryTask → Option Error → State → Option PersistRetryTask × State
settle_retry e t none s = (none, ack_persist_tasks t.tasks none s)
settle_retry e t (some err) s =
    if is_idempotent_persist_success err
    then (none, ack_persist_tasks t.tasks none s)
    else if is_retryable_persist_error err
    then if ltb persist_retry_max_attempts (t.attempts + 1)
      then (none, ack_persist_tasks t.tasks (some err) s)
      else (
        some (record t {
          attempts = t.attempts + 1;
          next_retry = e.now + jittered_persist_backoff e.rand (t.attempts + 1);
        }),
        s,
      )
    else (none, ack_persist_tasks t.tasks (some err) s)

-- `remaining = append(remaining, task)`, for a task that stays.
abbrev pub stay : Option PersistRetryTask → List PersistRetryTask → List PersistRetryTask
stay none rest = rest
stay (some t) rest = t ∷ rest

module _ (e : Env) (save : ℕ → List PersistTask → Option Error) where
  unfoldable pub retry_one : PersistRetryTask → State → Option PersistRetryTask × State
  retry_one t s =
      if ltb e.now t.next_retry
      then (some t, s)
      else settle_retry e t (save s.calls t.tasks) (record s { calls = s.calls + 1 })

  unfoldable pub process_retry_batch : List PersistRetryTask → State → List PersistRetryTask × State
  process_retry_batch [] s = ([], s)
  process_retry_batch (t ∷ ts) s =
      let (left, s1) = retry_one t s in
      let (rest, s2) = process_retry_batch ts s1 in (stay left rest, s2)

  -- The loop of `drainRetryBatch` over the batch and what the closed channel still held.
  unfoldable pub drain_retry_tasks : List PersistRetryTask → State → State
  drain_retry_tasks [] s = s
  drain_retry_tasks (t ∷ ts) s =
      let answer = save s.calls t.tasks in
      let s' = record s { calls = s.calls + 1 } in
      drain_retry_tasks ts
        (ack_persist_tasks t.tasks (if persisted answer then none else answer) s')

  unfoldable pub drain_retry_batch : List PersistRetryTask → State → State
  drain_retry_batch batch s = drain_retry_tasks (batch ++ s.retry_ch) (record s { retry_ch = [] })

-- A turn of the loop of `runPersistenceRetryWorker`, or another worker that queues a batch: the loop
-- reads the retry channel, or its ticker fires. The closing of the channel is `drain_retry_batch`.
pub data Turn : Type 0 where
  reads : Turn
  fires : Env → (ℕ → List PersistTask → Option Error) → Turn
  queues : Env → List PersistTask → Error → Turn

-- Without a queued batch the loop waits.
unfoldable pub read_retry :
    List PersistRetryTask → List PersistRetryTask → State → List PersistRetryTask × State
read_retry batch [] s = (batch, s)
read_retry batch (t ∷ ts) s = (batch ++ t ∷ [], record s { retry_ch = ts })

unfoldable pub retry_turn : Turn → List PersistRetryTask × State → List PersistRetryTask × State
retry_turn reads (batch, s) = read_retry batch s.retry_ch s
retry_turn (fires e save) (batch, s) = process_retry_batch e save batch s
retry_turn (queues e tasks cause) (batch, s) = (batch, enqueue_persist_retry e tasks cause s)
