-- ===== src/Examples/Workers.antt =====
-- Workers with a store that is unavailable at its first call, and one that always is.
use go_chat_msa.Common.{
  ℕ, ◌+◌, ◌≡◌, refl, Option, none, some, Bool, true, false, All, List, [], ◌∷◌, arith, ◌==◌,
  if◌then◌else◌,
}
use go_chat_msa.Grpc.{Error, status, unavailable}
use go_chat_msa.Websocket.Message.{Message}
use go_chat_msa.Websocket.Hub.{PersistTask}
use go_chat_msa.Websocket.Persistence.{
  Env, State, Turn, reads, fires, queues, PersistRetryTask, Input, task, tick, closed,
  drain_retry_batch,
}
use go_chat_msa.Websocket.Persistence.Conservation.{
  tally, held, acks, accounted, received, run_worker, run_worker_total, drain_retry_batch_total,
}
use go_chat_msa.Websocket.Persistence.Backoff.{IsRand, Paced, run_turns, retries_end}

abbrev save : ℕ → List PersistTask → Option Error
save n tasks = if n == 0 then some (status unavailable) else none

abbrev down : ℕ → List PersistTask → Option Error
down n tasks = some (status unavailable)

-- rand.Int64N that always gives 0.
abbrev env : ℕ → Env
env now = record { save = some save; now = now; rand = λ n. 0 }

abbrev message : Message
message = record {
  id = "0190";
  room_id = "room";
  sender_id = "ann";
  content = "hello";
  client_msg_id = "c1";
  type = "chat";
  sequence_number = 1;
  timestamp = 7;
  received_at = none;
}

abbrev one : PersistTask
one = record { msg = message; hub = 1 }

abbrev start : State
start = record { retry_ch = []; acked = []; calls = 0 }

abbrev batch : PersistRetryTask
batch = record { tasks = one ∷ []; attempts = 1; next_retry = 0; created_at = 0 }

abbrev inputs : List (Env × Input)
inputs = (env 0, task one) ∷ (env 1, tick) ∷ (env 2, task one) ∷ (env 3, closed) ∷ []

abbrev everything : PersistTask → Bool
everything t = true

run_worker_total_example :
    tally everything (run_worker inputs ([], start)).0
      + accounted everything (run_worker inputs ([], start)).1
    ≡ tally everything [] + accounted everything start + received everything inputs
run_worker_total_example = run_worker_total everything inputs [] start

drain_retry_batch_total_example :
    (acks everything (drain_retry_batch (env 5) save (batch ∷ []) start).acked
      ≡ held everything (batch ∷ []) + accounted everything start)
    × ((drain_retry_batch (env 5) save (batch ∷ []) start).retry_ch ≡ [])
drain_retry_batch_total_example = drain_retry_batch_total everything (env 5) save (batch ∷ []) start

-- Whether the first task of a batch has the number 1.
abbrev first_number : List PersistTask → Bool
first_number [] = false
first_number (t ∷ ts) = t.msg.sequence_number == 1

abbrev two : PersistTask
two = record { msg = record message { sequence_number = 2 }; hub = 1 }

-- The ticker fires every 100 seconds, while another batch is queued and read.
abbrev turns : List Turn
turns =
    fires (env 100_000_000_000) down
    ∷ queues (env 110_000_000_000) (two ∷ []) (status unavailable)
    ∷ reads
    ∷ fires (env 200_000_000_000) down
    ∷ fires (env 300_000_000_000) down
    ∷ fires (env 400_000_000_000) down
    ∷ fires (env 500_000_000_000) down
    ∷ fires (env 600_000_000_000) down
    ∷ fires (env 700_000_000_000) down
    ∷ []

zero-IsRand : IsRand (λ n. 0)
zero-IsRand n h = h

retries_end_example :
    All (λ r. first_number r.tasks ≡ false) (run_turns turns (batch ∷ [], start)).0
retries_end_example =
    retries_end first_number 0 100_000_000_000 turns (batch ∷ []) start
      (λ alike. (omega arith, omega arith, omega arith), tt) tt (refl, tt) every (omega arith)
  where
    every : Paced 100_000_000_000 0 turns
    every = (
      omega arith,
      omega arith,
      zero-IsRand,
      (
        omega arith,
        omega arith,
        zero-IsRand,
        (
          omega arith,
          omega arith,
          zero-IsRand,
          (
            omega arith,
            omega arith,
            zero-IsRand,
            (
              omega arith,
              omega arith,
              zero-IsRand,
              (omega arith, omega arith, zero-IsRand, (omega arith, omega arith, zero-IsRand, tt)),
            ),
          ),
        ),
      ),
    )
