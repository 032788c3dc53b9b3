-- ===== src/User/Hasher.antt =====
-- internal/user/hasher/hasher.go: a queue of password jobs, the workers that take them, and Close. What
-- bcrypt answers is a parameter; a job is told apart by the number of its call.
pub mod Served
use go_chat_msa.Common.{
  ℕ, ◌+◌, ◌<◌, ◌≡◌, String, Bool, true, false, List, [], ◌∷◌, ◌++◌, length, ltb, ◌==◌,
  if◌then◌else◌,
}

pub data JobType : Type 0 where
  job_hash job_compare : JobType

pub record Job : Type 0 where
  pub ident : ℕ
  pub typ : JobType
  pub password : String
  pub hashed_password : String

pub record Pool : Type 0 where
  pub workers : ℕ
  pub buffer : ℕ
  pub job_queue : List Job  -- oldest first
  pub queue_closed : Bool
  pub is_closed : Bool

-- A default stands for a setting that is not positive; `procs` is runtime.GOMAXPROCS(0).
unfoldable pub new_pool : ℕ → ℕ → ℕ → Pool
new_pool procs workers buffer = record {
  workers = if workers == 0 then procs else workers;
  buffer = if buffer == 0 then 1024 else buffer;
  job_queue = [];
  queue_closed = false;
  is_closed = false;
}

-- What enqueue returns; a send on a closed channel panics.
pub data Enqueued : Type 0 where
  queued queue_full closed canceled panics : Enqueued

-- `done` says that the select takes the case of ctx.Done.
unfoldable pub enqueue : Bool → Job → Pool → Pool × Enqueued
enqueue done j p =
    if p.is_closed
    then (p, closed)
    else if done
    then (p, canceled)
    else if p.queue_closed
    then (p, panics)
    else if ltb (length p.job_queue) p.buffer
    then (record p { job_queue = p.job_queue ++ j ∷ [] }, queued)
    else (p, queue_full)

-- Close, under its lock; a second call finds closeOnce done.
unfoldable pub close : Pool → Pool
close p = if p.is_closed then p else record p { is_closed = true; queue_closed = true }

-- What bcrypt answers to a job.
pub data Answer : Type 0 where
  hashed : String → Answer
  matches failed : Answer

pub record Bcrypt : Type 0 where
  pub generate : String → Answer
  pub compare : String → String → Answer

unfoldable pub work : Bcrypt → Job → Answer
work b j = elim j.typ [
  | job_hash ↦ b.generate j.password
  | job_compare ↦ b.compare j.hashed_password j.password
]

-- A pool with the jobs that its workers have taken and those that were answered.
pub record Running : Type 0 where
  pub pool : Pool
  pub busy : List Job
  pub answered : List (Job × Answer)

abbrev pub joined : Enqueued → Job → List Job
joined queued j = j ∷ []
joined queue_full j = []
joined closed j = []
joined canceled j = []
joined panics j = []

-- A step of a caller, a worker or Close, with the job that it lets into the queue.
pub data Step (b : Bcrypt) : Running → List Job → Running → Type 0 where
  calls :
      (done : Bool) (j : Job) (r : Running)
      → Step b r
          (joined (enqueue done j r.pool).1 j)
          (record r { pool = (enqueue done j r.pool).0 })
  takes :
      (j : Job) (js : List Job) (r : Running)
      → r.pool.job_queue ≡ j ∷ js
      → length r.busy < r.pool.workers
      → Step b r [] (record r { pool = record r.pool { job_queue = js }; busy = j ∷ r.busy })
  answers :
      (xs ys : List Job) (j : Job) (r : Running)
      → r.busy ≡ xs ++ j ∷ ys
      → Step b r [] (record r { busy = xs ++ ys; answered = (j, work b j) ∷ r.answered })
  closes : (r : Running) → Step b r [] (record r { pool = close r.pool })

-- A run from a pool without jobs, with the jobs that it let in.
pub data Run (b : Bcrypt) (start : Pool) : List Job → Running → Type 0 where
  here : Run b start [] (record { pool = start; busy = []; answered = [] })
  next :
      {js is : List Job} {r s : Running}
      → Run b start js r
      → Step b r is s
      → Run b start (is ++ js) s
