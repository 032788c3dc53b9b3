-- ===== src/Websocket/Persistence/Conservation.antt =====
-- internal/websocket/hub/manager.go: what becomes of the tasks on the way through the workers.
use go_chat_msa.Common.{
  ℕ, suc, ◌+◌, ◌<◌, ◌≡◌, refl, ap, Bool, Option, none, some, List, [], ◌∷◌, ◌++◌, map, arith,
  length, length-append, Option-cases, Bool-cases, inl, inr, ltb, if◌then◌else◌,
}
use go_chat_msa.Grpc.{Error}
use go_chat_msa.Websocket.Hub.{PersistTask}
use go_chat_msa.Websocket.Persistence.{
  PersistRetryTask, State, Env, Input, task, tick, closed, ack_persist_tasks, enqueue_persist_retry,
  settle_save, save_persist_tasks, flush, worker_step, settle_retry, retry_one, stay,
  process_retry_batch, drain_retry_tasks, drain_retry_batch, persist_batch_size, persisted,
  jittered_persist_backoff,
}

-- How many tasks of a list pass a test; equal for every test, two lists hold the same tasks.
abbrev pub tally : (PersistTask → Bool) → List PersistTask → ℕ
tally q [] = 0
tally q (t ∷ ts) = let rest = tally q ts in if q t then suc rest else rest

-- The tasks in a list of retry batches.
abbrev pub held : (PersistTask → Bool) → List PersistRetryTask → ℕ
held q [] = 0
held q (r ∷ rs) = tally q r.tasks + held q rs

-- The tasks that were acknowledged, once for each ack.
abbrev pub acks : (PersistTask → Bool) → List (PersistTask × Option Error) → ℕ
acks q [] = 0
acks q ((t, e) ∷ rest) = let more = acks q rest in if q t then suc more else more

-- Acknowledged, or waiting in the retry channel.
abbrev pub accounted : (PersistTask → Bool) → State → ℕ
accounted q s = acks q s.acked + held q s.retry_ch

module _ (q : PersistTask → Bool) where
  tally-append : (xs ys : List PersistTask) → tally q (xs ++ ys) ≡ tally q xs + tally q ys
  tally-append [] ys = omega arith
  tally-append (t ∷ xs) ys = ground (arith, tally-append xs ys)

  held-append : (xs ys : List PersistRetryTask) → held q (xs ++ ys) ≡ held q xs + held q ys
  held-append [] ys = omega arith
  held-append (r ∷ xs) ys = omega (arith, held-append xs ys)

  acks-append :
      (xs ys : List (PersistTask × Option Error)) → acks q (xs ++ ys) ≡ acks q xs + acks q ys
  acks-append [] ys = omega arith
  acks-append ((t, e) ∷ xs) ys = ground (arith, acks-append xs ys)

  acks-map : (ts : List PersistTask) (e : Option Error) → acks q (map (λ t. (t, e)) ts) ≡ tally q ts
  acks-map [] e = refl
  acks-map (t ∷ ts) e = ground (arith, acks-map ts e)

  acked_total :
      (ts : List PersistTask) (e : Option Error) (s : State)
      → accounted q (ack_persist_tasks ts e s) ≡ accounted q s + tally q ts
  unfolding ack_persist_tasks
  acked_total ts e s = omega (arith, acks-append s.acked (map (λ t. (t, e)) ts), acks-map ts e)

  enqueued_total :
      (e : Env) (ts : List PersistTask) (cause : Error) (s : State)
      → accounted q (enqueue_persist_retry e ts cause s) ≡ accounted q s + tally q ts
  unfolding enqueue_persist_retry
  enqueued_total e ts cause s =
      let r : PersistRetryTask = record {
        tasks = ts;
        attempts = 1;
        next_retry = e.now + jittered_persist_backoff e.rand 1;
        created_at = e.now;
      } in
      ground (arith, held-append s.retry_ch (r ∷ []), acked_total ts (some cause) s)

  settled_total :
      (e : Env) (ts : List PersistTask) (answer : Option Error) (s : State)
      → accounted q (settle_save e ts answer s) ≡ accounted q s + tally q ts
  unfolding settle_save
  settled_total e ts none s = acked_total ts none s
  settled_total e ts (some err) s =
      ground (arith, acked_total ts none s, acked_total ts (some err) s, enqueued_total e ts err s)

  -- Each task of a batch that a worker saves is acknowledged once or waits for a retry.
  pub save_persist_tasks_total :
      (e : Env) (ts : List PersistTask) (s : State)
      → accounted q (save_persist_tasks e ts s) ≡ accounted q s + tally q ts
  unfolding save_persist_tasks
  save_persist_tasks_total e [] s = omega arith
  save_persist_tasks_total e (t ∷ ts) s = elim (Option-cases e.save) [
    | inl nil ↦ rw (nil, save_persist_tasks) (acked_total (t ∷ ts) none s)
    | inr (save, e') ↦
        rw (e', save_persist_tasks)
          (settled_total e (t ∷ ts) (save s.calls (t ∷ ts)) (record s { calls = s.calls + 1 }))
  ]

  settle_retry_total :
      (e : Env) (r : PersistRetryTask) (answer : Option Error) (s : State)
      → let (left, s') = settle_retry e r answer s in
        held q (stay left []) + accounted q s' ≡ tally q r.tasks + accounted q s
  unfolding settle_retry
  settle_retry_total e r none s = omega (arith, acked_total r.tasks none s)
  settle_retry_total e r (some err) s =
      ground (arith, acked_total r.tasks none s, acked_total r.tasks (some err) s)

module _ (q : PersistTask → Bool) (e : Env) (save : ℕ → List PersistTask → Option Error) where
  retry_one_total :
      (r : PersistRetryTask) (s : State)
      → let (left, s') = retry_one e save r s in
        held q (stay left []) + accounted q s' ≡ tally q r.tasks + accounted q s
  unfolding retry_one
  retry_one_total r s =
      let s1 = record s { calls = s.calls + 1 } in
      let settled = settle_retry_total q e r (save s.calls r.tasks) s1 in
      elim (Bool-cases (ltb e.now r.next_retry)) [
        | inl early ↦ rw (early, retry_one) (omega arith)
        | inr due ↦ rw (due, retry_one) settled
      ]

  held-stay :
      (left : Option PersistRetryTask) (rest : List PersistRetryTask)
      → held q (stay left rest) ≡ held q (stay left []) + held q rest
  held-stay none rest = omega arith
  held-stay (some r) rest = omega arith

  -- Whatever the store answers, a round of retries keeps every task in the batch or
  -- acknowledges it once: those that pass any test in the batch, in the retry channel and in
  -- the acks are together as many as before.
  pub process_retry_batch_total :
      (batch : List PersistRetryTask) (s : State)
      → let (rest, s') = process_retry_batch e save batch s in
        held q rest + accounted q s' ≡ held q batch + accounted q s
  unfolding process_retry_batch
  process_retry_batch_total [] s = refl
  process_retry_batch_total (r ∷ batch) s =
      let (left, s1) = retry_one e save r s in
      let (rest, s2) = process_retry_batch e save batch s1 in
      omega (arith, retry_one_total r s, process_retry_batch_total batch s1, held-stay left rest)

  drain_retry_tasks_total :
      (batch : List PersistRetryTask) (s : State)
      → accounted q (drain_retry_tasks e save batch s) ≡ held q batch + accounted q s
  unfolding drain_retry_tasks
  drain_retry_tasks_total [] s = omega arith
  drain_retry_tasks_total (r ∷ batch) s =
      let answer = save s.calls r.tasks in
      let given : Option Error = if persisted answer then none else answer in
      let s1 = record s { calls = s.calls + 1 } in
      omega (
        arith,
        drain_retry_tasks_total batch (ack_persist_tasks r.tasks given s1),
        acked_total q r.tasks given s1,
      )

  drain_retry_tasks_channel :
      (batch : List PersistRetryTask) (s : State)
      → (drain_retry_tasks e save batch s).retry_ch ≡ s.retry_ch
  unfolding drain_retry_tasks ack_persist_tasks
  drain_retry_tasks_channel [] s = refl
  drain_retry_tasks_channel (r ∷ batch) s = drain_retry_tasks_channel batch _

  -- At shutdown, whatever the store answers, each task of the batch and of the retry channel
  -- gets exactly one ack more than before, for any test on tasks, and the channel is empty.
  pub drain_retry_batch_total :
      (batch : List PersistRetryTask) (s : State)
      → let s' = drain_retry_batch e save batch s in
        (acks q s'.acked ≡ held q batch + accounted q s) × (s'.retry_ch ≡ [])
  unfolding drain_retry_batch
  drain_retry_batch_total batch s =
      let s1 = record s { retry_ch = [] } in
      let emptied = drain_retry_tasks_channel (batch ++ s.retry_ch) s1 in
      (
        omega (
          arith,
          ap (held q) emptied,
          drain_retry_tasks_total (batch ++ s.retry_ch) s1,
          held-append q batch s.retry_ch,
        ),
        emptied,
      )

-- The inputs of one worker, each with what its step gets from outside.
pub run_worker : List (Env × Input) → List PersistTask × State → List PersistTask × State
run_worker [] w = w
run_worker ((e, i) ∷ is) w = run_worker is (worker_step e i w)

-- The tasks that the inputs bring.
abbrev pub received : (PersistTask → Bool) → List (Env × Input) → ℕ
received q [] = 0
received q ((e, task t) ∷ is) = let rest = received q is in if q t then suc rest else rest
received q ((e, tick) ∷ is) = received q is
received q ((e, closed) ∷ is) = received q is

module _ (q : PersistTask → Bool) where
  received-cons :
      (e : Env) (i : Input) (is : List (Env × Input))
      → received q ((e, i) ∷ is) ≡ received q ((e, i) ∷ []) + received q is
  received-cons e (task t) is = ground arith
  received-cons e tick is = omega arith
  received-cons e closed is = omega arith

  worker_step_total :
      (e : Env) (i : Input) (batch : List PersistTask) (s : State)
      → let (batch', s') = worker_step e i (batch, s) in
        tally q batch' + accounted q s' ≡ tally q batch + accounted q s + received q ((e, i) ∷ [])
  unfolding worker_step flush
  worker_step_total e (task t) batch s =
      ground
        (arith, save_persist_tasks_total q e (batch ++ t ∷ []) s, tally-append q batch (t ∷ []))
  worker_step_total e tick batch s = omega (arith, save_persist_tasks_total q e batch s)
  worker_step_total e closed batch s = omega (arith, save_persist_tasks_total q e batch s)

  -- Whatever inputs a worker gets and whatever the store answers: the tasks in its batch, those
  -- acknowledged, counted once for each ack, and those in the retry channel are as many at the
  -- end as at the start and received together; and so are those that pass any test.
  pub run_worker_total :
      (is : List (Env × Input)) (batch : List PersistTask) (s : State)
      → let (batch', s') = run_worker is (batch, s) in
        tally q batch' + accounted q s' ≡ tally q batch + accounted q s + received q is
  unfolding run_worker
  run_worker_total [] batch s = omega arith
  run_worker_total ((e, i) ∷ is) batch s =
      let (batch', s') = worker_step e i (batch, s) in
      omega
        (arith, worker_step_total e i batch s, run_worker_total is batch' s', received-cons e i is)

worker_step_bound :
    (e : Env) (i : Input) (batch : List PersistTask) (s : State)
    → length batch < persist_batch_size
    → length (worker_step e i (batch, s)).0 < persist_batch_size
unfolding worker_step flush
worker_step_bound e (task t) batch s h = ground (arith, length-append batch (t ∷ []))
worker_step_bound e tick batch s h = omega arith
worker_step_bound e closed batch s h = omega arith
