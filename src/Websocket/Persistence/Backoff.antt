-- ===== src/Websocket/Persistence/Backoff.antt =====
-- internal/websocket/hub/manager.go: how often and how late a batch is retried.
use native.Mathlib.Nat.{pow-suc}
use go_chat_msa.Common.{
  ℕ, zero, suc, ◌+◌, ◌-◌, ◌*◌, ◌^◌, min, max, ltb, Bool, true, false, ◌++◌, subst, sym, ◌∙◌, ap,
  Bool-cases, inl, inr, ◌≤◌, ◌<◌, ◌≡◌, refl, Option, none, some, List, [], ◌∷◌, arith, length, All,
}
use go_chat_msa.Grpc.{Error}
use go_chat_msa.Websocket.Hub.{PersistTask}
use go_chat_msa.Websocket.Persistence.{
  PersistRetryTask, State, Turn, reads, fires, queues, read_retry, retry_turn,
  enqueue_persist_retry, ack_persist_tasks, Env, settle_retry, retry_one, stay, process_retry_batch,
  jittered_persist_backoff, persist_retry_max_attempts, persist_retry_max_backoff,
  persist_retry_init_backoff, persist_retry_queue_size,
}

-- rand.Int64N returns a number from 0 up to its argument, exclusive.
abbrev pub IsRand : (ℕ → ℕ) → Type 0
IsRand rand = (n : ℕ) → 0 < n → rand n < n

pow_pos : (n : ℕ) → 0 < 2 ^ n
pow_pos zero = omega arith
pow_pos (suc n) = omega (arith, pow-suc 2 n, pow_pos n)

module _ (e : Env) (law : IsRand e.rand) where
  -- The wait before a retry lies below 30 seconds.
  pub jittered_persist_backoff_bound :
      (attempts : ℕ) → jittered_persist_backoff e.rand attempts < persist_retry_max_backoff
  unfolding jittered_persist_backoff
  jittered_persist_backoff_bound attempts =
      let base =
        min (persist_retry_init_backoff * 2 ^ min (attempts - 1) 5) persist_retry_max_backoff in
      omega (arith, law base (omega (arith, pow_pos (min (attempts - 1) 5))))

  -- If rand.Int64N keeps its bound, a retried batch that stays in the list has the same tasks,
  -- is one attempt on and within five, and is due within 30 seconds; nothing else changes.
  pub settle_retry_bound :
      (r r' : PersistRetryTask) (answer : Option Error) (s s' : State)
      → settle_retry e r answer s ≡ (some r', s')
      → (r'.attempts ≡ r.attempts + 1)
        × (r'.attempts ≤ persist_retry_max_attempts)
        × (r'.tasks ≡ r.tasks)
        × (e.now ≤ r'.next_retry)
        × (r'.next_retry < e.now + persist_retry_max_backoff)
        × (s' ≡ s)
  unfolding settle_retry
  settle_retry_bound r r' none s s' h = cc
  settle_retry_bound r r' (some err) s s' h =
      ground (arith, jittered_persist_backoff_bound (r.attempts + 1))

-- The turns of the loop, with what comes in between, in their order.
pub run_turns : List Turn → List PersistRetryTask × State → List PersistRetryTask × State
run_turns [] w = w
run_turns (t ∷ ts) w = run_turns ts (retry_turn t w)

-- From the time `last` on, the ticker fires with a pause of at most `pause`, and rand.Int64N keeps its
-- bound.
abbrev pub Paced : ℕ → ℕ → List Turn → Type 0
Paced pause last [] = Unit
Paced pause last (reads ∷ ts) = Paced pause last ts
Paced pause last (fires e save ∷ ts) =
    (last ≤ e.now) × (e.now ≤ last + pause) × IsRand e.rand × Paced pause e.now ts
Paced pause last (queues e tasks cause ∷ ts) = Paced pause last ts

-- The last time that the ticker fires.
abbrev pub last_fired : ℕ → List Turn → ℕ
last_fired last [] = last
last_fired last (reads ∷ ts) = last_fired last ts
last_fired last (fires e save ∷ ts) = last_fired e.now ts
last_fired last (queues e tasks cause ∷ ts) = last_fired last ts

-- No batch that is queued meanwhile passes the test.
abbrev pub Others : (List PersistTask → Bool) → List Turn → Type 0
Others q [] = Unit
Others q (reads ∷ ts) = Others q ts
Others q (fires e save ∷ ts) = Others q ts
Others q (queues e tasks cause ∷ ts) = (q tasks ≡ false) × Others q ts

-- One to five attempts were made, and the next is due within 30 seconds of the given time.
abbrev pub Fresh : ℕ → PersistRetryTask → Type 0
Fresh start r =
    (1 ≤ r.attempts)
    × (r.attempts ≤ persist_retry_max_attempts)
    × (r.next_retry ≤ start + persist_retry_max_backoff)

-- At the time `now`, with a step of 30 seconds and a pause for each attempt.
abbrev InTime : ℕ → ℕ → ℕ → PersistRetryTask → Type 0
InTime start pause now r =
    (1 ≤ r.attempts)
    × (r.attempts ≤ persist_retry_max_attempts)
    × (r.next_retry + pause ≤ start + r.attempts * (persist_retry_max_backoff + pause))
    × (now ≤ max start r.next_retry)

one_more : (n g : ℕ) → (n + 1) * g ≡ n * g + g
one_more n g = omega arith

one_or_more : (n g : ℕ) → 1 ≤ n → g ≤ n * g
one_or_more n g le = grind arith

at_most_five : (n g : ℕ) → n ≤ 5 → n * g ≤ 5 * g
at_most_five n g le = grind arith

All-stay :
    (P : PersistRetryTask → Type 0) (left : Option PersistRetryTask) (rest : List PersistRetryTask)
    → All P (stay left [])
    → All P rest
    → All P (stay left rest)
All-stay P none rest h k = k
All-stay P (some r) rest h k = (h.0, k)

module _ (e : Env) (law : IsRand e.rand) (save : ℕ → List PersistTask → Option Error) where
  retry_one_tasks :
      (r : PersistRetryTask) (s : State)
      → All (λ r'. r'.tasks ≡ r.tasks) (stay (retry_one e save r s).0 [])
  unfolding retry_one settle_retry
  retry_one_tasks r s = ground arith

  retry_one-InTime :
      (start pause now : ℕ) (r : PersistRetryTask) (s : State)
      → now ≤ e.now
      → e.now ≤ now + pause
      → InTime start pause now r
      → All (InTime start pause e.now) (stay (retry_one e save r s).0 [])
  unfolding retry_one settle_retry
  retry_one-InTime start pause now r s later soon h = ground (
    arith,
    jittered_persist_backoff_bound e law (r.attempts + 1),
    one_more r.attempts (persist_retry_max_backoff + pause),
    one_or_more r.attempts (persist_retry_max_backoff + pause) h.0,
  )

  retry_one_keeps :
      (q : List PersistTask → Bool) (r : PersistRetryTask) (P : PersistRetryTask → Type 0)
      (left : Option PersistRetryTask)
      → All (λ r'. r'.tasks ≡ r.tasks) (stay left [])
      → (q r.tasks ≡ true → All P (stay left []))
      → All (λ r'. q r'.tasks ≡ true → P r') (stay left [])
  retry_one_keeps q r P none same k = tt
  retry_one_keeps q r P (some r') same k = (λ passes. (k (sym (ap q same.0) ∙ passes)).0, tt)

  process_retry_batch-InTime :
      (q : List PersistTask → Bool) (start pause now : ℕ) (batch : List PersistRetryTask)
      (s : State)
      → now ≤ e.now
      → e.now ≤ now + pause
      → All (λ r. q r.tasks ≡ true → InTime start pause now r) batch
      → All
          (λ r. q r.tasks ≡ true → InTime start pause e.now r)
          (process_retry_batch e save batch s).0
  unfolding process_retry_batch
  process_retry_batch-InTime q start pause now [] s later soon h = tt
  process_retry_batch-InTime q start pause now (r ∷ batch) s later soon (h, hs) =
      All-stay _ (retry_one e save r s).0 _
        (retry_one_keeps q r _ _ (retry_one_tasks r s)
          (λ passes. retry_one-InTime start pause now r s later soon (h passes)))
        (process_retry_batch-InTime q start pause now batch (retry_one e save r s).1 later soon hs)

-- Of the batches that pass the test, none waits in the channel, and those of the list are in time.
abbrev Waiting : (List PersistTask → Bool) → ℕ → ℕ → ℕ → List PersistRetryTask × State → Type 0
Waiting q start pause now (batch, s) =
    All (λ r. q r.tasks ≡ true → InTime start pause now r) batch
    × All (λ r. q r.tasks ≡ false) s.retry_ch

module _ (q : List PersistTask → Bool) (start pause : ℕ) where
  All-append :
      (P : PersistRetryTask → Type 0) (xs ys : List PersistRetryTask)
      → All P xs
      → All P ys
      → All P (xs ++ ys)
  All-append P [] ys h k = k
  All-append P (x ∷ xs) ys (h, hs) k = (h, All-append P xs ys hs k)

  other_test :
      (now : ℕ) (r : PersistRetryTask)
      → q r.tasks ≡ false
      → q r.tasks ≡ true
      → InTime start pause now r
  other_test now r unlike alike = absurd (ground (arith, unlike, alike))

  read_retry-Waiting :
      (now : ℕ) (batch ch : List PersistRetryTask) (s : State)
      → All (λ r. q r.tasks ≡ true → InTime start pause now r) batch
      → All (λ r. q r.tasks ≡ false) s.retry_ch
      → All (λ r. q r.tasks ≡ false) ch
      → Waiting q start pause now (read_retry batch ch s)
  unfolding read_retry
  read_retry-Waiting now batch [] s h k c = (h, k)
  read_retry-Waiting now batch (r ∷ ch) s h k (c, cs) =
      (All-append _ batch (r ∷ []) h (other_test now r c, tt), cs)

  queued-Waiting :
      (e : Env) (tasks : List PersistTask) (cause : Error) (s : State)
      → q tasks ≡ false
      → All (λ r. q r.tasks ≡ false) s.retry_ch
      → All (λ r. q r.tasks ≡ false) (enqueue_persist_retry e tasks cause s).retry_ch
  unfolding enqueue_persist_retry ack_persist_tasks
  queued-Waiting e tasks cause s unlike k =
      elim (Bool-cases (ltb (length s.retry_ch) persist_retry_queue_size)) [
        | inl b ↦ rw (b, enqueue_persist_retry) (All-append _ s.retry_ch _ k (unlike, tt))
        | inr b ↦ rw (b, enqueue_persist_retry) k
      ]

  retry_one_channel :
      (e : Env) (save : ℕ → List PersistTask → Option Error) (r : PersistRetryTask) (s : State)
      → (retry_one e save r s).1.retry_ch ≡ s.retry_ch
  unfolding retry_one settle_retry ack_persist_tasks
  retry_one_channel e save r s = ground arith

  process_retry_batch_channel :
      (e : Env) (save : ℕ → List PersistTask → Option Error) (batch : List PersistRetryTask)
      (s : State)
      → (process_retry_batch e save batch s).1.retry_ch ≡ s.retry_ch
  unfolding process_retry_batch
  process_retry_batch_channel e save [] s = refl
  process_retry_batch_channel e save (r ∷ batch) s =
      process_retry_batch_channel e save batch (retry_one e save r s).1
      ∙ retry_one_channel e save r s

  run_turns-Waiting :
      (now : ℕ) (ts : List Turn) (w : List PersistRetryTask × State)
      → Paced pause now ts
      → Others q ts
      → Waiting q start pause now w
      → Waiting q start pause (last_fired now ts) (run_turns ts w)
  unfolding run_turns retry_turn
  run_turns-Waiting now [] w p o h = h
  run_turns-Waiting now (reads ∷ ts) (batch, s) p o (h, k) =
      run_turns-Waiting now ts _ p o (read_retry-Waiting now batch s.retry_ch s h k k)
  run_turns-Waiting now (fires e save ∷ ts) (batch, s) (later, soon, law, p) o (h, k) =
      run_turns-Waiting e.now ts _ p o (
        process_retry_batch-InTime e law save q start pause now batch s later soon h,
        subst (All (λ r. q r.tasks ≡ false)) (sym (process_retry_batch_channel e save batch s)) k,
      )
  run_turns-Waiting now (queues e tasks cause ∷ ts) (batch, s) p (unlike, o) (h, k) =
      run_turns-Waiting now ts _ p o (h, queued-Waiting e tasks cause s unlike k)

  Fresh-InTime : (r : PersistRetryTask) → Fresh start r → InTime start pause start r
  Fresh-InTime r h = ground (arith, one_or_more r.attempts (persist_retry_max_backoff + pause))

  over :
      (now : ℕ) (batch : List PersistRetryTask)
      → start + 5 * (persist_retry_max_backoff + pause) < now
      → All (λ r. q r.tasks ≡ true → InTime start pause now r) batch
      → All (λ r. q r.tasks ≡ false) batch
  over now [] late h = tt
  over now (r ∷ batch) late (h, hs) = (
    elim (Bool-cases (q r.tasks)) [
      | inl alike ↦ absurd (
          ground
            (arith, h alike, late, at_most_five r.attempts (persist_retry_max_backoff + pause)))
      | inr unlike ↦ unlike
    ],
    over now batch late hs,
  )

  -- Take the batches of the retry worker's list that pass a test on their tasks, where none in
  -- the retry channel and none that is queued later does, and where one to five attempts were
  -- made on each and the next is due within 30 seconds of a time. If from that time on the
  -- ticker fires with at most a given pause in between, and rand.Int64N keeps its bound, then
  -- whatever the store answers and whatever batches come meanwhile: when the ticker has fired
  -- later than five times 30 seconds and a pause after that time, no batch of the list passes
  -- the test.
  pub retries_end :
      (ts : List Turn) (batch : List PersistRetryTask) (s : State)
      → All (λ r. q r.tasks ≡ true → Fresh start r) batch
      → All (λ r. q r.tasks ≡ false) s.retry_ch
      → Others q ts
      → Paced pause start ts
      → start + 5 * (persist_retry_max_backoff + pause) < last_fired start ts
      → All (λ r. q r.tasks ≡ false) (run_turns ts (batch, s)).0
  retries_end ts batch s fresh ch others paced late =
      over (last_fired start ts) _ late
        (run_turns-Waiting start ts (batch, s) paced others (fresh_all batch fresh, ch)).0
    where
      fresh_all :
          (batch : List PersistRetryTask)
          → All (λ r. q r.tasks ≡ true → Fresh start r) batch
          → All (λ r. q r.tasks ≡ true → InTime start pause start r) batch
      fresh_all [] h = tt
      fresh_all (r ∷ batch) (h, hs) = (λ alike. Fresh-InTime r (h alike), fresh_all batch hs)
