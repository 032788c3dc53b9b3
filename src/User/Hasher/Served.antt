-- ===== src/User/Hasher/Served.antt =====
-- internal/user/hasher/hasher.go: every job that is let in is answered once, by bcrypt.
use go_chat_msa.Common.{
  ℕ, ◌+◌, ◌≤◌, ◌≡◌, ◌≢◌, refl, ap, sym, ◌∙◌, Bool, List, [], ◌∷◌, ◌++◌, map, length, keep,
  keep-append, length-append, arith, All, Bool-cases, inl, inr,
}
use go_chat_msa.User.Hasher.{
  Job, Pool, new_pool, panics, enqueue, close, Bcrypt, work, Running, joined, Step, calls, takes,
  answers, closes, Run, here, next,
}

-- How many jobs pass a test, and how many of those in a pool do.
abbrev pub tally : (Job → Bool) → List Job → ℕ
tally q js = length (keep q js)

abbrev pub tally_all : (Job → Bool) → Running → ℕ
tally_all q r = tally q r.pool.job_queue + tally q r.busy + tally q (map (λ (j, a). j) r.answered)

tally-append : (q : Job → Bool) (xs ys : List Job) → tally q (xs ++ ys) ≡ tally q xs + tally q ys
tally-append q xs ys = ap length (keep-append q xs ys) ∙ length-append (keep q xs) (keep q ys)

tally-cons :
    (q : Job → Bool) (j : Job) (ys : List Job) → tally q (j ∷ ys) ≡ tally q (j ∷ []) + tally q ys
tally-cons q j ys = tally-append q (j ∷ []) ys

-- The settings hold, and the channel is closed with the flag.
abbrev pub Sound : Bcrypt → Pool → Running → Type 0
Sound b start r =
    (r.pool.workers ≡ start.workers)
    × (r.pool.buffer ≡ start.buffer)
    × (r.pool.queue_closed ≡ r.pool.is_closed)
    × (length r.pool.job_queue ≤ start.buffer)
    × (length r.busy ≤ start.workers)
    × All (λ (j, a). a ≡ work b j) r.answered

module _ (b : Bcrypt) where
  tally-enqueue :
      (q : Job → Bool) (done : Bool) (j : Job) (p : Pool)
      → tally q (enqueue done j p).0.job_queue
        ≡ tally q (joined (enqueue done j p).1 j) + tally q p.job_queue
  unfolding enqueue
  tally-enqueue q done j p = ground (arith, tally-append q p.job_queue (j ∷ []))

  step_tally :
      (q : Job → Bool) {r s : Running} {is : List Job}
      → Step b r is s
      → tally_all q s ≡ tally q is + tally_all q r
  unfolding close
  step_tally q (calls done j r) = omega (arith, tally-enqueue q done j r.pool)
  step_tally q (takes j js r e lt) =
      omega (arith, ap (tally q) e, tally-cons q j js, tally-cons q j r.busy)
  step_tally q (answers xs ys j r e) = omega (
    arith,
    ap (tally q) e,
    tally-append q xs (j ∷ ys),
    tally-append q xs ys,
    tally-cons q j ys,
    tally-cons q j (map (λ (i, a). i) r.answered),
  )
  step_tally q (closes r) = ground arith

  Run-tally :
      (q : Job → Bool) {start : Pool} {r : Running} {js : List Job}
      → start.job_queue ≡ []
      → Run b start js r
      → tally_all q r ≡ tally q js
  Run-tally q e here = omega (arith, ap (tally q) e)
  Run-tally q e (next {js} {is} run st) =
      omega (arith, step_tally q st, Run-tally q e run, tally-append q is js)

  enqueue_keeps :
      (done : Bool) (j : Job) (p : Pool)
      → length p.job_queue ≤ p.buffer
      → ((enqueue done j p).0.workers ≡ p.workers)
        × ((enqueue done j p).0.buffer ≡ p.buffer)
        × ((enqueue done j p).0.queue_closed ≡ p.queue_closed)
        × ((enqueue done j p).0.is_closed ≡ p.is_closed)
        × (length (enqueue done j p).0.job_queue ≤ p.buffer)
  unfolding enqueue
  enqueue_keeps done j p le = ground (arith, length-append p.job_queue (j ∷ []))

  step-Sound :
      (start : Pool) {r s : Running} {is : List Job}
      → Step b r is s
      → Sound b start r
      → Sound b start s
  unfolding close
  step-Sound start (calls done j r) (w, u, c, q, k, a) =
      let (w', u', c', i', q') = enqueue_keeps done j r.pool (omega (arith, u, q)) in
      (w' ∙ w, u' ∙ u, c' ∙ c ∙ sym i', omega (arith, q', u), k, a)
  step-Sound start (takes j js r e lt) (w, u, c, q, k, a) =
      (w, u, c, omega (arith, q, ap length e), omega (arith, lt, w), a)
  step-Sound start (answers xs ys j r e) (w, u, c, q, k, a) = (
    w,
    u,
    c,
    q,
    omega (arith, k, ap length e, length-append xs (j ∷ ys), length-append xs ys),
    (refl, a),
  )
  step-Sound start (closes r) (w, u, c, q, k, a) = elim (Bool-cases r.pool.is_closed) [
    | inl e ↦ rw e (w, u, c ∙ e, q, k, a)
    | inr e ↦ rw e (w, u, refl, q, k, a)
  ]

  Run-Sound :
      {start : Pool} {r : Running} {js : List Job}
      → start.job_queue ≡ []
      → start.queue_closed ≡ start.is_closed
      → Run b start js r
      → Sound b start r
  Run-Sound e c here = (refl, refl, c, omega (arith, ap length e), omega arith, tt)
  Run-Sound {start} e c (next run st) = step-Sound start st (Run-Sound e c run)

  never_panics :
      (done : Bool) (j : Job) (p : Pool)
      → p.queue_closed ≡ p.is_closed
      → (enqueue done j p).1 ≢ panics
  unfolding enqueue
  never_panics done j p c h = ground (arith, c, h)

  -- In every run of a new pool: the jobs let in that pass any test are as many as those queued,
  -- taken and answered that do; every answer is that of bcrypt to its job; the queue and the
  -- busy workers keep to their limits; and a call of enqueue never sends on the closed channel.
  pub served_once :
      (procs workers buffer : ℕ) (r : Running) (js : List Job) (q : Job → Bool) (done : Bool)
      (j : Job)
      → let start = new_pool procs workers buffer in
        Run b start js r
        → (tally_all q r ≡ tally q js)
          × All (λ (i, a). a ≡ work b i) r.answered
          × (length r.pool.job_queue ≤ start.buffer)
          × (length r.busy ≤ start.workers)
          × ((enqueue done j r.pool).1 ≢ panics)
  unfolding new_pool
  served_once procs workers buffer r js q done j run =
      let (w, u, c, queue, busy, right) = Run-Sound refl refl run in
      (Run-tally q refl run, right, queue, busy, never_panics done j r.pool c)
