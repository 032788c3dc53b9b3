-- ===== src/Examples/Passwords.antt =====
-- A pool of one worker and one slot that takes a job, is closed and answers it.
use go_chat_msa.Common.{◌≤◌, ◌≡◌, ◌≢◌, true, false, [], ◌∷◌, length, All}
use go_chat_msa.User.Hasher.{
  Job, job_hash, Pool, new_pool, enqueue, panics, close, Bcrypt, hashed, matches, work, Running,
  Run, here, next, calls, closes,
}
use go_chat_msa.User.Hasher.Served.{tally, tally_all, served_once}

abbrev bcrypt : Bcrypt
bcrypt = record { generate = λ p. hashed p; compare = λ h p. matches }

abbrev job : Job
job = record { ident = 0; typ = job_hash; password = "pw"; hashed_password = "" }

abbrev start : Pool
start = new_pool 4 1 1

abbrev running : Running
running = record { pool = close (enqueue false job start).0; busy = []; answered = [] }

let_in : Run bcrypt start (job ∷ []) running
unfolding enqueue new_pool close
let_in = next (next here (calls false job _)) (closes _)

served_once_example :
    (tally_all (λ j. true) running ≡ tally (λ j. true) (job ∷ []))
    × All (λ (i, a). a ≡ work bcrypt i) running.answered
    × (length running.pool.job_queue ≤ start.buffer)
    × (length running.busy ≤ start.workers)
    × ((enqueue false job running.pool).1 ≢ panics)
served_once_example = served_once bcrypt 4 1 1 running (job ∷ []) (λ j. true) false job let_in
