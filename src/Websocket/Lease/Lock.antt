-- ===== src/Websocket/Lease/Lock.antt =====
-- internal/websocket/roomlease/redis.go: the store of leases, seen as one lock with a deadline for each
-- key, which forgets the owner's address and how Redis keeps the rest.
use go_chat_msa.Common.{
  ℕ, ◌+◌, ◌≡◌, refl, ap, ◌∙◌, subst, String, Bool, true, false, Option, none, some, List, [], ◌∷◌,
  arith, ltb, str_eq, str_eq_iff, str_eq_refl, find, find-put_hit, find-put_miss, find-remove,
  find-remove_miss, Option-cases, Bool-cases, inl, inr, if◌then◌else◌,
}
use go_chat_msa.Websocket.Lease.{
  Lease, Entry, Redis, Store, Net, delivered, call_lost, reply_lost, Error, unreachable, Result, ok,
  err, key, acquire_lua, renew_lua, release_lua, acquire, renew, release,
}
use go_chat_msa.Websocket.Lease.Fencing.{Op, acquires, renews, releases, apply, apply_all}

-- What a server learns: it has the lease, it does not, or nothing.
pub data Answer : Type 0 where
  granted denied unknown : Answer

-- Who holds the lock, and until when.
abbrev pub Lock : Type 0
Lock = Option (String × ℕ)

abbrev pub is_held : ℕ → Lock → Bool
is_held now none = false
is_held now (some (token, until)) = ltb now until

abbrev pub is_held_by : ℕ → String → Lock → Bool
is_held_by now t none = false
is_held_by now t (some (token, until)) = if ltb now until then str_eq token t else false

-- A call that changes the lock where its condition holds, over the network.
abbrev pub attempt : Net → Bool → Lock → Lock → Lock × Answer
attempt delivered can after before = if can then (after, granted) else (before, denied)
attempt call_lost can after before = (before, unknown)
attempt reply_lost can after before = if can then (after, unknown) else (before, unknown)

abbrev pub free : Bool → Bool
free true = false
free false = true

-- The specification of a call.
unfoldable pub lock_step : Op → Lock → Lock × Answer
lock_step (acquires s net now token room) x =
    attempt net (free (is_held now x)) (some (token, now + s.ttl)) x
lock_step (renews s net now l) x =
    attempt net (is_held_by now l.token x) (some (l.token, now + s.ttl)) x
lock_step (releases s net now l) x = attempt net (is_held_by now l.token x) none x

abbrev pub key_of : Op → String
key_of (acquires s net now token room) = key s room
key_of (renews s net now l) = key s l.room_id
key_of (releases s net now l) = key s l.room_id

-- The lock under a key, and the answer of the code.
abbrev pub entry_lock : Option Entry → Lock
entry_lock none = none
entry_lock (some e) = some (e.token, e.expires_at)

unfoldable pub lock_of : String → Redis → Lock
lock_of k db = entry_lock (find k db)

abbrev pub acquire_answer : Result Lease → Answer
acquire_answer (ok l) = granted
acquire_answer (err unreachable) = unknown
acquire_answer (err e) = denied

abbrev pub error_answer : Option Error → Answer
error_answer none = granted
error_answer (some unreachable) = unknown
error_answer (some e) = denied

unfoldable pub answer : Op → Redis → Answer
answer (acquires s net now token room) db = acquire_answer (acquire s net now token room db).1
answer (renews s net now l) db = error_answer (renew s net now l db).1
answer (releases s net now l) db = error_answer (release s net now l db).1

-- The answers to the calls on a key, from the code and from the specification.
unfoldable pub answers_of : String → List Op → Redis → List Answer
answers_of k [] db = []
answers_of k (o ∷ os) db =
    let rest = answers_of k os (apply o db) in
    if str_eq (key_of o) k then answer o db ∷ rest else rest

unfoldable pub lock_answers : String → List Op → Lock → Lock × List Answer
lock_answers k [] x = (x, [])
lock_answers k (o ∷ os) x =
    let (x1, a) = lock_step o x in
    let (x2, rest) = lock_answers k os (if str_eq (key_of o) k then x1 else x) in
    (x2, if str_eq (key_of o) k then a ∷ rest else rest)

acquires-refines :
    (s : Store) (net : Net) (now : ℕ) (token room : String) (db : Redis)
    → let o = acquires s net now token room in
      (lock_of (key_of o) (apply o db), answer o db) ≡ lock_step o (lock_of (key_of o) db)
unfolding apply answer lock_step lock_of acquire acquire_lua
acquires-refines s net now token room db =
    let k = key s room in
    let x : Entry = record { owner_addr = s.owner_addr; token = token; expires_at = now + s.ttl } in
    elim (Option-cases (find k db)) [
      | inl n ↦ ground (arith, n, find-put_hit k k x db (str_eq_refl k))
      | inr (e, n) ↦ ground (arith, n, find-put_hit k k x db (str_eq_refl k))
    ]

renews-refines :
    (s : Store) (net : Net) (now : ℕ) (l : Lease) (db : Redis)
    → let o = renews s net now l in
      (lock_of (key_of o) (apply o db), answer o db) ≡ lock_step o (lock_of (key_of o) db)
unfolding apply answer lock_step lock_of renew renew_lua
renews-refines s net now l db =
    let k = key s l.room_id in
    elim (Option-cases (find k db)) [
      | inl n ↦ ground (arith, n)
      | inr (e, n) ↦ ground (
        arith,
        n,
        find-put_hit k k (record e { expires_at = now + s.ttl }) db (str_eq_refl k),
        str_eq_iff e.token l.token,
      )
    ]

releases-refines :
    (s : Store) (net : Net) (now : ℕ) (l : Lease) (db : Redis)
    → let o = releases s net now l in
      (lock_of (key_of o) (apply o db), answer o db) ≡ lock_step o (lock_of (key_of o) db)
unfolding apply answer lock_step lock_of release release_lua
releases-refines s net now l db =
    let k = key s l.room_id in
    elim (Option-cases (find k db)) [
      | inl n ↦ ground (arith, n)
      | inr (e, n) ↦ ground (arith, n, find-remove k k db, str_eq_refl k)
    ]

step-refines :
    (o : Op) (db : Redis)
    → (lock_of (key_of o) (apply o db), answer o db) ≡ lock_step o (lock_of (key_of o) db)
step-refines (acquires s net now token room) db = acquires-refines s net now token room db
step-refines (renews s net now l) db = renews-refines s net now l db
step-refines (releases s net now l) db = releases-refines s net now l db

-- A call on another key leaves the lock.
other_key :
    (o : Op) (k : String) (db : Redis)
    → str_eq (key_of o) k ≡ false
    → lock_of k (apply o db) ≡ lock_of k db
unfolding apply lock_of acquire acquire_lua renew renew_lua release release_lua
other_key (acquires s net now token room) k db ne = ground (
  arith,
  ne,
  find-put_miss (key s room) k
      (record { owner_addr = s.owner_addr; token = token; expires_at = now + s.ttl }) db ne,
)
other_key (renews s net now l) k db ne = elim (Option-cases (find (key s l.room_id) db)) [
  | inl n ↦ ground (arith, n)
  | inr (e, n) ↦
      ground
        (arith, n, find-put_miss (key s l.room_id) k (record e { expires_at = now + s.ttl }) db ne)
]
other_key (releases s net now l) k db ne =
    ground (arith, ne, find-remove_miss (key s l.room_id) k db ne)

-- For every key, the calls of any servers, delivered or not, answer as a single lock with a
-- deadline does that sees only the calls on its key, and leave the entry that the lock describes.
pub run_refines :
    (k : String) (os : List Op) (db : Redis)
    → (lock_of k (apply_all os db), answers_of k os db) ≡ lock_answers k os (lock_of k db)
unfolding apply_all answers_of lock_answers
run_refines k [] db = refl
run_refines k (o ∷ os) db = elim (Bool-cases (str_eq (key_of o) k)) [
  | inl b ↦
      let mine : (lock_of k (apply o db), answer o db) ≡ lock_step o (lock_of k db) =
        subst (λ j. (lock_of j (apply o db), answer o db) ≡ lock_step o (lock_of j db))
          ((str_eq_iff (key_of o) k).0 b) (step-refines o db) in
      let rest = run_refines k os (apply o db) in
      rw b (
        ap (λ x. (x.0, answer o db ∷ x.1)) rest
        ∙ ap (λ x. ((lock_answers k os x.0).0, x.1 ∷ (lock_answers k os x.0).1)) mine)
  | inr b ↦ rw b (
      subst
        (λ x.
          (lock_of k (apply_all os (apply o db)), answers_of k os (apply o db))
          ≡ lock_answers k os x)
        (other_key o k db b) (run_refines k os (apply o db)))
]
