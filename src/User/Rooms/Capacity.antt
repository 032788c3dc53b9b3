-- ===== src/User/Rooms/Capacity.antt =====
-- The capacity of rooms through the methods of internal/user/service.go.
pub mod Statements
use go_chat_msa.Common.{
  ℕ, suc, ◌+◌, ◌≤◌, ◌<◌, ◌≡◌, refl, sym, subst, String, Bool, true, false, not, ◌&&◌, ◌||◌, Option,
  none, some, List, [], ◌∷◌, ◌++◌, ◌==◌, if◌then◌else◌, keep, is_some, Bool-cases, Option-cases,
  inl, inr, ◌⊎◌, arith,
}
use go_chat_msa.User.Db
use go_chat_msa.User.Db.{
  Db, UserRow, RoomRow, MemberRow, Answer, row, no_rows, violation, failed, managed_by, find_room,
  find_user, count_members, change_room,
}
use go_chat_msa.User.Tx.{Tx, after, Result, ok, err, M, ◌>>=◌, query, run_in_tx, commit}

-- A room that exists has at most `capacity` members, and its capacity is a positive int32's; one
-- that does not exist has none.
abbrev pub Fits : ℕ → Option RoomRow → Type 0
Fits n none = n ≡ 0
Fits n (some r) = (n ≤ r.capacity) × (r.capacity < 2147483648)

abbrev pub Fit : Db → Type 0
Fit db = (i : ℕ) → Fits (count_members i db.members) (find_room i db.rooms)

pub find_room-append :
    (i : ℕ) (r x : RoomRow) (rs : List RoomRow)
    → find_room i rs ≡ some x
    → find_room i (rs ++ r ∷ []) ≡ some x
unfolding find_room
find_room-append i r x [] h = ground arith
find_room-append i r x (y ∷ rs) h = ground (arith, find_room-append i r x rs)

pub find_room-new :
    (i : ℕ) (r : RoomRow) (rs : List RoomRow)
    → find_room i rs ≡ none
    → find_room i (rs ++ r ∷ []) ≡ (if r.id == i then some r else none)
unfolding find_room
find_room-new i r [] h = refl
find_room-new i r (x ∷ rs) h = ground (arith, find_room-new i r rs)

pub count_members-append :
    (i : ℕ) (m : MemberRow) (ms : List MemberRow)
    → count_members i (ms ++ m ∷ [])
      ≡ (if m.room_id == i then suc (count_members i ms) else count_members i ms)
unfolding count_members
count_members-append i m [] = refl
count_members-append i m (x ∷ ms) = ground (arith, count_members-append i m ms)

pub count_members-keep :
    (i : ℕ) (p : MemberRow → Bool) (ms : List MemberRow)
    → count_members i (keep p ms) ≤ count_members i ms
unfolding count_members
count_members-keep i p [] = omega arith
count_members-keep i p (x ∷ ms) = ground (arith, count_members-keep i p ms)

pub count_members-without :
    (i : ℕ) (ms : List MemberRow) → count_members i (keep (λ m. not (m.room_id == i)) ms) ≡ 0
unfolding count_members
count_members-without i [] = refl
count_members-without i (x ∷ ms) = ground (arith, count_members-without i ms)

pub find_room-without :
    (i : ℕ) (rs : List RoomRow) → find_room i (keep (λ r. not (r.id == i)) rs) ≡ none
unfolding find_room
find_room-without i [] = refl
find_room-without i (x ∷ rs) = ground (arith, find_room-without i rs)

pub find_room-other :
    (i j : ℕ) (rs : List RoomRow)
    → (i == j) ≡ false
    → find_room i (keep (λ r. not (r.id == j)) rs) ≡ find_room i rs
unfolding find_room
find_room-other i j [] d = refl
find_room-other i j (x ∷ rs) d = ground (arith, find_room-other i j rs)

abbrev pub alter : (RoomRow → Bool) → (RoomRow → RoomRow) → Option RoomRow → Option RoomRow
alter p f none = none
alter p f (some r) = some (if p r then f r else r)

pub find_room-change_room :
    (i : ℕ) (p : RoomRow → Bool) (f : RoomRow → RoomRow)
    → ((r : RoomRow) → (f r).id ≡ r.id)
    → (rs : List RoomRow) → find_room i (change_room p f rs) ≡ alter p f (find_room i rs)
unfolding find_room
find_room-change_room i p f same [] = refl
find_room-change_room i p f same (x ∷ rs) =
    ground (arith, same x, find_room-change_room i p f same rs)

-- What a transaction that may commit guarantees; one that fails is rolled back.
abbrev pub Post : {A : Type 0} → (A → Db → Type 0) → Result A × Tx → Type 0
Post Q (ok a, tx) = Q a tx.db
Post Q (err e, tx) = Unit {0}

pub after-then :
    {A B : Type 0} (x : Result A × Tx) (f : A → M B) (Q : A → Db → Type 0) (R : B → Db → Type 0)
    → Post Q x
    → ((a : A) (tx : Tx) → Q a tx.db → Post R (f a tx))
    → Post R (after x.0 f x.1)
after-then (ok a, tx) f Q R h g = g a tx h
after-then (err e, tx) f Q R h g = tt

pub commit-Fit :
    {A : Type 0} (commits : Bool) (db : Db) (x : Result A × Tx)
    → Post (λ a d. Fit d) x
    → Fit db
    → Fit (commit commits db x).1
commit-Fit commits db (err e, tx) h fit = fit
commit-Fit true db (ok a, tx) h fit = h
commit-Fit false db (ok a, tx) h fit = fit

-- A transaction that commits only what fits leaves what fits.
pub run_in_tx-Fit :
    {A : Type 0} (begins commits : Bool) (body : M A) (db : Db)
    → ((n : ℕ) → Post (λ a db. Fit db) (body (record { db = db; calls = n })))
    → Fit db
    → Fit (run_in_tx begins commits body db).1
unfolding run_in_tx
run_in_tx-Fit begins commits body db h fit = elim (Bool-cases begins) [
  | inr b ↦ rw (b) fit
  | inl b ↦ rw (b) (commit-Fit commits db (body (record { db = db; calls = 0 })) (h 0) fit)
]
