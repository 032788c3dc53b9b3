-- ===== src/Websocket/Manager/Registration.antt =====
-- internal/websocket/hub/manager.go: a prepared registration, which `Commit` and `Cancel` close.
use go_chat_msa.Common.{
  ℕ, ◌≡◌, refl, String, Bool, true, false, Option, none, some, List, [], ◌∷◌, if◌then◌else◌, arith,
  ◌∙◌, ◌+◌,
}

pub record Registration : Type 0 where
  pub room_id : String
  pub hub : ℕ
  pub created : Bool
  pub done : Bool

pub data Committed : Type 0 where
  committed already_closed register_failed : Committed

-- A request on cancelPreparedCh: a room and a hub.
abbrev pub Cancellation : Type 0
Cancellation = String × ℕ

abbrev pub cancellation : Registration → Option Cancellation
cancellation r = if r.created then some (r.room_id, r.hub) else none

-- How the hub's `register` ends. The hub takes the user and answers in time; or it does not take the
-- user; or it takes the user, but the context is over before `register` reads the answer.
pub data Registering : Type 0 where
  taken not_taken overtaken : Registering

-- Whether `register` returns nil, and whether the hub takes the user.
abbrev pub succeeds : Registering → Bool
succeeds taken = true
succeeds not_taken = false
succeeds overtaken = false

abbrev pub takes_user : Registering → Bool
takes_user taken = true
takes_user not_taken = false
takes_user overtaken = true

-- `Commit`, with how `register` ends: the registration, what is returned, and the cancellation that is
-- sent.
unfoldable pub commit : Registering → Registration → Registration × Committed × Option Cancellation
commit registering r =
    if r.done
    then (r, already_closed, none)
    else if succeeds registering
    then (record r { done = true }, committed, none)
    else (record r { done = true }, register_failed, cancellation r)

unfoldable pub cancel : Registration → Registration × Option Cancellation
cancel r = if r.done then (r, none) else (record r { done = true }, cancellation r)

-- The calls on one registration, by any goroutines: the flag is swapped atomically.
pub data Call : Type 0 where
  commits : Registering → Call
  cancels : Call

-- How many users the hub took, and how many cancellations were sent.
pub record Effects : Type 0 where
  pub registration : Registration
  pub registered : ℕ
  pub cancelled : ℕ

abbrev count_cancel : Option Cancellation → ℕ
count_cancel none = 0
count_cancel (some x) = 1

-- A registration that is closed already does not reach the hub.
abbrev count_taken : Registering → Committed → ℕ
count_taken registering committed = if takes_user registering then 1 else 0
count_taken registering already_closed = 0
count_taken registering register_failed = if takes_user registering then 1 else 0

unfoldable pub call : Call → Effects → Effects
call (commits registering) x =
    let (r, c, sent) = commit registering x.registration in
    record {
      registration = r;
      registered = x.registered + count_taken registering c;
      cancelled = x.cancelled + count_cancel sent;
    }
call cancels x =
    let (r, sent) = cancel x.registration in
    record x { registration = r; cancelled = x.cancelled + count_cancel sent }

unfoldable pub call_all : List Call → Effects → Effects
call_all [] x = x
call_all (c ∷ cs) x = call_all cs (call c x)

call_done :
    (c : Call) (x : Effects)
    → x.registration.done ≡ true
    → ((call c x).registration.done ≡ true)
      × ((call c x).registered ≡ x.registered)
      × ((call c x).cancelled ≡ x.cancelled)
unfolding call commit cancel
call_done (commits taken) x d = ground arith
call_done (commits not_taken) x d = ground arith
call_done (commits overtaken) x d = ground arith
call_done cancels x d = ground arith

call_all_done :
    (cs : List Call) (x : Effects)
    → x.registration.done ≡ true
    → ((call_all cs x).registered ≡ x.registered) × ((call_all cs x).cancelled ≡ x.cancelled)
unfolding call_all
call_all_done [] x d = (refl, refl)
call_all_done (c ∷ cs) x d =
    let (still, r, n) = call_done c x d in
    let (rs, ns) = call_all_done cs (call c x) still in (ground arith, ground arith)

-- Of a registration of a new hub, settled by its first call: the hub took one user, or one
-- cancellation was sent, and both exactly if the call was overtaken.
abbrev pub SettledBy : Call → Effects → Type 0
SettledBy (commits taken) x = (x.registered ≡ 1) × (x.cancelled ≡ 0)
SettledBy (commits not_taken) x = (x.registered ≡ 0) × (x.cancelled ≡ 1)
SettledBy (commits overtaken) x = (x.registered ≡ 1) × (x.cancelled ≡ 1)
SettledBy cancels x = (x.registered ≡ 0) × (x.cancelled ≡ 1)

-- What the first call does.
call_open :
    (c : Call) (r : Registration)
    → r.done ≡ false
    → r.created ≡ true
    → let x = call c (record { registration = r; registered = 0; cancelled = 0 }) in
      (x.registration.done ≡ true) × SettledBy c x
unfolding call commit cancel
call_open (commits taken) r d made = ground arith
call_open (commits not_taken) r d made = ground arith
call_open (commits overtaken) r d made = ground arith
call_open cancels r d made = ground arith

SettledBy-same :
    (c : Call) (x y : Effects)
    → y.registered ≡ x.registered
    → y.cancelled ≡ x.cancelled
    → SettledBy c x
    → SettledBy c y
SettledBy-same (commits taken) x y r n (a, b) = (r ∙ a, n ∙ b)
SettledBy-same (commits not_taken) x y r n (a, b) = (r ∙ a, n ∙ b)
SettledBy-same (commits overtaken) x y r n (a, b) = (r ∙ a, n ∙ b)
SettledBy-same cancels x y r n (a, b) = (r ∙ a, n ∙ b)

-- For an open registration of a new hub and one or more calls of Commit and Cancel on it, in
-- whatever order: the first call settles it, and the later ones change nothing.
pub settled_once :
    (c : Call) (cs : List Call) (r : Registration)
    → r.done ≡ false
    → r.created ≡ true
    → SettledBy c (call_all (c ∷ cs) (record { registration = r; registered = 0; cancelled = 0 }))
unfolding call_all
settled_once c cs r d made =
    let x = call c (record { registration = r; registered = 0; cancelled = 0 }) in
    let (over, first) = call_open c r d made in
    let (rs, ns) = call_all_done cs x over in SettledBy-same c x (call_all cs x) rs ns first
