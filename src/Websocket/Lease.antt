-- ===== src/Websocket/Lease.antt =====
-- internal/websocket/roomlease/redis.go: the lease that one server holds on a room. The Lua scripts
-- are functions on the keys of Redis, each with the time (in milliseconds) at which it runs.
pub mod Fencing
pub mod Lock
use Prim.Native.String.{◌++◌ as text_append}
use go_chat_msa.Common.{
  ℕ, ◌+◌, String, Bool, true, false, Option, none, some, List, [], ◌∷◌, ltb, str_eq, if◌then◌else◌,
  find, put, remove,
}

pub record Lease : Type 0 where
  pub room_id : String
  pub owner_addr : String
  pub token : String

-- The hash under a key, with the time at which PEXPIRE lets it go.
pub record Entry : Type 0 where
  pub owner_addr : String
  pub token : String
  pub expires_at : ℕ

abbrev pub Redis : Type 0
Redis = List (String × Entry)

pub record Store : Type 0 where
  pub key_prefix : String
  pub owner_addr : String
  pub ttl : ℕ

-- What the network does to a call: the reply comes, the call is lost, or its reply is lost.
pub data Net : Type 0 where
  delivered call_lost reply_lost : Net

pub data Error : Type 0 where
  busy lost unreachable : Error

pub data Reply : Type 0 where
  one zero_reply minus_one : Reply

-- `client.Key`, and what EXISTS and HGET see of it at a time.
abbrev pub key : Store → String → String
key s room_id = text_append s.key_prefix room_id

abbrev pub live : ℕ → Option Entry → Option Entry
live now none = none
live now (some e) = if ltb now e.expires_at then some e else none

abbrev pub get : ℕ → String → Redis → Option Entry
get now k db = live now (find k db)

unfoldable pub acquire_lua : ℕ → String → String → String → ℕ → Redis → Redis × Reply
acquire_lua now k owner token ttl db = elim (get now k db) [
  | some e ↦ (db, zero_reply)
  | none ↦ (put k (record { owner_addr = owner; token = token; expires_at = now + ttl }) db, one)
]

unfoldable pub renew_lua : ℕ → String → String → ℕ → Redis → Redis × Reply
renew_lua now k token ttl db = elim (get now k db) [
  | none ↦ (db, minus_one)
  | some e ↦
      if str_eq e.token token
      then (put k (record e { expires_at = now + ttl }) db, one)
      else (db, zero_reply)
]

unfoldable pub release_lua : ℕ → String → String → Redis → Redis × Reply
release_lua now k token db = elim (get now k db) [
  | none ↦ (db, zero_reply)
  | some e ↦ if str_eq e.token token then (remove k db, one) else (db, zero_reply)
]

-- A script run over the network: the keys after it, and its reply if one comes.
abbrev pub call : Net → (Redis → Redis × Reply) → Redis → Redis × Option Reply
call delivered script db = let (db', r) = script db in (db', some r)
call call_lost script db = (db, none)
call reply_lost script db = ((script db).0, none)

pub data Result (A : Type 0) : Type 0 where
  ok : A → Result A
  err : Error → Result A

abbrev acquired : Lease → Option Reply → Result Lease
acquired l none = err unreachable
acquired l (some zero_reply) = err busy
acquired l (some _) = ok l

-- `Acquire`; the token is what uuid.NewString gave.
unfoldable pub acquire : Store → Net → ℕ → String → String → Redis → Redis × Result Lease
acquire s net now token room_id db =
    let l : Lease = record { room_id = room_id; owner_addr = s.owner_addr; token = token } in
    let (db', r) = call net (acquire_lua now (key s room_id) s.owner_addr token s.ttl) db in
    (db', acquired l r)

abbrev renewed : Option Reply → Option Error
renewed none = some unreachable
renewed (some one) = none
renewed (some _) = some lost

-- One command of the pipeline of `RenewBatch`.
unfoldable pub renew : Store → Net → ℕ → Lease → Redis → Redis × Option Error
renew s net now l db =
    let (db', r) = call net (renew_lua now (key s l.room_id) l.token s.ttl) db in (db', renewed r)

-- The pipeline; a nil lease is `none` and is skipped.
unfoldable pub renew_batch :
    Store → (Lease → Net) → ℕ → List (Option Lease) → Redis → Redis × List (Lease × Option Error)
renew_batch s net now [] db = (db, [])
renew_batch s net now (none ∷ ls) db = renew_batch s net now ls db
renew_batch s net now (some l ∷ ls) db =
    let (db1, e) = renew s (net l) now l db in
    let (db2, rest) = renew_batch s net now ls db1 in (db2, (l, e) ∷ rest)

abbrev released : Option Reply → Option Error
released none = some unreachable
released (some zero_reply) = some lost
released (some _) = none

-- `Release`, `none` for nil.
unfoldable pub release : Store → Net → ℕ → Lease → Redis → Redis × Option Error
release s net now l db =
    let (db', r) = call net (release_lua now (key s l.room_id) l.token) db in (db', released r)
