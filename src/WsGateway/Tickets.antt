-- ===== src/WsGateway/Tickets.antt =====
-- internal/wsgateway/ticket_store.go: tickets for one connection each, in Redis. A call may be lost
-- on the way or lose its reply; either is an error for the caller.
pub mod Held
use Prim.Native.String.{◌++◌ as text_append}
use go_chat_msa.Common.{
  ℕ, String, Bool, true, false, Option, none, some, List, [], ◌∷◌, if◌then◌else◌,
}
use go_chat_msa.Shared.Keyspace.{Keys, set_nx, get_del}
use go_chat_msa.Websocket.Lease.{Net, delivered, call_lost, reply_lost}

abbrev pub ticket_key_prefix : String
ticket_key_prefix = "ws:ticket:"

abbrev pub ticket_key : String → String
ticket_key ticket = text_append ticket_key_prefix ticket

-- A command over the network: the keys after it, and its reply if one comes.
abbrev pub send : {A : Type 0} → Net → Keys × A → Keys → Keys × Option A
send delivered (db', a) db = (db', some a)
send call_lost (db', a) db = (db, none)
send reply_lost (db', a) db = (db', none)

-- `Set`, with whether it succeeds.
unfoldable pub issue : Net → ℕ → String → String → ℕ → Keys → Keys × Bool
issue net now ticket user_id ttl db =
    let (db', reply) = send net (set_nx now (ticket_key ticket) user_id ttl db) db in
    elim reply [ none ↦ (db', false) | some stored ↦ (db', stored) ]

pub data Redeemed : Type 0 where
  redeemed : String → Redeemed
  invalid redis_error : Redeemed

abbrev pub redeemed_reply : Option (Option String) → Redeemed
redeemed_reply none = redis_error
redeemed_reply (some none) = invalid
redeemed_reply (some (some user_id)) = redeemed user_id

-- `GetAndDelete`.
unfoldable pub get_and_delete : Net → ℕ → String → Keys → Keys × Redeemed
get_and_delete net now ticket db =
    let (db', reply) = send net (get_del now (ticket_key ticket) db) db in
    (db', redeemed_reply reply)
