-- ===== src/WsGateway/Tickets/Held.antt =====
-- internal/wsgateway/ticket_store.go: the tickets that a user holds.
use go_chat_msa.Common.{
  ℕ, ◌≡◌, refl, sym, inl, inr, ◌≤◌, ◌+◌, String, Bool, true, false, Option, none, some, [], ◌∷◌,
  str_eq, Bool-cases, Option-cases, find, put, remove, ltb, arith,
}
use go_chat_msa.Shared.Keyspace.{Keys, Stored, get, set_nx, get_del}
use go_chat_msa.Websocket.Lease.{Net, delivered, call_lost, reply_lost}
use go_chat_msa.WsGateway.Tickets.{
  Redeemed, redeemed, invalid, redis_error, redeemed_reply, ticket_key, issue, get_and_delete,
}

-- 1 for the user, 0 for another.
abbrev pub one_if : Bool → ℕ
one_if true = 1
one_if false = 0

-- The keys that hold a user.
unfoldable pub held : String → Keys → ℕ
held u [] = 0
held u ((k, m) ∷ db) = one_if (str_eq m.value u) + held u db

held-put :
    (u k : String) (m : Stored) (db : Keys)
    → held u (put k m db) ≤ held u db + one_if (str_eq m.value u)
unfolding held put
held-put u k m [] = ground arith
held-put u k m ((j, n) ∷ db) = elim (Bool-cases (str_eq j k)) [
  | inl e ↦ rw (e, put) (ground arith)
  | inr e ↦ rw (e, put) (ground (arith, held-put u k m db))
]

held-remove : (u k : String) (db : Keys) → held u (remove k db) ≤ held u db
unfolding held remove
held-remove u k [] = ground arith
held-remove u k ((j, n) ∷ db) = elim (Bool-cases (str_eq j k)) [
  | inl e ↦ rw (e, remove) (ground (arith, held-remove u k db))
  | inr e ↦ rw (e, remove) (ground (arith, held-remove u k db))
]

held-remove_found :
    (u k : String) (m : Stored) (db : Keys)
    → find k db ≡ some m
    → held u (remove k db) + one_if (str_eq m.value u) ≤ held u db
unfolding held remove find
held-remove_found u k m [] f = absurd (ground (arith, f))
held-remove_found u k m ((j, n) ∷ db) f = elim (Bool-cases (str_eq j k)) [
  | inl e ↦
      let same : n ≡ m = ground (arith, rw (e, find) at f) in
      rw (e, remove, sym same) (ground (arith, held-remove u k db))
  | inr e ↦ rw (e, remove) (ground (arith, held-remove_found u k m db (rw (e, find) at f)))
]

set_nx-held :
    (u k v : String) (now ttl : ℕ) (db : Keys)
    → held u (set_nx now k v ttl db).0 ≤ held u db + one_if (str_eq v u)
unfolding set_nx
set_nx-held u k v now ttl db = elim (Option-cases (get now k db)) [
  | inl e ↦ rw (e, set_nx) (held-put u k (record { value = v; expires_at = now + ttl }) db)
  | inr (h, e) ↦ rw (e, set_nx) (ground arith)
]

pub issue-held :
    (u : String) (net : Net) (now : ℕ) (ticket user_id : String) (ttl : ℕ) (db : Keys)
    → held u (issue net now ticket user_id ttl db).0 ≤ held u db + one_if (str_eq user_id u)
unfolding issue
issue-held u delivered now ticket user_id ttl db =
    set_nx-held u (ticket_key ticket) user_id now ttl db
issue-held u call_lost now ticket user_id ttl db = ground arith
issue-held u reply_lost now ticket user_id ttl db =
    set_nx-held u (ticket_key ticket) user_id now ttl db

abbrev pub worth : String → Option String → ℕ
worth u none = 0
worth u (some v) = one_if (str_eq v u)

abbrev pub paid : String → Redeemed → ℕ
paid u (redeemed v) = one_if (str_eq v u)
paid u invalid = 0
paid u redis_error = 0

get_del-held :
    (u k : String) (now : ℕ) (db : Keys)
    → let (db', reply) = get_del now k db in held u db' + worth u reply ≤ held u db
unfolding get_del
get_del-held u k now db = elim (Option-cases (find k db)) [
  | inl f ↦ rw (f, get_del) (ground arith)
  | inr (m, f) ↦ elim (Bool-cases (ltb now m.expires_at)) [
    | inl alive ↦ rw (f, alive, get_del) (held-remove_found u k m db f)
    | inr gone ↦ rw (f, gone, get_del) (ground arith)
  ]
]

paid-reply : (u : String) (o : Option String) → paid u (redeemed_reply (some o)) ≡ worth u o
paid-reply u none = refl
paid-reply u (some v) = refl

pub get_and_delete-held :
    (u : String) (net : Net) (now : ℕ) (ticket : String) (db : Keys)
    → let (db', answer) = get_and_delete net now ticket db in held u db' + paid u answer ≤ held u db
unfolding get_and_delete
get_and_delete-held u delivered now ticket db = ground (
  arith,
  get_del-held u (ticket_key ticket) now db,
  paid-reply u (get_del now (ticket_key ticket) db).1,
)
get_and_delete-held u call_lost now ticket db = ground arith
get_and_delete-held u reply_lost now ticket db =
    ground (arith, get_del-held u (ticket_key ticket) now db)
