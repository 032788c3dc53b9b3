-- ===== src/Websocket/Manager/Exclusive.antt =====
-- internal/websocket/hub/manager.go with roomlease/redis.go: a room that one server opened is not opened
-- by another before the lease expires.
use go_chat_msa.Common.{
  ℕ, ◌+◌, ◌<◌, ◌≡◌, ◌≢◌, refl, sym, subst, ◌∙◌, String, Bool, true, false, none, some, List, arith,
  find, find-put_hit, str_eq_refl, Option-cases, inl, inr, if◌then◌else◌,
}
use go_chat_msa.Websocket.Lease
use go_chat_msa.Websocket.Lease.{
  Lease, Entry, Store, Net, delivered, call_lost, reply_lost, Redis, key, busy, acquire,
  acquire_lua,
}
use go_chat_msa.Websocket.Lease.Fencing.{Op, apply_all, AllByOther, apply_all_keeps}
use go_chat_msa.Websocket.SequenceFloor
use go_chat_msa.Websocket.Hub.{Hub, Lru, new_hub}
use go_chat_msa.Websocket.Hub.Start.{initialize_sequence}
use go_chat_msa.Websocket.Manager.{
  Front, Outside, Opened, opened, refused, lease_error, handoff_in_progress, create_hub,
  lease_opened, lease_answered, get_or_create,
}

-- The entry that an acquire writes.
abbrev pub entry : Store → Outside → Entry
entry s o = record { owner_addr = s.owner_addr; token = o.token; expires_at = o.now + s.ttl }

acquire_writes :
    (s : Store) (o : Outside) (room : String) (db : Redis) (l : Lease)
    → (acquire s o.net o.now o.token room db).1 ≡ Lease.ok l
    → find (key s room) (acquire s o.net o.now o.token room db).0 ≡ some (entry s o)
unfolding acquire acquire_lua
acquire_writes s o room db l h =
    ground
      (arith, h, find-put_hit (key s room) (key s room) (entry s o) db (str_eq_refl (key s room)))

acquire_busy :
    (s : Store) (now : ℕ) (token room : String) (db : Redis) (e : Entry)
    → find (key s room) db ≡ some e
    → now < e.expires_at
    → acquire s delivered now token room db ≡ (db, Lease.err busy)
unfolding acquire acquire_lua
acquire_busy s now token room db e h lt = ground (arith, h, lt)

module _ {C : Type 0} (lru : Lru C) (s : Store) (max_length : ℕ) (has_store : Bool) where
  create_hub_redis :
      (stored : SequenceFloor.Result) (room : String) (f : Front C)
      → (create_hub lru s max_length has_store stored room f).0.redis ≡ f.redis
  unfolding create_hub
  create_hub_redis stored room f =
      elim (Option-cases
        (initialize_sequence stored (new_hub lru f.next room max_length has_store)).1) [
          | inl n ↦ rw (n, create_hub) refl
          | inr (x, n) ↦ rw (n, create_hub) refl
        ]

  lease_opened_redis :
      (o : Outside) (l : Lease) (x : Front C × Opened) (h : ℕ)
      → (lease_opened lru s max_length has_store o l x).1 ≡ opened h true
      → (lease_opened lru s max_length has_store o l x).0.redis ≡ x.0.redis
  lease_opened_redis o l (f, refused r) h e = cc
  lease_opened_redis o l (f, opened i b) h e = refl

  lease_answered_opened :
      (o : Outside) (room : String) (f : Front C) (answer : Lease.Result Lease) (h : ℕ)
      → (lease_answered lru s max_length has_store o room f answer).1 ≡ opened h true
      → ((l : Lease) × (answer ≡ Lease.ok l))
        × ((lease_answered lru s max_length has_store o room f answer).0.redis ≡ f.redis)
  lease_answered_opened o room f (Lease.err x) h e = cc
  lease_answered_opened o room f (Lease.ok l) h e = (
    (l, refl),
    lease_opened_redis o l (create_hub lru s max_length has_store o.stored room f) h e
        ∙ create_hub_redis o.stored room f,
  )

  opened_old :
      (x : Hub C) (f : Front C) (h : ℕ)
      → let y : Front C × Opened =
          if x.draining then (f, refused handoff_in_progress) else (f, opened x.ident false) in
        y.1 ≢ opened h true
  opened_old x f h e = ground (arith, e)

  -- A new hub stands behind an acquire that succeeded, and the keys are as that left them.
  opened_acquired :
      (o : Outside) (room : String) (f : Front C) (h : ℕ)
      → (get_or_create lru s max_length has_store o room f).1 ≡ opened h true
      → ((l : Lease) × ((acquire s o.net o.now o.token room f.redis).1 ≡ Lease.ok l))
        × ((get_or_create lru s max_length has_store o room f).0.redis
            ≡ (acquire s o.net o.now o.token room f.redis).0)
  unfolding get_or_create
  opened_acquired o room f h e = elim (Option-cases (find room f.hubs)) [
    | inl n ↦
        let (db, answer) = acquire s o.net o.now o.token room f.redis in
        rw (n, get_or_create)
          (lease_answered_opened o room (record f { redis = db }) answer h
            (rw (n, get_or_create) at e))
    | inr (x, n) ↦ absurd (opened_old x f h (rw (n, get_or_create) at e))
  ]

  refuses_busy :
      (o : Outside) (room : String) (f : Front C) (e : Entry)
      → find room f.hubs ≡ none
      → find (key s room) f.redis ≡ some e
      → o.now < e.expires_at
      → o.net ≡ delivered
      → get_or_create lru s max_length has_store o room f ≡ (f, refused (lease_error busy))
  unfolding get_or_create
  refuses_busy o room f e n found lt net =
      rw (n, net, acquire_busy s o.now o.token room f.redis e found lt, get_or_create) refl

-- If a server opens a room that it had no hub for, and then any calls are made under other tokens
-- before the lease expires, delivered or not: a server that shares the key of the room, has no
-- hub for it and reaches Redis before that time is refused as busy, and nothing of its state
-- changes.
pub exclusive_room :
    {C : Type 0} (lru : Lru C) (s s' : Store) (max_length : ℕ) (has_store : Bool) (o o' : Outside)
    (room : String) (f f' : Front C) (h : ℕ) (os : List Op)
    → (get_or_create lru s max_length has_store o room f).1 ≡ opened h true
    → AllByOther o.token (o.now + s.ttl) os
    → f'.redis ≡ apply_all os (get_or_create lru s max_length has_store o room f).0.redis
    → key s' room ≡ key s room
    → find room f'.hubs ≡ none
    → o'.now < o.now + s.ttl
    → o'.net ≡ delivered
    → get_or_create lru s' max_length has_store o' room f' ≡ (f', refused (lease_error busy))
exclusive_room lru s s' max_length has_store o o' room f f' h os made others db same n early net =
    let ((l, ok), written) = opened_acquired lru s max_length has_store o room f h made in
    let there =
      subst (λ d. find (key s room) d ≡ some (entry s o)) (sym written)
        (acquire_writes s o room f.redis l ok) in
    let still =
      apply_all_keeps os (key s room) (get_or_create lru s max_length has_store o room f).0.redis
        (entry s o) there others in
    refuses_busy lru s' max_length has_store o' room f' (entry s o) n
      (subst (λ k. find k f'.redis ≡ some (entry s o)) (sym same)
        (subst (λ d. find (key s room) d ≡ some (entry s o)) (sym db) still))
      early net
