-- ===== src/Websocket/Manager/Failing.antt =====
-- internal/websocket/hub/manager.go: what `getOrCreate` leaves behind where it fails.
use go_chat_msa.Common.{
  ℕ, ◌+◌, ◌<◌, ◌≡◌, refl, String, true, none, some, arith, find, put, find-put, find-remove,
  str_eq_refl,
}
use go_chat_msa.Websocket.Lease
use go_chat_msa.Websocket.Lease.{
  Lease, Entry, Store, Net, delivered, Redis, key, get, acquire, acquire_lua, release, release_lua,
}
use go_chat_msa.Websocket.SequenceFloor
use go_chat_msa.Websocket.Hub.{Lru, new_hub}
use go_chat_msa.Websocket.Hub.Start.{initialize_sequence}
use go_chat_msa.Websocket.Manager.{
  Front, Outside, refused, sequence_unavailable, create_hub, release_acquired_lease, lease_answered,
  get_or_create,
}

acquire_free :
    (s : Store) (now : ℕ) (token room : String) (db : Redis)
    → get now (key s room) db ≡ none
    → acquire s delivered now token room db ≡ (
      put
          (key s room)
          (record { owner_addr = s.owner_addr; token = token; expires_at = now + s.ttl })
          db,
      Lease.ok (record { room_id = room; owner_addr = s.owner_addr; token = token }),
    )
unfolding acquire acquire_lua
acquire_free s now token room db free = rw (free, acquire, acquire_lua) refl

release_own :
    (s : Store) (now : ℕ) (l : Lease) (db : Redis) (e : Entry)
    → find (key s l.room_id) db ≡ some e
    → now < e.expires_at
    → e.token ≡ l.token
    → find (key s l.room_id) (release s delivered now l db).0 ≡ none
unfolding release release_lua
release_own s now l db e found lt same = ground (
  arith,
  found,
  lt,
  same,
  str_eq_refl l.token,
  find-remove (key s l.room_id) (key s l.room_id) db,
  str_eq_refl (key s l.room_id),
)

module _ {C : Type 0} (lru : Lru C) (s : Store) (max_length : ℕ) where
  create_hub_unavailable :
      (x : SequenceFloor.Error) (room : String) (f : Front C)
      → create_hub lru s max_length true (SequenceFloor.err x) room f
        ≡ (f, refused (sequence_unavailable x))
  unfolding create_hub initialize_sequence new_hub
  create_hub_unavailable x room f = refl

  -- When a room without a hub and without a live lease is looked up and the store cannot tell
  -- the room's last number: with both calls delivered and a positive TTL, the lookup reports
  -- it, no hub and no lease is tracked for it, and the room is free in Redis.
  pub failed_start_frees :
      (o : Outside) (room : String) (f : Front C) (x : SequenceFloor.Error)
      → find room f.hubs ≡ none
      → o.stored ≡ SequenceFloor.err x
      → o.net ≡ delivered
      → o.release_net ≡ delivered
      → get o.now (key s room) f.redis ≡ none
      → 0 < s.ttl
      → let (f', answer) = get_or_create lru s max_length true o room f in
        (answer ≡ refused (sequence_unavailable x))
        × (f'.hubs ≡ f.hubs)
        × (f'.manager ≡ f.manager)
        × (find (key s room) f'.redis ≡ none)
  unfolding get_or_create release_acquired_lease
  failed_start_frees o room f x n failed net net' free pos =
      let l : Lease = record { room_id = room; owner_addr = s.owner_addr; token = o.token } in
      let e : Entry = record {
        owner_addr = s.owner_addr;
        token = o.token;
        expires_at = o.now + s.ttl;
      } in
      let db = put (key s room) e f.redis in
      let there : find (key s room) db ≡ some e =
        ground (arith, find-put (key s room) (key s room) e f.redis, str_eq_refl (key s room)) in
      rw (n, net, acquire_free s o.now o.token room f.redis free, get_or_create)
        (rw (failed, create_hub_unavailable x room (record f { redis = db }), lease_answered)
          (refl, refl, refl, rw net' (release_own s o.now l db e there (ground arith) refl)))
