-- ===== src/Websocket/Lease/Fencing.antt =====
-- internal/websocket/roomlease/redis.go: what calls under one token do to the lease of another.
use go_chat_msa.Common.{
  ℕ, ◌+◌, ◌<◌, ◌≤◌, ◌≡◌, ◌≢◌, sym, String, none, some, List, [], ◌∷◌, arith, str_eq_iff,
  str_eq_refl, find, put, find-put, find-remove, Option-cases, inl, inr,
}
use go_chat_msa.Websocket.Lease.{
  Lease, Entry, Redis, Store, Net, delivered, call_lost, reply_lost, busy, lost, ok, err, key, get,
  acquire_lua, renew_lua, release_lua, acquire, renew, release,
}

-- What a call of any server does to the keys: the key prefix is shared, the rest is its own.
pub data Op : Type 0 where
  acquires : Store → Net → ℕ → String → String → Op
  renews releases : Store → Net → ℕ → Lease → Op

unfoldable pub apply : Op → Redis → Redis
apply (acquires s net now token room) db = (acquire s net now token room db).0
apply (renews s net now l) db = (renew s net now l db).0
apply (releases s net now l) db = (release s net now l db).0

unfoldable pub apply_all : List Op → Redis → Redis
apply_all [] db = db
apply_all (o ∷ os) db = apply_all os (apply o db)

-- The call comes from another lease, before the given time.
abbrev pub ByOther : String → ℕ → Op → Type 0
ByOther token until (acquires s net now t room) = (t ≢ token) × (now < until)
ByOther token until (renews s net now l) = (l.token ≢ token) × (now < until)
ByOther token until (releases s net now l) = (l.token ≢ token) × (now < until)

abbrev pub AllByOther : String → ℕ → List Op → Type 0
AllByOther token until [] = Unit
AllByOther token until (o ∷ os) = ByOther token until o × AllByOther token until os

acquire_lua_keeps :
    (now : ℕ) (k' k owner token : String) (ttl : ℕ) (db : Redis) (e : Entry)
    → find k db ≡ some e
    → now < e.expires_at
    → find k (acquire_lua now k' owner token ttl db).0 ≡ some e
unfolding acquire_lua
acquire_lua_keeps now k' k owner token ttl db e h lt =
    let x : Entry = record { owner_addr = owner; token = token; expires_at = now + ttl } in
    ground (arith, str_eq_iff k' k, find-put k' k x db)

renew_lua_keeps :
    (now : ℕ) (k' k token : String) (ttl : ℕ) (db : Redis) (e : Entry)
    → find k db ≡ some e
    → e.token ≢ token
    → find k (renew_lua now k' token ttl db).0 ≡ some e
unfolding renew_lua
renew_lua_keeps now k' k token ttl db e h ne = elim (Option-cases (find k' db)) [
  | inl missing ↦ ground arith
  | inr (x, found) ↦ ground (
    arith,
    str_eq_iff k' k,
    str_eq_iff x.token token,
    find-put k' k (record x { expires_at = now + ttl }) db,
  )
]

release_lua_keeps :
    (now : ℕ) (k' k token : String) (db : Redis) (e : Entry)
    → find k db ≡ some e
    → e.token ≢ token
    → find k (release_lua now k' token db).0 ≡ some e
unfolding release_lua
release_lua_keeps now k' k token db e h ne = elim (Option-cases (find k' db)) [
  | inl missing ↦ ground arith
  | inr (x, found) ↦ ground (arith, str_eq_iff k' k, str_eq_iff x.token token, find-remove k' k db)
]

apply_keeps :
    (o : Op) (k : String) (db : Redis) (e : Entry)
    → find k db ≡ some e
    → ByOther e.token e.expires_at o
    → find k (apply o db) ≡ some e
unfolding apply acquire renew release
apply_keeps (acquires s delivered now token room) k db e h o =
    acquire_lua_keeps now (key s room) k s.owner_addr token s.ttl db e h o.1
apply_keeps (acquires s call_lost now token room) k db e h o = h
apply_keeps (acquires s reply_lost now token room) k db e h o =
    acquire_lua_keeps now (key s room) k s.owner_addr token s.ttl db e h o.1
apply_keeps (renews s delivered now l) k db e h o =
    renew_lua_keeps now (key s l.room_id) k l.token s.ttl db e h (λ q. o.0 (sym q))
apply_keeps (renews s call_lost now l) k db e h o = h
apply_keeps (renews s reply_lost now l) k db e h o =
    renew_lua_keeps now (key s l.room_id) k l.token s.ttl db e h (λ q. o.0 (sym q))
apply_keeps (releases s delivered now l) k db e h o =
    release_lua_keeps now (key s l.room_id) k l.token db e h (λ q. o.0 (sym q))
apply_keeps (releases s call_lost now l) k db e h o = h
apply_keeps (releases s reply_lost now l) k db e h o =
    release_lua_keeps now (key s l.room_id) k l.token db e h (λ q. o.0 (sym q))

-- Whatever calls are made under tokens other than that of the entry under a key and before the
-- entry expires, delivered or not, on any room: the entry stays under the key as it is.
pub apply_all_keeps :
    (os : List Op) (k : String) (db : Redis) (e : Entry)
    → find k db ≡ some e
    → AllByOther e.token e.expires_at os
    → find k (apply_all os db) ≡ some e
unfolding apply_all
apply_all_keeps [] k db e h a = h
apply_all_keeps (o ∷ os) k db e h (a, as') =
    apply_all_keeps os k (apply o db) e (apply_keeps o k db e h a) as'

-- While an entry is live, an acquire of its room that is delivered reports busy, and a renewal or
-- a release under another token reports that the lease is lost; none of them changes a key.
pub live_excludes :
    (s : Store) (now : ℕ) (token room : String) (l : Lease) (db : Redis) (e : Entry)
    → find (key s l.room_id) db ≡ some e
    → now < e.expires_at
    → room ≡ l.room_id
    → e.token ≢ l.token
    → (acquire s delivered now token room db ≡ (db, err busy))
      × (renew s delivered now l db ≡ (db, some lost))
      × (release s delivered now l db ≡ (db, some lost))
unfolding acquire acquire_lua renew renew_lua release release_lua
live_excludes s now token room l db e h lt same ne = ground (arith, str_eq_iff e.token l.token)

-- On a room without a live entry an acquire that is delivered succeeds, within the TTL its holder
-- renews it for another TTL, and its release then frees the room.
pub lease_round_trip :
    (s : Store) (now later : ℕ) (token room : String) (db : Redis)
    → get now (key s room) db ≡ none
    → now ≤ later
    → later < now + s.ttl
    → let (db1, r) = acquire s delivered now token room db in
      let l : Lease = record { room_id = room; owner_addr = s.owner_addr; token = token } in
      let (db2, e) = renew s delivered later l db1 in
      let (db3, f) = release s delivered later l db2 in
      (r ≡ ok l)
      × (e ≡ none)
      × (find (key s room) db2
          ≡ some (record { owner_addr = s.owner_addr; token = token; expires_at = later + s.ttl }))
      × (f ≡ none)
      × (find (key s room) db3 ≡ none)
unfolding acquire acquire_lua renew renew_lua release release_lua
lease_round_trip s now later token room db free le lt =
    let k = key s room in
    let x : Entry = record { owner_addr = s.owner_addr; token = token; expires_at = now + s.ttl } in
    let y : Entry = record x { expires_at = later + s.ttl } in
    ground (
      arith,
      str_eq_refl k,
      str_eq_refl token,
      find-put k k x db,
      find-put k k y (put k x db),
      find-remove k k (put k y (put k x db)),
    )
