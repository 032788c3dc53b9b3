-- ===== src/Websocket/Manager/Opening.antt =====
-- internal/websocket/hub/manager.go: `getOrCreate` keeps a lease for every room that has a hub.
use go_chat_msa.Common.{
  ℕ, suc, ◌≡◌, refl, sym, ap, subst, ◌∙◌, String, Bool, true, false, some, List, arith, str_eq,
  str_eq_iff, if◌then◌else◌, find, put, find-put, find-put_hit, find-put_miss, Option-cases,
  Bool-cases, inl, inr, ◌⊎◌,
}
use go_chat_msa.Websocket.Lease
use go_chat_msa.Websocket.Lease.{Lease, Store, Net, Redis, Error}
use go_chat_msa.Websocket.SequenceFloor
use go_chat_msa.Websocket.Hub.{Hub, Lru, new_hub}
use go_chat_msa.Websocket.Hub.Start.{initialize_sequence}
use go_chat_msa.Websocket.ManagedLease.{Manager, ManagedLease, track_lease}
use go_chat_msa.Websocket.Manager.{
  Front, Outside, Opened, opened, refused, Refusal, handoff_in_progress, create_hub,
  release_acquired_lease, lease_answered, get_or_create,
}
use go_chat_msa.Websocket.Manager.Owned.{Owned}
use go_chat_msa.Websocket.Manager.Tracked.{tracked, shape}

acquire_ok-room :
    (s : Store) (net : Net) (now : ℕ) (token room : String) (db : Redis) (l : Lease)
    → (Lease.acquire s net now token room db).1 ≡ Lease.ok l
    → l.room_id ≡ room
unfolding Lease.acquire
acquire_ok-room s net now token room db l h = ground (arith, h)

find-shape :
    (k room : String) (l : ManagedLease) (ls : List (String × ManagedLease))
    → shape (find room (put k l ls))
      ≡ (if str_eq k room then some (l.ident, l.lease.room_id) else shape (find room ls))
find-shape k room l ls = ground (arith, find-put k room l ls)

-- What is tracked after `trackLease`.
track_lease-tracked :
    (i now : ℕ) (l : Lease) (room : String) (m : Manager)
    → tracked room (track_lease i now (some l) m)
      ≡ (if str_eq l.room_id room then some (i, l.room_id) else tracked room m)
unfolding track_lease
track_lease-tracked i now l room m = find-shape l.room_id room _ m.leases

if-Owned :
    {C R : Type 0} (b : Bool) (x y : Front C × R)
    → Owned x.0
    → Owned y.0
    → Owned (if b then x else y).0
if-Owned true x y h k = h
if-Owned false x y h k = k

module _ {C : Type 0} (lru : Lru C) (s : Store) (max_length : ℕ) (has_store : Bool) where
  Owned-open :
      (o : Outside) (l : Lease) (f : Front C) (h : Hub C)
      → h.room_id ≡ l.room_id
      → Owned f
      → Owned (record f {
        hubs = put l.room_id h f.hubs;
        manager = track_lease (suc f.next) o.now (some l) f.manager;
        next = suc (suc f.next);
      })
  Owned-open o l f h named (rooms, (leases, given)) = (
    λ room x e. elim (Bool-cases (str_eq l.room_id room)) [
      | inl b ↦
          let eq : l.room_id ≡ room = (str_eq_iff l.room_id room).0 b in
          let hit : h ≡ x = ground (arith, e, find-put_hit l.room_id room h f.hubs b) in
          (
            sym (ap (λ y. y.room_id) hit) ∙ named ∙ eq,
            (
              suc f.next,
              track_lease-tracked (suc f.next) o.now l room f.manager ∙ ground (arith, b, eq),
              ground (arith, given room (suc f.next)),
            ),
          )
      | inr b ↦
          let (its, (i, here, idle)) =
            rooms room x (sym (find-put_miss l.room_id room h f.hubs b) ∙ e) in
          (
            its,
            (
              i,
              track_lease-tracked (suc f.next) o.now l room f.manager ∙ ground (arith, b, here),
              idle,
            ),
          )
    ],
    (
      λ room i r e.
          ground
            (arith, e, track_lease-tracked (suc f.next) o.now l room f.manager, leases room i r),
      λ room i e. ground (arith, given room i e),
    ),
  )

  -- `createHub` either fails or adds a hub of the room under the next pointer.
  abbrev Created : String → Front C → Front C × Opened → Type 0
  Created room f x =
      ((r : Refusal) × (x ≡ (f, refused r)))
      ⊎ ((h : Hub C) × (h.room_id ≡ room)
          × (x ≡ (record f { hubs = put room h f.hubs; next = suc f.next }, opened h.ident true)))

  create_hub-Created :
      (stored : SequenceFloor.Result) (room : String) (f : Front C)
      → Created room f (create_hub lru s max_length has_store stored room f)
  unfolding create_hub initialize_sequence new_hub
  create_hub-Created (SequenceFloor.ok n) room f =
      elim has_store
        as (λ b. Created room f (create_hub lru s max_length b (SequenceFloor.ok n) room f)) [
          | true ↦ inr (_, refl, refl)
          | false ↦ inr (_, refl, refl)
        ]
  create_hub-Created (SequenceFloor.err x) room f =
      elim has_store
        as (λ b. Created room f (create_hub lru s max_length b (SequenceFloor.err x) room f)) [
          | true ↦ inl (_, refl)
          | false ↦ inr (_, refl, refl)
        ]

  lease_answered-Owned :
      (o : Outside) (room : String) (f : Front C) (answer : Lease.Result Lease)
      → ((l : Lease) → answer ≡ Lease.ok l → l.room_id ≡ room)
      → Owned f
      → Owned (lease_answered lru s max_length has_store o room f answer).0
  unfolding release_acquired_lease
  lease_answered-Owned o room f (Lease.err e) of_room owned = owned
  lease_answered-Owned o room f (Lease.ok l) of_room owned =
      elim (create_hub-Created o.stored room f) [
        | inl (r, fails) ↦ rw fails owned
        | inr (h, named, made) ↦
            let eq = of_room l refl in
            rw made (
              subst
                (λ r. Owned (record f {
                  hubs = put r h f.hubs;
                  manager = track_lease (suc f.next) o.now (some l) f.manager;
                  next = suc (suc f.next);
                }))
                eq (Owned-open o l f h (named ∙ sym eq) owned))
      ]

  pub get_or_create-Owned :
      (o : Outside) (room : String) (f : Front C)
      → Owned f
      → Owned (get_or_create lru s max_length has_store o room f).0
  unfolding get_or_create
  get_or_create-Owned o room f owned = elim (Option-cases (find room f.hubs)) [
    | inl n ↦
        rw (n, get_or_create)
          (lease_answered-Owned o room _ (Lease.acquire s o.net o.now o.token room f.redis).1
            (λ l. acquire_ok-room s o.net o.now o.token room f.redis l) owned)
    | inr (h, n) ↦
        rw (n, get_or_create)
          (if-Owned h.draining (f, refused handoff_in_progress) (f, opened h.ident false) owned
            owned)
  ]
