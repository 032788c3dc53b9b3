-- ===== src/Websocket/Manager/Owned.antt =====
-- internal/websocket/hub/manager.go: a room that has a hub has a lease of its own among those that the
-- manager tracks, which no goroutine is about to give back.
use go_chat_msa.Common.{
  ℕ, zero, suc, ◌<◌, ◌≡◌, refl, sym, ap, subst, ◌∙◌, String, Bool, true, false, ◌&&◌, ◌||◌, some,
  List, [], ◌∷◌, arith, ◌==◌, str_eq, str_eq_iff, str_eq_refl, find, put, remove, find-put_hit,
  find-put_miss, find-remove, Bool-cases, inl, inr,
}
use go_chat_msa.Websocket.Lease.{Redis}
use go_chat_msa.Websocket.Hub.{Hub}
use go_chat_msa.Websocket.ManagedLease.{Manager, ManagedLease}
use go_chat_msa.Websocket.Manager.{Front, Waiter, nth, drop_nth}
use go_chat_msa.Websocket.Manager.Tracked.{tracked, shape, MayDrop}

-- Whether a goroutine waits to give this lease of a room back.
unfoldable pub waits_for : String → ℕ → List Waiter → Bool
waits_for room i [] = false
waits_for room i (w ∷ ws) = (str_eq w.room_id room && w.lease.ident == i) || waits_for room i ws

-- A tracked lease, of the room, that no goroutine is about to give back.
abbrev pub HasLease : String → Manager → List Waiter → Type 0
HasLease room m ws = (i : ℕ) × (tracked room m ≡ some (i, room)) × (waits_for room i ws ≡ false)

pub waits_for-nth :
    (n : ℕ) (ws : List Waiter) (w : Waiter)
    → nth n ws ≡ some w
    → waits_for w.room_id w.lease.ident ws ≡ true
unfolding waits_for
waits_for-nth n [] w h = cc
waits_for-nth zero (x ∷ ws) w h = ground (arith, h, str_eq_refl w.room_id)
waits_for-nth (suc n) (x ∷ ws) w h = ground (arith, waits_for-nth n ws w h)

waits_for-drop_nth :
    (n : ℕ) (ws : List Waiter) (room : String) (i : ℕ)
    → waits_for room i (drop_nth n ws) ≡ true
    → waits_for room i ws ≡ true
unfolding waits_for
waits_for-drop_nth n [] room i h = h
waits_for-drop_nth zero (x ∷ ws) room i h = ground (arith, h)
waits_for-drop_nth (suc n) (x ∷ ws) room i h = ground (arith, h, waits_for-drop_nth n ws room i)

-- A lease that another round drops is not one that a room with a hub needs.
HasLease-Drops :
    (k room : String) (i : ℕ) (m m' : Manager) (ws : List Waiter)
    → waits_for k i ws ≡ true
    → MayDrop k i room m m'
    → HasLease room m ws
    → HasLease room m' ws
HasLease-Drops k room i m m' ws waits (inl same) (j, here, idle) = (j, same ∙ here, idle)
HasLease-Drops k room i m m' ws waits (inr (gone, eq, (r, was))) (j, here, idle) =
    let waits' : waits_for room i ws ≡ true = subst (λ x. waits_for x i ws ≡ true) eq waits in
    absurd (ground (arith, was, here, idle, waits'))

Given-Drops :
    (k room : String) (i : ℕ) (m m' : Manager) (j : ℕ) (r : String)
    → MayDrop k i room m m'
    → tracked room m' ≡ some (j, r)
    → tracked room m ≡ some (j, r)
Given-Drops k room i m m' j r (inl same) h = sym same ∙ h
Given-Drops k room i m m' j r (inr (gone, eq, was)) h = absurd (ground (arith, gone, h))

HasLease-other :
    (k room : String) (i : ℕ) (m m' : Manager) (ws : List Waiter)
    → str_eq k room ≡ false
    → MayDrop k i room m m'
    → HasLease room m ws
    → HasLease room m' ws
HasLease-other k room i m m' ws ne (inl same) (j, here, idle) = (j, same ∙ here, idle)
HasLease-other k room i m m' ws ne (inr (gone, eq, was)) leased =
    absurd (ground (arith, ne, (str_eq_iff k room).1 eq))

module _ {C : Type 0} where
  abbrev pub Rooms : Front C → Type 0
  Rooms f =
      (room : String) (h : Hub C)
      → find room f.hubs ≡ some h
      → (h.room_id ≡ room) × HasLease room f.manager f.waiters

  -- Pointers were given out before.
  abbrev pub Given : Front C → Type 0
  Given f =
      ((room : String) (i : ℕ) (r : String) → tracked room f.manager ≡ some (i, r) → i < f.next)
      × ((room : String) (i : ℕ) → waits_for room i f.waiters ≡ true → i < f.next)

  abbrev pub Owned : Front C → Type 0
  Owned f = Rooms f × Given f

  -- Only a hub is replaced by one of the same room.
  pub Owned-hub :
      (f : Front C) (k : String) (h h' : Hub C)
      → find k f.hubs ≡ some h
      → h'.room_id ≡ h.room_id
      → Owned f
      → Owned (record f { hubs = put k h' f.hubs })
  Owned-hub f k h h' found same (rooms, given) = (
    λ room x e. elim (Bool-cases (str_eq k room)) [
      | inl b ↦
          let eq : k ≡ room = (str_eq_iff k room).0 b in
          let hit : h' ≡ x = ground (arith, e, find-put_hit k room h' f.hubs b) in
          let (named, leased) = rooms room h (subst (λ r. find r f.hubs ≡ some h) eq found) in
          (sym (ap (λ y. y.room_id) hit) ∙ same ∙ named, leased)
      | inr b ↦ rooms room x (sym (find-put_miss k room h' f.hubs b) ∙ e)
    ],
    given,
  )

  -- Only the manager changes, and every room keeps what is tracked for it.
  pub Owned-manager :
      (f : Front C) (m : Manager)
      → ((room : String) → tracked room m ≡ tracked room f.manager)
      → Owned f
      → Owned (record f { manager = m })
  Owned-manager f m same (rooms, (leases, waits)) = (
    λ room h e.
        let (named, (i, here, idle)) = rooms room h e in (named, (i, same room ∙ here, idle)),
    (λ room i r e. leases room i r (sym (same room) ∙ e), waits),
  )

  Owned-redis : (f : Front C) (db : Redis) → Owned f → Owned (record f { redis = db })
  Owned-redis f db o = o

  -- A round of a goroutine that waits, and what it may drop.
  pub Owned-round :
      (f : Front C) (m : Manager) (k : String) (i : ℕ)
      → waits_for k i f.waiters ≡ true
      → ((room : String) → MayDrop k i room f.manager m)
      → Owned f
      → Owned (record f { manager = m })
  Owned-round f m k i waits drops (rooms, (leases, given)) = (
    λ room h e.
        let (named, leased) = rooms room h e in
        (named, HasLease-Drops k room i f.manager m f.waiters waits (drops room) leased),
    (λ room j r e. leases room j r (Given-Drops k room i f.manager m j r (drops room) e), given),
  )

  -- Fewer goroutines wait.
  pub Owned-ends :
      (f : Front C) (n : ℕ) → Owned f → Owned (record f { waiters = drop_nth n f.waiters })
  Owned-ends f n (rooms, (leases, given)) = (
    λ room h e.
        let (named, (i, here, idle)) = rooms room h e in
        (named, (i, here, ground (arith, idle, waits_for-drop_nth n f.waiters room i))),
    (leases, λ room i e. given room i (waits_for-drop_nth n f.waiters room i e)),
  )

  Rooms-remove :
      (f : Front C) (m : Manager) (k : String) (i : ℕ)
      → ((room : String) → MayDrop k i room f.manager m)
      → Rooms f
      → (room : String) (h : Hub C) → find room (remove k f.hubs) ≡ some h
      → (str_eq k room ≡ false) × (h.room_id ≡ room) × HasLease room m f.waiters
  Rooms-remove f m k i drops rooms room h e = elim (Bool-cases (str_eq k room)) [
    | inl b ↦ absurd (ground (arith, e, b, find-remove k room f.hubs))
    | inr b ↦
        let (named, leased) = rooms room h (ground (arith, e, b, find-remove k room f.hubs)) in
        (b, named, HasLease-other k room i f.manager m f.waiters b (drops room) leased)
  ]

  -- The hub of a room is deleted, what the manager tracks for others stays, and a goroutine may start
  -- to wait for the room's lease.
  pub Owned-done :
      (f : Front C) (m : Manager) (k : String) (l : ManagedLease)
      → find k f.manager.leases ≡ some l
      → ((room : String) → MayDrop k l.ident room f.manager m)
      → Owned f
      → let f' = record f { hubs = remove k f.hubs; manager = m } in
        Owned f' × Owned (record f' { waiters = record { room_id = k; lease = l } ∷ f.waiters })
  unfolding waits_for
  Owned-done f m k l found drops (rooms, (leases, given)) =
      let tracks : (room : String) (j : ℕ) (r : String)
          → tracked room m ≡ some (j, r)
          → j < f.next =
        λ room j r e. leases room j r (Given-Drops k room l.ident f.manager m j r (drops room) e) in
      let fresh : l.ident < f.next = leases k l.ident l.lease.room_id (ap shape found) in
      (
        (
          λ room h e.
              let (b, named, leased) = Rooms-remove f m k l.ident drops rooms room h e in
              (named, leased),
          (tracks, given),
        ),
        (
          λ room h e.
              let (b, named, (i, here, idle)) = Rooms-remove f m k l.ident drops rooms room h e in
              (named, (i, here, ground (arith, b, idle))),
          (tracks, λ room i e. ground (arith, e, fresh, given room i)),
        ),
      )

  pub Owned-remove :
      (f : Front C) (k : String) → Owned f → Owned (record f { hubs = remove k f.hubs })
  Owned-remove f k (rooms, given) = (
    λ room h e.
        let (b, named, leased) = Rooms-remove f f.manager k 0 (λ r. inl refl) rooms room h e in
        (named, leased),
    given,
  )
