-- ===== src/Websocket/ManagedLease/Handoff.antt =====
-- internal/websocket/hub/manager.go: when a lease is given back, seen from the calls made.
use go_chat_msa.Common.{
  ℕ, ◌≡◌, refl, String, Bool, true, false, Option, some, ◌∷◌, arith, ◌⊎◌, find,
}
use go_chat_msa.Websocket.ManagedLease.{
  HubLeaseState, ready, ManagedLease, Manager, Answers, remember_lease_hub,
  mark_lease_release_waiting, wait_for_release, release_managed_lease,
  release_lease_after_persist_failure, release_ready, release_lease, hub_or,
}

-- No release was sent, or one was sent for this lease, and then either the room had drained, or a
-- message had failed to persist and the room's last number was recorded as its floor before.
abbrev pub Guarded : String → ManagedLease → HubLeaseState → Manager → Manager → Type 0
Guarded room_id l s m m' =
    (m'.release_calls ≡ m.release_calls)
    ⊎ ((m'.release_calls ≡ l.lease.token ∷ m.release_calls)
        × ((ready s ≡ true)
            ⊎ ((s.persist_failed ≡ true)
                × (m'.floor_calls ≡ (room_id, s.last_sequence) ∷ m.floor_calls))))

managed_calls :
    (room : String) (l : ManagedLease) (answer : Option _) (m : Manager)
    → let m' = (release_managed_lease room l answer m).0 in
      (m'.floor_calls ≡ m.floor_calls)
      × ((m'.release_calls ≡ m.release_calls)
          ⊎ (m'.release_calls ≡ l.lease.token ∷ m.release_calls))
unfolding release_managed_lease
managed_calls room l answer m = ground arith

failure_calls :
    (room : String) (l : ManagedLease) (s : HubLeaseState) (a : Answers) (m : Manager)
    → let m' = (release_lease_after_persist_failure room l s a m).0 in
      (m'.release_calls ≡ m.release_calls)
      ⊎ ((m'.release_calls ≡ l.lease.token ∷ m.release_calls)
          × (m'.floor_calls ≡ (room, s.last_sequence) ∷ m.floor_calls))
unfolding release_lease_after_persist_failure
failure_calls room l s a m = ground (
  arith,
  managed_calls room l a.release
      (record m { floor_calls = (room, s.last_sequence) ∷ m.floor_calls }),
)

-- Whatever state a room's hub is in and whatever the calls answer, its lease is released only
-- after a complete drain or behind a recorded floor.
pub release_ready-Guarded :
    (room : String) (l : ManagedLease) (s : HubLeaseState) (a : Answers) (m : Manager)
    → Guarded room l s m (release_ready room l s a m).0
unfolding release_ready
release_ready-Guarded room l s a m =
    ground (arith, managed_calls room l a.release m, failure_calls room l s a m)

remember_calls :
    (room : String) (l : ManagedLease) (h : ℕ) (m : Manager)
    → ((remember_lease_hub room l h m).release_calls ≡ m.release_calls)
      × ((remember_lease_hub room l h m).floor_calls ≡ m.floor_calls)
unfolding remember_lease_hub
remember_calls room l h m = ground arith

wait_calls :
    (room : String) (l : ManagedLease) (r : Manager × Bool)
    → ((wait_for_release room l r).0.release_calls ≡ r.0.release_calls)
      × ((wait_for_release room l r).0.floor_calls ≡ r.0.floor_calls)
unfolding mark_lease_release_waiting
wait_calls room l (m, true) = (refl, refl)
wait_calls room l (m, false) = ground arith

-- For a lease that the manager tracks, with a hub given or remembered: `releaseLease` sends no
-- release, or it sends one under the lease's token, and then the hub had drained, or a message
-- had failed to persist and the hub's last number was recorded as the room's floor.
pub release_lease-Guarded :
    (room : String) (l : ManagedLease) (hub : Option ℕ) (h : ℕ) (states : ℕ → HubLeaseState)
    (a : Answers) (m : Manager)
    → find room m.leases ≡ some l
    → hub_or hub l.hub ≡ some h
    → Guarded room l (states h) m (release_lease room hub states a m).0
unfolding release_lease
release_lease-Guarded room l hub h states a m found known =
    let m1 = remember_lease_hub room l h m in
    let r = release_ready room l (states h) a m1 in
    rw (found, known, release_lease)
      (ground (
        arith,
        wait_calls room l r,
        remember_calls room l h m,
        release_ready-Guarded room l (states h) a m1,
      ))
