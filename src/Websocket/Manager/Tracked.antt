-- ===== src/Websocket/Manager/Tracked.antt =====
-- internal/websocket/hub/manager.go: which leases the operations on the manager's map leave tracked.
use go_chat_msa.Common.{
  ℕ, ◌≡◌, refl, sym, ap, subst, String, Bool, true, false, Option, none, some, List, ◌∷◌, arith,
  str_eq, str_eq_iff, find, put, find-put, find-put_hit, find-put_miss, find-remove, Option-cases,
  Bool-cases, inl, inr, ◌⊎◌,
}
use go_chat_msa.Websocket.Lease.{Error}
use go_chat_msa.Websocket.ManagedLease.{
  Manager, ManagedLease, HubLeaseState, Answers, mark_handoff, with_reason, remember_lease_hub,
  mark_lease_release_waiting, wait_for_release, release_managed_lease,
  release_lease_after_persist_failure, release_ready, release_lease, release_when_ready,
}
use go_chat_msa.Websocket.ManagedLease.Renewal.{update_lease_renew_ok}

-- The pointer of the lease that is tracked for a room, and its room.
abbrev pub shape : Option ManagedLease → Option (ℕ × String)
shape none = none
shape (some l) = some (l.ident, l.lease.room_id)

abbrev pub tracked : String → Manager → Option (ℕ × String)
tracked room m = shape (find room m.leases)

-- What changes a tracked lease in place keeps its pointer and its room.
put-tracked :
    (k room : String) (l l' : ManagedLease) (ls : List (String × ManagedLease))
    → find k ls ≡ some l
    → l'.ident ≡ l.ident
    → l'.lease ≡ l.lease
    → shape (find room (put k l' ls)) ≡ shape (find room ls)
put-tracked k room l l' ls found i j = elim (Bool-cases (str_eq k room)) [
  | inl e ↦
      let same : k ≡ room = (str_eq_iff k room).0 e in
      let found' : find room ls ≡ some l = subst (λ r. find r ls ≡ some l) same found in
      rw (find-put_hit k room l' ls e, found') (ground (arith, i, ap (λ x. x.room_id) j))
  | inr e ↦ rw (find-put_miss k room l' ls e) refl
]

remember_lease_hub-tracked :
    (k room : String) (l : ManagedLease) (h : ℕ) (m : Manager)
    → tracked room (remember_lease_hub k l h m) ≡ tracked room m
unfolding remember_lease_hub
remember_lease_hub-tracked k room l h m = elim (Option-cases (find k m.leases)) [
  | inl n ↦ ground (arith, n)
  | inr (x, n) ↦
      ground (arith, n, put-tracked k room x (record x { hub = some h }) m.leases n refl refl)
]

pub mark_handoff-tracked :
    (now : ℕ) (k room reason : String) (m : Manager)
    → tracked room (mark_handoff now k reason m) ≡ tracked room m
unfolding mark_handoff
mark_handoff-tracked now k room reason m = elim (Option-cases (find k m.leases)) [
  | inl n ↦ ground (arith, n)
  | inr (x, n) ↦ ground (
    arith,
    n,
    put-tracked k room x (record x { handoff_at = some now; reason = with_reason reason }) m.leases
        n refl refl,
  )
]

pub update_lease_renew_ok-tracked :
    (at : ℕ) (k room : String) (m : Manager)
    → tracked room (update_lease_renew_ok k at m) ≡ tracked room m
unfolding update_lease_renew_ok
update_lease_renew_ok-tracked at k room m = elim (Option-cases (find k m.leases)) [
  | inl n ↦ ground (arith, n)
  | inr (x, n) ↦
      ground (arith, n, put-tracked k room x (record x { last_renew_ok = at }) m.leases n refl refl)
]

mark_lease_release_waiting-tracked :
    (k room : String) (l : ManagedLease) (m : Manager)
    → tracked room (mark_lease_release_waiting k l m).0 ≡ tracked room m
unfolding mark_lease_release_waiting
mark_lease_release_waiting-tracked k room l m = elim (Option-cases (find k m.leases)) [
  | inl n ↦ ground (arith, n)
  | inr (x, n) ↦
      ground
        (arith, n, put-tracked k room x (record x { release_waiting = true }) m.leases n refl refl)
]

-- What is tracked for a room before and after: the same, or the lease with this pointer was dropped.
abbrev pub Drops : String → ℕ → String → Option (ℕ × String) → Option (ℕ × String) → Type 0
Drops k i room before after =
    (after ≡ before) ⊎ ((after ≡ none) × (k ≡ room) × ((r : String) × (before ≡ some (i, r))))

abbrev pub MayDrop : String → ℕ → String → Manager → Manager → Type 0
MayDrop k i room m m' = Drops k i room (tracked room m) (tracked room m')

release_managed_lease-tracked :
    (k room : String) (l : ManagedLease) (answer : Option Error) (m : Manager)
    → MayDrop k l.ident room m (release_managed_lease k l answer m).0
unfolding release_managed_lease
release_managed_lease-tracked k room l answer m = elim (Option-cases (find k m.leases)) [
  | inl n ↦ inl (ground (arith, n))
  | inr (x, n) ↦
      let on = put k (record x { releasing = true }) m.leases in
      elim (Bool-cases (str_eq k room)) [
        | inl e ↦ ground (
          arith,
          n,
          e,
          str_eq_iff k room,
          find-remove k room on,
          find-put k room (record x { releasing = true }) m.leases,
          find-put k room (record x { releasing = false }) on,
          ap (λ r. tracked r m) ((str_eq_iff k room).0 e),
        )
        | inr e ↦ inl (
            ground (
              arith,
              n,
              e,
              find-remove k room on,
              find-put k room (record x { releasing = true }) m.leases,
              find-put k room (record x { releasing = false }) on,
            ))
      ]
]

release_lease_after_persist_failure-tracked :
    (k room : String) (l : ManagedLease) (s : HubLeaseState) (a : Answers) (m : Manager)
    → MayDrop k l.ident room m (release_lease_after_persist_failure k l s a m).0
unfolding release_lease_after_persist_failure
release_lease_after_persist_failure-tracked k room l s a m =
    elim a.set_max
      as (λ x.
        MayDrop k l.ident room m
          (release_lease_after_persist_failure k l s (record a { set_max = x }) m).0) [
            | none ↦ inl refl
            | some false ↦ inl refl
            | some true ↦
                release_managed_lease-tracked k room l a.release
                  (record m { floor_calls = (k, s.last_sequence) ∷ m.floor_calls })
          ]

release_ready-tracked :
    (k room : String) (l : ManagedLease) (s : HubLeaseState) (a : Answers) (m : Manager)
    → MayDrop k l.ident room m (release_ready k l s a m).0
unfolding release_ready
release_ready-tracked k room l s a m = ground (
  arith,
  release_managed_lease-tracked k room l a.release m,
  release_lease_after_persist_failure-tracked k room l s a m,
)

wait_for_release-tracked :
    (k room : String) (l : ManagedLease) (r : Manager × Bool)
    → tracked room (wait_for_release k l r).0 ≡ tracked room r.0
wait_for_release-tracked k room l (m, true) = refl
wait_for_release-tracked k room l (m, false) = mark_lease_release_waiting-tracked k room l m

pub release_lease-tracked :
    (k room : String) (h : ℕ) (states : ℕ → HubLeaseState) (a : Answers) (m : Manager)
    (l : ManagedLease)
    → find k m.leases ≡ some l
    → MayDrop k l.ident room m (release_lease k (some h) states a m).0
unfolding release_lease
release_lease-tracked k room h states a m l found =
    let m1 = remember_lease_hub k l h m in
    let r = release_ready k l (states h) a m1 in
    let drops = release_ready-tracked k room l (states h) a m1 in
    rw (found, release_lease)
      (subst (λ x. Drops k l.ident room x (tracked room (wait_for_release k l r).0))
        (remember_lease_hub-tracked k room l h m)
        (subst (λ x. Drops k l.ident room (tracked room m1) x)
          (sym (wait_for_release-tracked k room l r)) drops))

pub release_when_ready-tracked :
    (k room : String) (l : ManagedLease) (s : HubLeaseState) (a : Answers) (m : Manager)
    → MayDrop k l.ident room m (release_when_ready k l s a m).0
unfolding release_when_ready
release_when_ready-tracked k room l s a m = release_ready-tracked k room l s a m
