-- ===== src/Websocket/ManagedLease/Renewal.antt =====
-- internal/websocket/hub/manager.go: `renewLeases` and what it calls, with the force closes that it
-- asks for. Times are nanoseconds; `lastRenewOK` of a tracked lease is never the zero time.
use go_chat_msa.Common.{
  ℕ, ◌+◌, ◌-◌, ◌≤◌, ◌≡◌, subst, String, Bool, true, false, ◌||◌, Option, none, some, List, [], ◌∷◌,
  arith, ltb, str_eq, str_eq_iff, str_eq_refl, if◌then◌else◌, find, put, find-put, ◌⊎◌, inl, inr,
  Option-cases, Bool-cases,
}
use go_chat_msa.Websocket.Lease.{
  Lease, Store, Net, Redis, Error, lost, busy, unreachable, renew, renew_batch,
}
use go_chat_msa.Websocket.ManagedLease.{Manager, ManagedLease}

abbrev pub lease_max_stale : ℕ
lease_max_stale = 20_000_000_000

unfoldable pub snapshot : List (String × ManagedLease) → List (Option Lease)
snapshot [] = []
snapshot ((k, l) ∷ ls) = some l.lease ∷ snapshot ls

unfoldable pub update_lease_renew_ok : String → ℕ → Manager → Manager
update_lease_renew_ok room_id at m = elim (find room_id m.leases) [
  | none ↦ m
  | some l ↦ record m { leases = put room_id (record l { last_renew_ok = at }) m.leases }
]

-- `lastOK.IsZero() || now.Sub(lastOK) > leaseMaxStale`.
unfoldable pub is_stale : ℕ → String → Manager → Bool
is_stale now room_id m = elim (find room_id m.leases) [
  | none ↦ true
  | some l ↦ ltb lease_max_stale (now - l.last_renew_ok)
]

-- The manager, and the rooms that were to be closed, with the reason.
abbrev pub Round : Type 0
Round = Manager × List (String × String)

unfoldable pub renew_result : ℕ → Lease × Option Error → Round → Round
renew_result now (l, none) (m, closes) = (update_lease_renew_ok l.room_id now m, closes)
renew_result now (l, some lost) (m, closes) = (m, (l.room_id, "lease_lost") ∷ closes)
renew_result now (l, some _) (m, closes) =
    if is_stale now l.room_id m then (m, (l.room_id, "lease_renew_stale") ∷ closes) else (m, closes)

unfoldable pub renew_results : ℕ → List (Lease × Option Error) → Round → Round
renew_results now [] r = r
renew_results now (x ∷ xs) r = renew_results now xs (renew_result now x r)

-- `renewLeases`, for a lease store that is set; `at` is when the scripts run, and `now` when the
-- replies are handled.
unfoldable pub renew_leases : Store → (Lease → Net) → ℕ → ℕ → Redis → Manager → Redis × Round
renew_leases s net at now db m =
    let (db', results) = renew_batch s net at (snapshot m.leases) db in
    (db', renew_results now results (m, []))

-- A room is to be closed.
unfoldable pub is_closed : String → List (String × String) → Bool
is_closed k [] = false
is_closed k ((j, reason) ∷ closes) = str_eq j k || is_closed k closes

-- The lease of a room, if there is one, was confirmed in the last 20 seconds, or the room is closed.
abbrev pub Confirmed : ℕ → String → Round → Type 0
Confirmed now k (m, closes) =
    (l : ManagedLease)
    → find k m.leases ≡ some l
    → (now ≤ l.last_renew_ok + lease_max_stale) ⊎ (is_closed k closes ≡ true)

renew_result-own :
    (now : ℕ) (l : Lease) (e : Option Error) (r : Round)
    → Confirmed now l.room_id (renew_result now (l, e) r)
unfolding renew_result update_lease_renew_ok is_stale is_closed
renew_result-own now l none (m, closes) x h = elim (Option-cases (find l.room_id m.leases)) [
  | inl missing ↦ ground arith
  | inr (y, found) ↦ ground (
    arith,
    str_eq_refl l.room_id,
    find-put l.room_id l.room_id (record y { last_renew_ok = now }) m.leases,
  )
]
renew_result-own now l (some lost) (m, closes) x h = ground (arith, str_eq_refl l.room_id)
renew_result-own now l (some busy) (m, closes) x h = ground (arith, str_eq_refl l.room_id)
renew_result-own now l (some unreachable) (m, closes) x h = ground (arith, str_eq_refl l.room_id)

renew_result-other :
    (now : ℕ) (k : String) (l : Lease) (e : Option Error) (r : Round)
    → str_eq l.room_id k ≡ false
    → Confirmed now k r
    → Confirmed now k (renew_result now (l, e) r)
unfolding renew_result update_lease_renew_ok is_stale is_closed
renew_result-other now k l none (m, closes) ne c x h =
    elim (Option-cases (find l.room_id m.leases)) [
      | inl missing ↦ c x (ground arith)
      | inr (y, found) ↦
          c x (ground (arith, find-put l.room_id k (record y { last_renew_ok = now }) m.leases))
    ]
renew_result-other now k l (some lost) (m, closes) ne c x h = ground (arith, c x h)
renew_result-other now k l (some busy) (m, closes) ne c x h = ground (arith, c x (ground arith))
renew_result-other now k l (some unreachable) (m, closes) ne c x h =
    ground (arith, c x (ground arith))

-- A reply for a room is among the results, and its lease among those asked about.
abbrev answered : String → List (Lease × Option Error) → Bool
answered k [] = false
answered k ((l, e) ∷ xs) = str_eq l.room_id k || answered k xs

abbrev asks : String → List (Option Lease) → Bool
asks k [] = false
asks k (none ∷ ls) = asks k ls
asks k (some l ∷ ls) = str_eq l.room_id k || asks k ls

renew_results-Confirmed :
    (now : ℕ) (k : String) (xs : List (Lease × Option Error)) (r : Round)
    → Confirmed now k r ⊎ (answered k xs ≡ true)
    → Confirmed now k (renew_results now xs r)
unfolding renew_results
renew_results-Confirmed now k [] r (inl c) = c
renew_results-Confirmed now k [] r (inr h) = ground arith
renew_results-Confirmed now k ((l, e) ∷ xs) r h = elim (Bool-cases (str_eq l.room_id k)) [
  | inl same ↦ renew_results-Confirmed now k xs (renew_result now (l, e) r) (
      inl (
        subst (λ j. Confirmed now j (renew_result now (l, e) r)) ((str_eq_iff l.room_id k).0 same)
          (renew_result-own now l e r)))
  | inr ne ↦ renew_results-Confirmed now k xs (renew_result now (l, e) r) (later ne h)
]
  where
    later :
        str_eq l.room_id k ≡ false
        → Confirmed now k r ⊎ (answered k ((l, e) ∷ xs) ≡ true)
        → Confirmed now k (renew_result now (l, e) r) ⊎ (answered k xs ≡ true)
    later ne (inl c) = inl (renew_result-other now k l e r ne c)
    later ne (inr a) = inr (ground (arith, ne, a))

answered-renew_batch :
    (s : Store) (net : Lease → Net) (at : ℕ) (k : String) (ls : List (Option Lease)) (db : Redis)
    → asks k ls ≡ true
    → answered k (renew_batch s net at ls db).1 ≡ true
unfolding renew_batch
answered-renew_batch s net at k [] db h = h
answered-renew_batch s net at k (none ∷ ls) db h = answered-renew_batch s net at k ls db h
answered-renew_batch s net at k (some l ∷ ls) db h =
    let db1 = (renew s (net l) at l db).0 in ground (arith, answered-renew_batch s net at k ls db1)

asks-snapshot :
    (k : String) (ls : List (String × ManagedLease)) (l : ManagedLease)
    → find k ls ≡ some l
    → l.lease.room_id ≡ k
    → asks k (snapshot ls) ≡ true
unfolding snapshot find
asks-snapshot k [] l h same = ground arith
asks-snapshot k ((j, x) ∷ ls) l h same = elim (Bool-cases (str_eq j k)) [
  | inl e ↦ ground (arith, str_eq_iff l.lease.room_id k)
  | inr e ↦ ground (arith, asks-snapshot k ls l)
]

-- After a round of renewals, whatever the network does to each call, a room whose lease the
-- manager tracks under the room's own name was renewed or taken in the last 20 seconds, or the
-- round asks for the room to be closed.
pub renew_leases-Confirmed :
    (s : Store) (net : Lease → Net) (at now : ℕ) (db : Redis) (m : Manager) (k : String)
    → ((l : ManagedLease) → find k m.leases ≡ some l → l.lease.room_id ≡ k)
    → Confirmed now k (renew_leases s net at now db m).1
unfolding renew_leases
renew_leases-Confirmed s net at now db m k named =
    renew_results-Confirmed now k (renew_batch s net at (snapshot m.leases) db).1 (m, [])
      (elim (Option-cases (find k m.leases)) [
        | inl missing ↦ inl (λ l h. ground (arith, missing, h))
        | inr (l, found) ↦ inr (
            answered-renew_batch s net at k (snapshot m.leases) db
              (asks-snapshot k m.leases l found (named l found)))
      ])
