-- ===== src/Websocket/ManagedLease.antt =====
-- internal/websocket/hub/manager.go: how the manager gives a room's lease back, once the room's
-- hub has stopped. The leases in Redis and the sequence floor are reached through what their calls
-- answer; the calls that were made are recorded.
pub mod Handoff
pub mod Renewal
use go_chat_msa.Common.{
  ℕ, ◌+◌, ◌-◌, String, Bool, true, false, not, ◌&&◌, ◌||◌, Option, none, some, List, [], ◌∷◌, ◌==◌,
  ltb, str_eq, if◌then◌else◌, find, put, remove, length,
}
use go_chat_msa.Websocket.Lease.{Lease, Error, lost, busy, unreachable}
use go_chat_msa.Websocket.Hub.{Hub}

-- `captureHubLeaseState` of a hub; its zero value stands for a nil hub.
pub record HubLeaseState : Type 0 where
  pub last_sequence : ℕ
  pub pending_persist : ℕ
  pub broadcast_depth : ℕ
  pub active_sessions : ℕ
  pub persist_failed : Bool

abbrev pub no_hub : HubLeaseState
no_hub = record {
  last_sequence = 0;
  pending_persist = 0;
  broadcast_depth = 0;
  active_sessions = 0;
  persist_failed = false;
}

unfoldable pub capture_hub_lease_state : {C : Type 0} → Option (Hub C) → HubLeaseState
capture_hub_lease_state none = no_hub
capture_hub_lease_state (some h) = record {
  last_sequence = h.last_sequence;
  pending_persist = h.pending_persist;
  broadcast_depth = length h.broadcast_ch;
  active_sessions = h.active_sessions;
  persist_failed = h.persist_failed;
}

unfoldable pub ready : HubLeaseState → Bool
ready s = s.pending_persist == 0 && s.broadcast_depth == 0 && not s.persist_failed

-- A `managedLease`; `ident` is its pointer, `hub` the pointer that `rememberLeaseHub` keeps.
pub record ManagedLease : Type 0 where
  pub ident : ℕ
  pub lease : Lease
  pub hub : Option ℕ
  pub acquired_at : ℕ
  pub last_renew_ok : ℕ
  pub handoff_at : Option ℕ
  pub reason : String
  pub release_waiting : Bool
  pub releasing : Bool

-- The manager's map, and the calls made: `Release` by token, `SetMax` by room and number.
pub record Manager : Type 0 where
  pub leases : List (String × ManagedLease)
  pub release_calls : List String
  pub floor_calls : List (String × ℕ)

unfoldable pub track_lease : ℕ → ℕ → Option Lease → Manager → Manager
track_lease ident now none m = m
track_lease ident now (some l) m = record m {
  leases =
      put l.room_id
        (record {
          ident = ident;
          lease = l;
          hub = none;
          acquired_at = now;
          last_renew_ok = now;
          handoff_at = none;
          reason = "";
          release_waiting = false;
          releasing = false;
        })
        m.leases;
}

abbrev pub with_reason : String → String
with_reason reason = if str_eq reason "" then "unknown" else reason

unfoldable pub mark_handoff : ℕ → String → String → Manager → Manager
mark_handoff now room_id reason m = elim (find room_id m.leases) [
  | none ↦ m
  | some l ↦ elim l.handoff_at [
    | some at ↦ m
    | none ↦ record m {
      leases =
          put room_id (record l { handoff_at = some now; reason = with_reason reason }) m.leases;
    }
  ]
]

-- `current != managed`, on pointers.
abbrev pub is_current : String → ManagedLease → Manager → Bool
is_current room_id l m = elim (find room_id m.leases) [
  | none ↦ false
  | some current ↦ current.ident == l.ident
]

-- The fields that another goroutine may have changed are read from the map.
unfoldable pub remember_lease_hub : String → ManagedLease → ℕ → Manager → Manager
remember_lease_hub room_id l h m = elim (find room_id m.leases) [
  | none ↦ m
  | some current ↦
      if current.ident == l.ident
      then elim current.hub [
        | some old ↦ m
        | none ↦ record m { leases = put room_id (record current { hub = some h }) m.leases }
      ]
      else m
]

-- With whether the caller has to start `releaseLeaseWhenReady`.
unfoldable pub mark_lease_release_waiting : String → ManagedLease → Manager → Manager × Bool
mark_lease_release_waiting room_id l m = elim (find room_id m.leases) [
  | none ↦ (m, false)
  | some current ↦
      if current.ident == l.ident
      then if current.release_waiting then (m, false) else (
        record m { leases = put room_id (record current { release_waiting = true }) m.leases },
        true,
      )
      else (m, false)
]

-- `err == nil || errors.Is(err, roomlease.ErrLost)`.
abbrev pub gone : Option Error → Bool
gone none = true
gone (some lost) = true
gone (some _) = false

-- `releaseManagedLease`, given what `Release` answers. The flag says that nothing is left to do.
unfoldable pub release_managed_lease :
    String → ManagedLease → Option Error → Manager → Manager × Bool
release_managed_lease room_id l answer m = elim (find room_id m.leases) [
  | none ↦ (m, true)
  | some current ↦
      if not (current.ident == l.ident) || current.releasing
      then (m, true)
      else let called = record m {
        leases = put room_id (record current { releasing = true }) m.leases;
        release_calls = l.lease.token ∷ m.release_calls;
      } in
        if gone answer then (record called { leases = remove room_id called.leases }, true) else (
          record called {
            leases = put room_id (record current { releasing = false }) called.leases;
          },
          false,
        )
]

-- What the calls answer: `SetMax` (`none` where there is no floor store) and `Release`.
pub record Answers : Type 0 where
  pub set_max : Option Bool
  pub release : Option Error

unfoldable pub release_lease_after_persist_failure :
    String → ManagedLease → HubLeaseState → Answers → Manager → Manager × Bool
release_lease_after_persist_failure room_id l s a m = elim a.set_max [
  | none ↦ (m, false)
  | some false ↦ (m, false)
  | some true ↦
      release_managed_lease room_id l a.release
        (record m { floor_calls = (room_id, s.last_sequence) ∷ m.floor_calls })
]

-- What follows a release that did not happen: `releaseLeaseWhenReady` is started, unless it runs.
abbrev pub wait_for_release : String → ManagedLease → Manager × Bool → Manager × Bool
wait_for_release room_id l (m, true) = (m, false)
wait_for_release room_id l (m, false) = mark_lease_release_waiting room_id l m

-- What `releaseLease` and a round of `releaseLeaseWhenReady` do with a hub's state.
unfoldable pub release_ready :
    String → ManagedLease → HubLeaseState → Answers → Manager → Manager × Bool
release_ready room_id l s a m =
    if ready s
    then release_managed_lease room_id l a.release m
    else if s.persist_failed
    then release_lease_after_persist_failure room_id l s a m
    else (m, false)

-- `if h == nil { h = managed.hub }`.
abbrev pub hub_or : Option ℕ → Option ℕ → Option ℕ
hub_or none remembered = remembered
hub_or (some h) remembered = some h

-- `releaseLease`, for a lease store that is set: with whether a goroutine that waits was started.
-- A hub is its pointer, `none` for nil, and `states` gives the state of the hub at a pointer.
unfoldable pub release_lease :
    String → Option ℕ → (ℕ → HubLeaseState) → Answers → Manager → Manager × Bool
release_lease room_id hub states a m = elim (find room_id m.leases) [
  | none ↦ (m, false)
  | some l ↦ elim (hub_or hub l.hub) [
    | none ↦ ((release_managed_lease room_id l a.release m).0, false)
    | some h ↦
        wait_for_release room_id l
          (release_ready room_id l (states h) a (remember_lease_hub room_id l h m))
  ]
]

-- One round of `releaseLeaseWhenReady`, with whether the goroutine ends. A nil hub has the zero
-- state.
unfoldable pub release_when_ready :
    String → ManagedLease → HubLeaseState → Answers → Manager → Manager × Bool
release_when_ready room_id l s a m = release_ready room_id l s a m
