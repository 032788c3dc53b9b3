-- ===== src/Websocket/Manager.antt =====
-- internal/websocket/hub/manager.go: the select loop of `Manager.Run`, with a lease store that is set.
-- A hub runs in a goroutine of its own, and what it does between two rounds of the loop is an event.
pub mod Registration
pub mod Tracked
pub mod Owned
pub mod Opening
pub mod Runs
pub mod Exclusive
pub mod Failing
use go_chat_msa.Common.{
  ℕ, zero, suc, ◌+◌, String, Bool, true, false, not, ◌&&◌, ◌||◌, Option, none, some, List, [], ◌∷◌,
  map, keep, length, ltb, ◌==◌, str_eq, if◌then◌else◌, find, put, remove,
}
use go_chat_msa.Websocket.Lease
use go_chat_msa.Websocket.Lease.{Lease, Store, Net, Redis}
use go_chat_msa.Websocket.SequenceFloor
use go_chat_msa.Websocket.Hub.{Hub, Lru, new_hub, handoff_close_reason}
use go_chat_msa.Websocket.Hub.Events.{force_close}
use go_chat_msa.Websocket.Hub.Start.{initialize_sequence}
use go_chat_msa.Websocket.ManagedLease.{
  Manager, ManagedLease, HubLeaseState, capture_hub_lease_state, Answers, track_lease, mark_handoff,
  release_lease, release_when_ready,
}
use go_chat_msa.Websocket.ManagedLease.Renewal.{update_lease_renew_ok}

-- The goroutine of a `releaseLeaseWhenReady`.
pub record Waiter : Type 0 where
  pub room_id : String
  pub lease : ManagedLease

-- `hubs` of Run, the manager's leases and the goroutines that wait to give one back. `next` is the
-- next pointer that is given to a hub or a lease; the keys of Redis are shared with other servers.
pub record Front (C : Type 0) : Type 0 where
  pub hubs : List (String × Hub C)
  pub manager : Manager
  pub waiters : List Waiter
  pub next : ℕ
  pub redis : Redis

-- What `getOrCreate` gets from outside: the time, uuid.NewString, what the network does to Acquire
-- and to Release, and the answer of the store's GetLastSequenceNumber.
pub record Outside : Type 0 where
  pub now : ℕ
  pub token : String
  pub net : Net
  pub release_net : Net
  pub stored : SequenceFloor.Result

pub data Refusal : Type 0 where
  handoff_in_progress : Refusal
  lease_error : Lease.Error → Refusal
  sequence_unavailable : SequenceFloor.Error → Refusal

-- A hub, by its pointer, with whether it is new.
pub data Opened : Type 0 where
  opened : ℕ → Bool → Opened
  refused : Refusal → Opened

pub data Event (C : Type 0) : Type 0 where
  -- prepareRegisterCh, registerCh and broadcastCh all look a room up
  lookup : Outside → String → Event C
  cancel_prepared : String → ℕ → Event C
  force_closes : ℕ → String → String → Event C
  hub_done : ℕ → Net → Option Bool → String → ℕ → Event C
  -- a round of the goroutine at this place in the list, with the state of its hub
  waiter_round : ℕ → Net → Option Bool → ℕ → HubLeaseState → Event C
  renewed : ℕ → String → Event C
  -- the hub of a room runs, and other servers use Redis
  hub_runs : String → Hub C → Event C
  others_run : Redis → Event C

abbrev pub nth : {A : Type 0} → ℕ → List A → Option A
nth n [] = none
nth zero (x ∷ xs) = some x
nth (suc n) (x ∷ xs) = nth n xs

abbrev pub drop_nth : {A : Type 0} → ℕ → List A → List A
drop_nth n [] = []
drop_nth zero (x ∷ xs) = xs
drop_nth (suc n) (x ∷ xs) = x ∷ drop_nth n xs

-- The reasons for which the select loop marks a handoff.
abbrev pub hands_off : String → Bool
hands_off reason =
    str_eq reason handoff_close_reason
    || str_eq reason "lease_lost"
    || str_eq reason "lease_renew_stale"

-- Whether `Release` was called between two states of the manager.
abbrev pub sent : Manager → Manager → Bool
sent m m' = ltb (length m.release_calls) (length m'.release_calls)

module _ {C : Type 0} (lru : Lru C) (s : Store) (max_length : ℕ) (has_store : Bool) where
  -- `createHub`; the manager's limiter is a parameter of the sessions' loops.
  unfoldable pub create_hub : SequenceFloor.Result → String → Front C → Front C × Opened
  create_hub stored room_id f =
      let (h, e) = initialize_sequence stored (new_hub lru f.next room_id max_length has_store) in
      elim e [
        | some x ↦ (f, refused (sequence_unavailable x))
        | none ↦ (record f { hubs = put room_id h f.hubs; next = suc f.next }, opened h.ident true)
      ]

  -- `releaseAcquiredLease`.
  unfoldable pub release_acquired_lease : Outside → Lease → Front C → Front C
  release_acquired_lease o l f = record f {
    redis = (Lease.release s o.release_net o.now l f.redis).0;
  }

  -- The end of `getOrCreate`, after `createHub`.
  abbrev pub lease_opened : Outside → Lease → Front C × Opened → Front C × Opened
  lease_opened o l (f, refused r) = (release_acquired_lease o l f, refused r)
  lease_opened o l (f, opened h created) = (
    record f { manager = track_lease f.next o.now (some l) f.manager; next = suc f.next },
    opened h created,
  )

  abbrev pub lease_answered : Outside → String → Front C → Lease.Result Lease → Front C × Opened
  lease_answered o room_id f (Lease.err e) = (f, refused (lease_error e))
  lease_answered o room_id f (Lease.ok l) = lease_opened o l (create_hub o.stored room_id f)

  unfoldable pub get_or_create : Outside → String → Front C → Front C × Opened
  get_or_create o room_id f = elim (find room_id f.hubs) [
    | some h ↦ if h.draining then (f, refused handoff_in_progress) else (f, opened h.ident false)
    | none ↦
        let (db, answer) = Lease.acquire s o.net o.now o.token room_id f.redis in
        lease_answered o room_id (record f { redis = db }) answer
  ]

  unfoldable pub on_cancel_prepared : String → ℕ → Front C → Front C
  on_cancel_prepared room_id hub f = elim (find room_id f.hubs) [
    | none ↦ f
    | some h ↦
        if h.ident == hub && h.active_sessions == 0
        then record f { hubs = put room_id (force_close "prepare_cancel" h) f.hubs }
        else f
  ]

  -- With whether the room had a hub.
  unfoldable pub on_force_close : ℕ → String → String → Front C → Front C × Bool
  on_force_close now room_id reason f = elim (find room_id f.hubs) [
    | none ↦ (f, false)
    | some h ↦
        let m = if hands_off reason then mark_handoff now room_id reason f.manager else f.manager in
        (record f { manager = m; hubs = put room_id (force_close reason h) f.hubs }, true)
  ]

  -- What the calls for a lease answer.
  abbrev pub answers : ℕ → Net → Option Bool → ManagedLease → Redis → Answers
  answers now net set_max l db = record {
    set_max = set_max;
    release = (Lease.release s net now l.lease db).1;
  }

  -- The manager after `releaseLease` or a round that waits, with what Redis then holds.
  abbrev pub settle : ℕ → Net → ManagedLease → Manager → Front C → Front C
  settle now net l m f = record f {
    manager = m;
    redis = if sent f.manager m then (Lease.release s net now l.lease f.redis).0 else f.redis;
  }

  -- `releaseLease` of a hub that is done, and the goroutine that it may start.
  unfoldable pub release_hub : ℕ → Net → Option Bool → Hub C → String → Front C → Front C
  release_hub now net set_max h room_id f = elim (find room_id f.manager.leases) [
    | none ↦ f
    | some l ↦
        let (m, waits) =
          release_lease room_id (some h.ident) (λ p. capture_hub_lease_state (some h))
            (answers now net set_max l f.redis) f.manager in
        let f' = settle now net l m f in
        if waits
        then record f' { waiters = record { room_id = room_id; lease = l } ∷ f.waiters }
        else f'
  ]

  unfoldable pub on_hub_done : ℕ → Net → Option Bool → String → ℕ → Front C → Front C
  on_hub_done now net set_max room_id hub f = elim (find room_id f.hubs) [
    | none ↦ f
    | some h ↦
        if h.ident == hub
        then release_hub now net set_max h room_id (record f { hubs = remove room_id f.hubs })
        else f
  ]

  unfoldable pub on_waiter_round : ℕ → Net → Option Bool → ℕ → HubLeaseState → Front C → Front C
  on_waiter_round now net set_max place state f = elim (nth place f.waiters) [
    | none ↦ f
    | some w ↦
        let (m, ends) =
          release_when_ready w.room_id w.lease state (answers now net set_max w.lease f.redis)
            f.manager in
        let f' = settle now net w.lease m f in
        if ends then record f' { waiters = drop_nth place f.waiters } else f'
  ]

  -- A hub keeps its pointer and its room.
  abbrev pub on_hub_runs : String → Hub C → Front C → Front C
  on_hub_runs room_id h' f = elim (find room_id f.hubs) [
    | none ↦ f
    | some h ↦ record f {
      hubs = put room_id (record h' { ident = h.ident; room_id = h.room_id }) f.hubs;
    }
  ]

  unfoldable pub select : Event C → Front C → Front C
  select (lookup o room_id) f = (get_or_create o room_id f).0
  select (cancel_prepared room_id hub) f = on_cancel_prepared room_id hub f
  select (force_closes now room_id reason) f = (on_force_close now room_id reason f).0
  select (hub_done now net set_max room_id hub) f = on_hub_done now net set_max room_id hub f
  select (waiter_round now net set_max place state) f =
      on_waiter_round now net set_max place state f
  select (renewed at room_id) f = record f { manager = update_lease_renew_ok room_id at f.manager }
  select (hub_runs room_id h) f = on_hub_runs room_id h f
  select (others_run db) f = record f { redis = db }

  unfoldable pub run : List (Event C) → Front C → Front C
  run [] f = f
  run (e ∷ es) f = run es (select e f)

-- `reconcileOwnership`: the rooms of the server that the ring gives to another.
unfoldable pub reconcile_ownership : (String → String) → String → List String → List String
reconcile_ownership locate addr rooms = keep (λ r. not (str_eq (locate r) addr)) rooms

unfoldable pub list_rooms : {C : Type 0} → Front C → List String
list_rooms f = map (λ (r, h). r) f.hubs
