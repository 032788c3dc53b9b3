-- ===== src/Examples/Leases.antt =====
-- Leases and floors of one room and two servers.
use go_chat_msa.Common.{
  ◌≡◌, refl, none, some, true, false, List, [], ◌∷◌, arith, find, find-empty, str_ne,
}
use go_chat_msa.Websocket.Lease.{
  Lease, Entry, Redis, Store, delivered, call_lost, reply_lost, ok, key, get, acquire, renew,
  release,
}
use go_chat_msa.Websocket.Lease.Fencing.{
  Op, acquires, renews, releases, apply_all, apply_all_keeps, lease_round_trip,
}
use go_chat_msa.Websocket.SequenceFloor.{Keys, set_max}
use go_chat_msa.Websocket.ManagedLease.{
  ManagedLease, Manager, HubLeaseState, Answers, release_lease,
}
use go_chat_msa.Websocket.ManagedLease.Renewal.{renew_leases, Confirmed, renew_leases-Confirmed}
use go_chat_msa.Websocket.ManagedLease.Handoff.{Guarded, release_lease-Guarded}

abbrev store : Store
store = record { key_prefix = "lease:"; owner_addr = "ws-1"; ttl = 15000 }

abbrev store_two : Store
store_two = record { key_prefix = "lease:"; owner_addr = "ws-2"; ttl = 15000 }

abbrev entry : Entry
entry = record { owner_addr = "ws-1"; token = "t1"; expires_at = 15000 }

abbrev redis : Redis
redis = ("lease:room", entry) ∷ []

abbrev foreign : Lease
foreign = record { room_id = "room"; owner_addr = "ws-2"; token = "t2" }

abbrev calls : List Op
calls =
    acquires store_two delivered 10 "t2" "room"
    ∷ renews store_two reply_lost 20 foreign
    ∷ releases store_two delivered 30 foreign
    ∷ []

redis_found : find "lease:room" redis ≡ some entry
unfolding find
redis_found = refl

apply_all_keeps_example : find "lease:room" (apply_all calls redis) ≡ some entry
apply_all_keeps_example = apply_all_keeps calls "lease:room" redis entry redis_found (
  (str_ne "t2" "t1" refl, omega arith),
  ((str_ne "t2" "t1" refl, omega arith), ((str_ne "t2" "t1" refl, omega arith), tt)),
)

abbrev own : Lease
own = record { room_id = "room"; owner_addr = "ws-1"; token = "t1" }

abbrev taken : Redis
taken = (acquire store delivered 0 "t1" "room" []).0

abbrev kept : Redis
kept = (renew store delivered 5000 own taken).0

lease_round_trip_example :
    ((acquire store delivered 0 "t1" "room" []).1 ≡ ok own)
    × ((renew store delivered 5000 own taken).1 ≡ none)
    × (find (key store "room") kept
        ≡ some (record { owner_addr = "ws-1"; token = "t1"; expires_at = 20000 }))
    × ((release store delivered 5000 own kept).1 ≡ none)
    × (find (key store "room") (release store delivered 5000 own kept).0 ≡ none)
lease_round_trip_example =
    lease_round_trip store 0 5000 "t1" "room" [] free (omega arith) (omega arith)
  where
    free : get 0 (key store "room") [] ≡ none
    free = rw (find-empty (key store "room")) refl

abbrev floors : Keys
floors = (set_max (λ n. n) "seq:" delivered "room" 41 []).0

abbrev managed : ManagedLease
managed = record {
  ident = 1;
  lease = own;
  hub = none;
  acquired_at = 0;
  last_renew_ok = 0;
  handoff_at = none;
  reason = "";
  release_waiting = false;
  releasing = false;
}

abbrev manager : Manager
manager = record { leases = ("room", managed) ∷ []; release_calls = []; floor_calls = [] }

-- A hub that failed to persist a message.
abbrev failed : HubLeaseState
failed = record {
  last_sequence = 41;
  pending_persist = 0;
  broadcast_depth = 0;
  active_sessions = 0;
  persist_failed = true;
}

abbrev answers : Answers
answers = record { set_max = some true; release = none }

release_lease-Guarded_example :
    Guarded "room" managed failed manager
      (release_lease "room" (some 5) (λ h. failed) answers manager).0
unfolding find
release_lease-Guarded_example =
    release_lease-Guarded "room" managed (some 5) 5 (λ h. failed) answers manager refl refl

-- The renewal gets no reply, 30 seconds after the lease was taken.
renew_leases-Confirmed_example :
    Confirmed 30_000_000_000 "room"
      (renew_leases store (λ l. call_lost) 30_000 30_000_000_000 redis manager).1
unfolding find
renew_leases-Confirmed_example =
    renew_leases-Confirmed store (λ l. call_lost) 30_000 30_000_000_000 redis manager "room"
      (λ l h. ground arith)
