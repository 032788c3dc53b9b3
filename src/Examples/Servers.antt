-- ===== src/Examples/Servers.antt =====
-- Two servers that look the same room up, one after the other.
use go_chat_msa.Common.{◌≡◌, refl, none, true, List, [], ◌∷◌, arith, find, put, str_ne}
use go_chat_msa.Websocket.Lease.{Store, delivered, call_lost, busy, acquire, acquire_lua}
use go_chat_msa.Websocket.Lease.Fencing.{Op, acquires, apply_all}
use go_chat_msa.Websocket.Lease.Lock.{lock_of, answers_of, lock_answers, run_refines}
use go_chat_msa.Websocket.SequenceFloor
use go_chat_msa.Websocket.Manager.{
  Front, Outside, refused, lease_error, sequence_unavailable, Event, lookup, force_closes, hub_done,
  waiter_round, renewed, get_or_create, run, create_hub,
}
use go_chat_msa.Websocket.ManagedLease.{no_hub}
use go_chat_msa.Websocket.Manager.Owned.{Owned, waits_for}
use go_chat_msa.Websocket.Manager.Runs.{run-Owned}
use go_chat_msa.Websocket.Manager.Exclusive.{exclusive_room}
use go_chat_msa.Websocket.Manager.Failing.{failed_start_frees}
use go_chat_msa.Websocket.Hub.{new_hub}
use go_chat_msa.Websocket.Hub.Start.{initialize_sequence}
use go_chat_msa.Examples.Hubs.{Cache, lru}

abbrev one : Store
one = record { key_prefix = "lease:"; owner_addr = "ws-1"; ttl = 15000 }

abbrev two : Store
two = record { key_prefix = "lease:"; owner_addr = "ws-2"; ttl = 15000 }

abbrev fresh : Front Cache
fresh = record {
  hubs = [];
  manager = record { leases = []; release_calls = []; floor_calls = [] };
  waiters = [];
  next = 0;
  redis = [];
}

abbrev first : Outside
first = record {
  now = 0;
  token = "t1";
  net = delivered;
  release_net = delivered;
  stored = SequenceFloor.ok 41;
}

abbrev second : Outside
second = record first { now = 14000; token = "t2" }

abbrev busy_calls : List Op
busy_calls = acquires two delivered 10 "t2" "room" ∷ []

abbrev after : Front Cache
after = (get_or_create lru one 2000 true first "room" fresh).0

abbrev other : Front Cache
other = record fresh { redis = apply_all busy_calls after.redis }

exclusive_room_example :
    get_or_create lru two 2000 true second "room" other ≡ (other, refused (lease_error busy))
unfolding get_or_create create_hub initialize_sequence new_hub acquire acquire_lua find put
exclusive_room_example =
    exclusive_room lru one two 2000 true first second "room" fresh other 0 busy_calls refl
      ((str_ne "t2" "t1" refl, ground arith), tt) refl refl refl (ground arith) refl

abbrev unavailable : Outside
unavailable = record first { stored = SequenceFloor.err SequenceFloor.unreachable }

failed_start_frees_example :
    let (f', answer) = get_or_create lru one 2000 true unavailable "room" fresh in
    (answer ≡ refused (sequence_unavailable SequenceFloor.unreachable))
    × (f'.hubs ≡ [])
    × (f'.manager ≡ fresh.manager)
    × (find "lease:room" f'.redis ≡ none)
unfolding find
failed_start_frees_example =
    failed_start_frees lru one 2000 unavailable "room" fresh SequenceFloor.unreachable refl refl
      refl refl refl (ground arith)

fresh-Owned : Owned fresh
unfolding find waits_for
fresh-Owned = (λ room h e. cc, (λ room i r e. cc, λ room i e. cc))

-- A room is opened, closed and given back, and opened again.
abbrev rounds : List (Event Cache)
rounds =
    lookup first "room"
    ∷ lookup second "room"
    ∷ renewed 5 "room"
    ∷ force_closes 6 "room" "lease_lost"
    ∷ hub_done 7 call_lost none "room" 0
    ∷ waiter_round 0 delivered none 8 no_hub
    ∷ lookup second "room"
    ∷ []

run-Owned_example : Owned (run lru one 2000 true rounds fresh)
run-Owned_example = run-Owned lru one 2000 true rounds fresh fresh-Owned

run_refines_example :
    (lock_of "lease:room" (apply_all busy_calls []), answers_of "lease:room" busy_calls [])
    ≡ lock_answers "lease:room" busy_calls (lock_of "lease:room" [])
run_refines_example = run_refines "lease:room" busy_calls []
