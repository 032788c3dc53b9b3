-- ===== src/Examples/Hubs.antt =====
-- A hub with one session, a queue for two tasks and a cache on an association list.
use go_chat_msa.Common.{
  ◌≡◌, false, refl, String, none, some, true, List, [], ◌∷◌, find, put, find-put, find-empty,
  str_eq_refl, arith,
}
use go_chat_msa.Websocket.Message.{Message}
use go_chat_msa.Websocket.Hub.{Hub, Lru, Persist, Env, new_hub}
use go_chat_msa.Websocket.Hub.Broadcast.{handle_broadcast, reserve_persist_slot}
use go_chat_msa.Websocket.Hub.Events.{
  Actor, running, draining, Event, register, next_broadcast, idle_fired, stop_ready, tick, ctx_done,
  offer, worker_takes, react, run, drain_next, drained,
}
use go_chat_msa.Websocket.Hub.Sequence.{handle_all, handle_all-Gapless, Gapless}
use go_chat_msa.Websocket.Hub.Slots.{mine}
use go_chat_msa.Websocket.Hub.Slots.Runs.{Booked, run-Booked}
use go_chat_msa.Websocket.Hub.Sessions.{Counted}
use go_chat_msa.Websocket.Hub.Sessions.Runs.{run-Counted}
use go_chat_msa.Websocket.Hub.Draining.{Orderly, run-Orderly, clean_end}
use go_chat_msa.Websocket.Hub.Idle.{never_idles_out}
use go_chat_msa.Websocket.Hub.Idempotency.{IsLru, repeat_dropped, refused_retry_dropped}

abbrev pub Cache : Type 0
Cache = List (String × Message)

abbrev pub lru : Lru Cache
lru = record { empty = λ n. []; get = λ k c. (find k c, c); add = λ k m c. put k m c }

abbrev pub env : Env
env = record { new_id = some "0190"; now = 7; marshal = λ m. some "{}" }

abbrev pub message : Message
message = record {
  id = "";
  room_id = "room";
  sender_id = "ann";
  content = "hello";
  client_msg_id = "c1";
  type = "chat";
  sequence_number = 0;
  timestamp = 0;
  received_at = none;
}

abbrev message_two : Message
message_two = record message { client_msg_id = "c2" }

abbrev pub hub : Hub Cache
hub = new_hub lru 1 "room" 2000 true

abbrev pub persist : Persist
persist = record {
  has_ch = true;
  queue = [];
  queue_cap = 2;
  has_slots = true;
  slots = 0;
  slots_cap = 2;
}

abbrev full : Persist
full = record persist { slots = 2 }

abbrev actor : Actor Cache
actor = record { phase = running; hub = hub; persist = persist; in_flight = [] }

abbrev events : List (Env × Event)
events =
    (env, register 1 "ann")
    ∷ (env, offer message)
    ∷ (env, next_broadcast)
    ∷ (env, worker_takes)
    ∷ (env, ctx_done)
    ∷ []

actor-Booked : Booked actor
unfolding new_hub
actor-Booked =
    (record { covered = λ s. omega arith; within = λ s. omega arith; same_cap = refl }, refl)

lru-IsLru : IsLru lru
lru-IsLru = record {
  get-add = λ k m c. ground (arith, find-put k k m c, str_eq_refl k);
  get-get = λ k m c h. h;
}

handle_all-Gapless_example :
    Gapless hub persist
      (handle_all lru ((env, message) ∷ (env, message_two) ∷ []) hub persist).0
      (handle_all lru ((env, message) ∷ (env, message_two) ∷ []) hub persist).1
unfolding new_hub
handle_all-Gapless_example =
    handle_all-Gapless lru ((env, message) ∷ (env, message_two) ∷ []) hub persist refl (omega arith)

run-Booked_example : Booked (run lru actor events)
run-Booked_example = run-Booked lru events actor actor-Booked

hub-Counted : Counted hub
unfolding new_hub
hub-Counted = record { keys = tt; active = refl }

run-Counted_example : Counted (run lru actor events).hub
run-Counted_example = run-Counted lru events actor hub-Counted

run-Orderly_example : Orderly (run lru actor events)
run-Orderly_example = run-Orderly lru events actor tt

abbrev drained_actor : Actor Cache
drained_actor = record actor { phase = draining; hub = record hub { draining = true } }

clean_end_example :
    (drained_actor.hub.broadcast_ch ≡ [])
    × (mine drained_actor.hub.ident drained_actor.persist.queue ≡ 0)
    × (mine drained_actor.hub.ident drained_actor.in_flight ≡ 0)
unfolding new_hub react drain_next drained
clean_end_example =
    clean_end lru env next_broadcast drained_actor actor-Booked (omega arith) (λ q. cc) refl

repeat_dropped_example :
    (c : Cache) × (handle_broadcast lru env message
        (handle_broadcast lru env message hub persist).0
        persist
      ≡ (record (handle_broadcast lru env message hub persist).0 { cache = c }, persist))
repeat_dropped_example =
    repeat_dropped lru lru-IsLru env env message message hub persist persist (λ q. cc) refl

abbrev refusal : Hub Cache × Persist
refusal = handle_broadcast lru env message hub full

refused_retry_dropped_example :
    (refusal.1 ≡ full)
    × (refusal.0.last_sequence ≡ hub.last_sequence)
    × ((handle_broadcast lru env message refusal.0 persist).1 ≡ persist)
    × ((handle_broadcast lru env message refusal.0 persist).0.last_sequence ≡ hub.last_sequence)
    × ((handle_broadcast lru env message refusal.0 persist).0.sessions ≡ refusal.0.sessions)
unfolding new_hub reserve_persist_slot
refused_retry_dropped_example =
    refused_retry_dropped lru lru-IsLru env env message message hub full persist (λ q. cc) refl
      (find-empty "c1") refl refl

abbrev lonely_events : List (Env × Event)
lonely_events =
    (env, offer message)
    ∷ (env, next_broadcast)
    ∷ (env, tick)
    ∷ (env, idle_fired)
    ∷ (env, stop_ready)
    ∷ []

never_idles_out_example :
    ((run lru actor lonely_events).phase ≡ running)
    × ((run lru actor lonely_events).hub.idle_armed ≡ false)
unfolding new_hub
never_idles_out_example =
    never_idles_out lru lonely_events actor (refl, (refl, (refl, (refl, (refl, tt))))) refl refl
      refl
