-- ===== src/Websocket/Hub/Sessions.antt =====
-- The session map of a hub: one session for each user, counted by `activeSessions`.
pub mod Runs
use go_chat_msa.Common.{
  ℕ, ◌%◌, ◌≡◌, refl, String, Bool, true, false, none, List, [], ◌∷◌, arith, Option-cases, inl, inr,
  length, find, Distinct, put-Distinct, remove-Distinct, length-put, length-put_found,
  length-remove, find-remove, map_values-Distinct, length-map_values, mod_64, str_eq_refl, str_eq,
  inc_64, ltb, ◌==◌, if◌then◌else◌, subst, sym, Bool-cases,
}
use go_chat_msa.Websocket.Message.{Message, notice, msg_type_system}
use go_chat_msa.Websocket.Session.{Session, send, send_with_meta}
use go_chat_msa.Websocket.Hub.{Hub, Lru, Persist, Env}
use go_chat_msa.Websocket.Hub.Broadcast.{
  needs_persist, fan_out, number_message, enqueue_task, reject_task, handle_broadcast,
  send_system_to, rollback_sequence_and_slot, deliver, reserve_persist_slot, complete_message,
  notify_persist_done, enqueue_broadcast, ack,
}
use go_chat_msa.Websocket.Hub.Events.{
  Phase, running, draining, waiting, Event, register, unregister, ctx_done, next_broadcast,
  drain_timer, Actor, kick_session, register_session, on_register, drop_session, on_unregister,
  shutdown, begin_drain, force_close, read_broadcast, drained, drain_next, react, worker_take,
  worker_ack, queue_other, surround, step, run,
}

-- No user stands twice in the map, and the counter is its size.
pub record Counted {C : Type 0} (h : Hub C) : Type 0 where
  pub keys : Distinct h.sessions
  pub active : h.active_sessions ≡ length h.sessions % mod_64

module _ {C : Type 0} where
  pub replace-Counted :
      (h : Hub C) (ss : List (String × Session))
      → Counted h
      → Distinct ss
      → length ss ≡ length h.sessions
      → Counted (record h { sessions = ss })
  replace-Counted h ss c d e = record { keys = d; active = rw e c.active }

  pub send_system_to-Counted :
      (e : Env) (who what : String) (h : Hub C) → Counted h → Counted (send_system_to e who what h)
  unfolding send_system_to
  send_system_to-Counted e who what h c = elim (Option-cases (find who h.sessions)) [
    | inl missing ↦ rw (missing, send_system_to) c
    | inr (s, found) ↦
        rw (found, send_system_to)
          (elim (Option-cases (e.marshal (notice msg_type_system h.room_id what e.now))) [
            | inl failed ↦ rw failed c
            | inr (raw, done) ↦ rw done (
                replace-Counted h _ c (put-Distinct who (send raw s) h.sessions c.keys)
                  (length-put_found who (send raw s) h.sessions found))
          ])
  ]

  pub deliver-Counted :
      (raw : String) (m : Message) (h : Hub C) → Counted h → Counted (deliver raw m h)
  unfolding deliver
  deliver-Counted raw m h c =
      replace-Counted h _ c
        (map_values-Distinct (send_with_meta raw m.sender_id m.received_at) h.sessions c.keys)
        (length-map_values (send_with_meta raw m.sender_id m.received_at) h.sessions)

  pub same-Counted :
      (h g : Hub C)
      → Counted h
      → g.sessions ≡ h.sessions
      → g.active_sessions ≡ h.active_sessions
      → Counted g
  same-Counted h g c e f = record {
    keys = subst Distinct (sym e) c.keys;
    active = rw (e, f) c.active;
  }

  pub reject_task-Counted :
      (e : Env) (m : Message) (h : Hub C) (p : Persist)
      → Counted h
      → Counted (reject_task e m h p).0
  unfolding reject_task notify_persist_done rollback_sequence_and_slot
  reject_task-Counted e m h p c =
      send_system_to-Counted e m.sender_id _ _ (same-Counted h _ c (ground arith) (ground arith))

  pub enqueue_task-Counted :
      (e : Env) (raw : String) (m : Message) (h : Hub C) (p : Persist)
      → Counted h
      → Counted (enqueue_task e raw m h p).0
  unfolding enqueue_task
  enqueue_task-Counted e raw m h p c =
      let raised = record h { pending_persist = inc_64 h.pending_persist } in
      let c' : Counted raised = same-Counted h _ c refl refl in
      elim (Bool-cases (needs_persist h p)) [
        | inl n ↦ elim (Bool-cases (ltb (length p.queue) p.queue_cap)) [
          | inl room ↦ rw (n, room, enqueue_task) (deliver-Counted raw m raised c')
          | inr full ↦ rw (n, full, enqueue_task) (reject_task-Counted e m raised p c')
        ]
        | inr n ↦ rw (n, enqueue_task) (deliver-Counted raw m h c)
      ]

  pub number_message-Counted :
      (e : Env) (m : Message) (h : Hub C) (p : Persist)
      → Counted h
      → Counted (number_message e m h p).0
  unfolding number_message rollback_sequence_and_slot
  number_message-Counted e m h p c =
      elim (Option-cases
        (complete_message e (record m { sequence_number = inc_64 h.last_sequence })).1) [
          | inl failed ↦ rw (failed, number_message) (record { keys = c.keys; active = c.active })
          | inr (raw, done) ↦
              rw (done, number_message)
                (enqueue_task-Counted e raw _ _ p (record { keys = c.keys; active = c.active }))
        ]

  pub fan_out-Counted :
      (e : Env) (m : Message) (h : Hub C) (p : Persist) → Counted h → Counted (fan_out e m h p).0
  unfolding fan_out
  fan_out-Counted e m h p c = elim (Bool-cases (needs_persist h p)) [
    | inl n ↦ elim (Option-cases (reserve_persist_slot p)) [
      | inl full ↦ rw (n, full, fan_out) (send_system_to-Counted e m.sender_id _ h c)
      | inr (q, took) ↦ rw (n, took, fan_out) (number_message-Counted e m h q c)
    ]
    | inr n ↦ rw (n, fan_out) (number_message-Counted e m h p c)
  ]

  pub handle_broadcast-Counted :
      (lru : Lru C) (e : Env) (m : Message) (h : Hub C) (p : Persist)
      → Counted h
      → Counted (handle_broadcast lru e m h p).0
  unfolding handle_broadcast
  handle_broadcast-Counted lru e m h p c =
      let looked = record h { cache = (lru.get m.client_msg_id h.cache).1 } in
      let c' : Counted looked = record { keys = c.keys; active = c.active } in
      elim (Bool-cases (str_eq m.client_msg_id "")) [
        | inl anonymous ↦ rw (anonymous, handle_broadcast) (fan_out-Counted e m h p c)
        | inr named ↦ elim (Option-cases (lru.get m.client_msg_id h.cache).0) [
          | inl fresh ↦
              let after = fan_out-Counted e m looked p c' in
              rw (named, fresh, handle_broadcast)
                (record { keys = after.keys; active = after.active })
          | inr (old, hit) ↦ rw (named, hit, handle_broadcast) c'
        ]
      ]
