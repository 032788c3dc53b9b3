-- ===== src/Websocket/Hub/Frame.antt =====
-- What `handleBroadcast` and its helpers leave as it was.
use go_chat_msa.Common.{◌+◌, ◌≡◌, String, Bool, arith}
use go_chat_msa.Websocket.Message.{Message}
use go_chat_msa.Websocket.Hub.{Hub, Lru, Persist, Env, persist_backpressure_msg}
use go_chat_msa.Websocket.Hub.Broadcast.{
  fan_out, number_message, enqueue_task, handle_broadcast, send_system_to, reject_task,
  rollback_sequence_and_slot, deliver, reserve_persist_slot, release_persist_slot,
  notify_persist_done,
}

-- The identity of the hub, its inbox, its drain state, idle timer and session count, and the capacities.
abbrev pub SameFrame : {C : Type 0} → Hub C → Persist → Hub C → Persist → Type 0
SameFrame h p h' p' =
    (h'.ident ≡ h.ident)
    × (h'.has_store ≡ h.has_store)
    × (h'.draining ≡ h.draining)
    × (h'.stopped ≡ h.stopped)
    × (h'.broadcast_ch ≡ h.broadcast_ch)
    × (h'.active_sessions ≡ h.active_sessions)
    × (h'.persist_failed ≡ h.persist_failed)
    × (p'.has_ch ≡ p.has_ch)
    × (p'.queue_cap ≡ p.queue_cap)
    × (p'.has_slots ≡ p.has_slots)
    × (p'.slots_cap ≡ p.slots_cap)
    × (h'.idle_armed ≡ h.idle_armed)

module _ {C : Type 0} where
  send_system_to-SameFrame :
      (e : Env) (who what : String) (h : Hub C) (p : Persist)
      → SameFrame h p (send_system_to e who what h) p
  unfolding send_system_to
  send_system_to-SameFrame e who what h p = ground arith

  rollback-SameFrame :
      (b : Bool) (h : Hub C) (p : Persist)
      → let (h', p') = rollback_sequence_and_slot b h p in SameFrame h p h' p'
  unfolding rollback_sequence_and_slot release_persist_slot
  rollback-SameFrame b h p = ground arith

  enqueue_task-SameFrame :
      (e : Env) (raw : String) (m : Message) (h : Hub C) (p : Persist)
      → let (h', p') = enqueue_task e raw m h p in SameFrame h p h' p'
  unfolding enqueue_task reject_task notify_persist_done rollback_sequence_and_slot
      release_persist_slot send_system_to deliver
  enqueue_task-SameFrame e raw m h p = ground arith

  number_message-SameFrame :
      (e : Env) (m : Message) (h : Hub C) (p : Persist)
      → let (h', p', m') = number_message e m h p in SameFrame h p h' p'
  unfolding number_message rollback_sequence_and_slot release_persist_slot
  number_message-SameFrame e m h p = grind (arith, enqueue_task-SameFrame)

  fan_out-SameFrame :
      (e : Env) (m : Message) (h : Hub C) (p : Persist)
      → let (h', p', m') = fan_out e m h p in SameFrame h p h' p'
  unfolding fan_out reserve_persist_slot
  fan_out-SameFrame e m h p =
      let p' = record p { slots = p.slots + 1 } in
      ground (
        arith,
        number_message-SameFrame e m h p,
        number_message-SameFrame e m h p',
        send_system_to-SameFrame e m.sender_id persist_backpressure_msg h p,
      )

  pub handle_broadcast-SameFrame :
      (lru : Lru C) (e : Env) (m : Message) (h : Hub C) (p : Persist)
      → let (h', p') = handle_broadcast lru e m h p in SameFrame h p h' p'
  unfolding handle_broadcast
  handle_broadcast-SameFrame lru e m h p =
      let looked = record h { cache = (lru.get m.client_msg_id h.cache).1 } in
      ground (arith, fan_out-SameFrame e m h p, fan_out-SameFrame e m looked p)
