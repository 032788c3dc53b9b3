-- ===== src/Websocket/Hub/Slots.antt =====
-- hub.go: the accounts of the persistence path, which are the counter `pendingPersist` and the slots
-- that are reserved for the tasks in the queue.
pub mod Runs
use go_chat_msa.Common.{
  ℕ, suc, ◌+◌, ◌%◌, ◌≤◌, ◌≡◌, refl, ap, String, Bool, true, false, some, List, [], ◌∷◌, ◌++◌, arith,
  Option-cases, Bool-cases, inl, inr, length, length-append, ltb, ◌==◌, mod_64, if◌then◌else◌, sym,
  subst, lt→ltb, inc_64, str_eq,
}
use go_chat_msa.Websocket.Message.{Message}
use go_chat_msa.Websocket.Session.{Session}
use go_chat_msa.Websocket.Hub.{Hub, Lru, Persist, PersistTask, Env, persist_backpressure_msg}
use go_chat_msa.Websocket.Hub.Broadcast.{
  needs_persist, fan_out, number_message, enqueue_task, reject_task, handle_broadcast,
  send_system_to, rollback_sequence_and_slot, deliver, reserve_persist_slot, release_persist_slot,
  complete_message, notify_persist_done, enqueue_broadcast, ack,
}
use go_chat_msa.Websocket.Hub.Frame.{handle_broadcast-SameFrame}
use go_chat_msa.Websocket.Hub.Events.{
  Phase, running, draining, waiting, Event, register, unregister, idle_fired, stop_ready,
  persist_signal, next_broadcast, offer, force_closed, other_hub, worker_takes, worker_acks, Actor,
  kick_session, register_session, on_register, drop_session, on_unregister, shutdown, begin_drain,
  force_close, read_broadcast, drained, drain_next, react, worker_take, worker_ack, queue_other,
  surround, step, run,
}

-- How many tasks of a list are of one hub.
abbrev pub mine : ℕ → List PersistTask → ℕ
mine i [] = 0
mine i (t ∷ ts) = let rest = mine i ts in if t.hub == i then suc rest else rest

pub mine-append : (i : ℕ) (xs ys : List PersistTask) → mine i (xs ++ ys) ≡ mine i xs + mine i ys
mine-append i [] ys = omega arith
mine-append i (t ∷ xs) ys = ground (arith, mine-append i xs ys)

-- The slots cover the queue and `n` tasks more, and both channels have the same capacity.
pub record Room (n : ℕ) (p : Persist) : Type 0 where
  pub covered : p.has_slots ≡ true → n + length p.queue ≤ p.slots
  pub within : p.has_slots ≡ true → p.slots ≤ p.slots_cap
  pub same_cap : p.queue_cap ≡ p.slots_cap

-- The counter is the number of the hub's tasks in the queue and of those with the workers.
abbrev pub Pending : {C : Type 0} → ℕ → Hub C → Persist → Type 0
Pending k h p = h.pending_persist ≡ (mine h.ident p.queue + k) % mod_64

pub reserve-Room :
    (p : Persist) {q : Persist}
    → Room 0 p
    → reserve_persist_slot p ≡ some q
    → Room 1 q × (q.queue ≡ p.queue) × (q.has_ch ≡ p.has_ch)
unfolding reserve_persist_slot
reserve-Room p r e = ground (arith, r.covered, r.within, r.same_cap)

-- A reserved slot means room in the queue: the `default` branch is not taken.
pub reserved_never_full :
    (p : Persist) → Room 1 p → p.has_slots ≡ true → ltb (length p.queue) p.queue_cap ≡ true
reserved_never_full p r s =
    lt→ltb (length p.queue) p.queue_cap (omega (arith, r.covered s, r.within s, r.same_cap))

module _ {C : Type 0} where
  pub send_system_to_pending :
      (e : Env) (who what : String) (h : Hub C)
      → ((send_system_to e who what h).pending_persist ≡ h.pending_persist)
        × ((send_system_to e who what h).ident ≡ h.ident)
  unfolding send_system_to
  send_system_to_pending e who what h = ground arith

  pub rollback-Room :
      (b : Bool) (h : Hub C) (p : Persist) (k : ℕ)
      → Room 1 p
      → Pending k h p
      → let (h', p') = rollback_sequence_and_slot b h p in Room 0 p' × Pending k h' p'
  unfolding rollback_sequence_and_slot release_persist_slot
  rollback-Room b h p k r w = (
    record {
      covered = ground (arith, r.covered);
      within = ground (arith, r.within);
      same_cap = ground (arith, r.same_cap);
    },
    ground arith,
  )

  pub enqueue_task-Room :
      (e : Env) (raw : String) (m : Message) (h : Hub C) (p : Persist) (k : ℕ)
      → needs_persist h p ≡ true
      → Room 1 p
      → Pending k h p
      → let (h', p') = enqueue_task e raw m h p in Room 0 p' × Pending k h' p'
  unfolding enqueue_task reject_task rollback_sequence_and_slot release_persist_slot
      notify_persist_done send_system_to deliver
  enqueue_task-Room e raw m h p k n r w =
      let task : PersistTask = record { msg = m; hub = h.ident } in
      let longer = length-append p.queue (task ∷ []) in
      let counted = mine-append h.ident p.queue (task ∷ []) in
      (
        record {
          covered = ground (arith, r.covered, longer);
          within = ground (arith, r.within);
          same_cap = ground (arith, r.same_cap);
        },
        ground (arith, counted),
      )

  pub number_message-Room :
      (e : Env) (m : Message) (h : Hub C) (p : Persist) (k : ℕ)
      → needs_persist h p ≡ true
      → Room 1 p
      → Pending k h p
      → let (h', p', m') = number_message e m h p in Room 0 p' × Pending k h' p'
  unfolding number_message
  number_message-Room e m h p k n r w =
      let h1 = record h { last_sequence = inc_64 h.last_sequence } in
      let m1 = record m { sequence_number = inc_64 h.last_sequence } in
      elim (Option-cases (complete_message e m1).1) [
        | inl failed ↦ rw (failed, number_message) (rollback-Room (needs_persist h p) h1 p k r w)
        | inr (raw, done) ↦
            rw (done, number_message)
              (enqueue_task-Room e raw (complete_message e m1).0 h1 p k n r w)
      ]

  -- Without persistence neither the channels nor the counter are touched.
  pub number_message_idle :
      (e : Env) (m : Message) (h : Hub C) (p : Persist)
      → needs_persist h p ≡ false
      → let (h', p', m') = number_message e m h p in
        (p' ≡ p) × (h'.pending_persist ≡ h.pending_persist) × (h'.ident ≡ h.ident)
  unfolding number_message enqueue_task rollback_sequence_and_slot deliver
  number_message_idle e m h p n = ground arith

  pub fan_out-Room :
      (e : Env) (m : Message) (h : Hub C) (p : Persist) (k : ℕ)
      → Room 0 p
      → Pending k h p
      → let (h', p', m') = fan_out e m h p in Room 0 p' × Pending k h' p'
  unfolding fan_out
  fan_out-Room e m h p k r w = elim (Bool-cases (needs_persist h p)) [
    | inl n ↦ elim (Option-cases (reserve_persist_slot p)) [
      | inl full ↦
          rw (n, full, fan_out)
            (r, ground (arith, send_system_to_pending e m.sender_id persist_backpressure_msg h))
      | inr (q, took) ↦
          let (r', same, ch) = reserve-Room p r took in
          rw (n, took, fan_out) (number_message-Room e m h q k (rw ch n) r' (rw same w))
    ]
    | inr n ↦
        let (same, pending, ident) = number_message_idle e m h p n in
        rw (n, fan_out) (subst (Room 0) (sym same) r, rw (same, pending, ident) w)
  ]

  pub handle_broadcast-Room :
      (lru : Lru C) (e : Env) (m : Message) (h : Hub C) (p : Persist) (k : ℕ)
      → Room 0 p
      → Pending k h p
      → let (h', p') = handle_broadcast lru e m h p in Room 0 p' × Pending k h' p'
  unfolding handle_broadcast
  handle_broadcast-Room lru e m h p k r w =
      let looked = record h { cache = (lru.get m.client_msg_id h.cache).1 } in
      elim (Bool-cases (str_eq m.client_msg_id "")) [
        | inl anonymous ↦ rw (anonymous, handle_broadcast) (fan_out-Room e m h p k r w)
        | inr named ↦ elim (Option-cases (lru.get m.client_msg_id h.cache).0) [
          | inl fresh ↦ rw (named, fresh, handle_broadcast) (fan_out-Room e m looked p k r w)
          | inr (old, hit) ↦ rw (named, hit, handle_broadcast) (r, w)
        ]
      ]
