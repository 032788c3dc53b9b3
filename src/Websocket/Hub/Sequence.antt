-- ===== src/Websocket/Hub/Sequence.antt =====
-- The numbers that `fanOut` gives: one after the other, and given back where the message fails.
use mathlib.Core.List.{append-nil, append_assoc}
use go_chat_msa.Common.{
  ◌≤◌, ℕ, ◌+◌, ◌<◌, ◌≡◌, refl, sym, ◌∙◌, ap, subst, ◌⊎◌, inl, inr, String, Bool, true, some, List,
  [], ◌∷◌, ◌++◌, arith, length, inc_64, dec_64, mod_64, Option-cases,
}
use go_chat_msa.Websocket.Message.{Message}
use go_chat_msa.Websocket.Hub.{Hub, Lru, Persist, PersistTask, Env}
use go_chat_msa.Websocket.Hub.Frame.{handle_broadcast-SameFrame}
use go_chat_msa.Websocket.Hub.Broadcast.{
  needs_persist, fan_out, number_message, enqueue_task, handle_broadcast, send_system_to,
  reject_task, rollback_sequence_and_slot, deliver, notify_persist_done, reserve_persist_slot,
  release_persist_slot, complete_message,
}

-- What a room's numbering says of one step: nothing changed, or one task, with the next number and
-- for the same sender and content, was queued.
abbrev pub Numbered : {C : Type 0} → Message → Hub C → Persist → Hub C → Persist → Type 0
Numbered m h p h' p' =
    ((h'.last_sequence ≡ h.last_sequence) × (p'.queue ≡ p.queue))
    ⊎ ((t : PersistTask) × (h'.last_sequence ≡ h.last_sequence + 1)
        × (p'.queue ≡ p.queue ++ t ∷ [])
        × (t.msg.sequence_number ≡ h.last_sequence + 1)
        × (t.hub ≡ h.ident)
        × (t.msg.sender_id ≡ m.sender_id)
        × (t.msg.content ≡ m.content))

release_persist_slot_queue : (p : Persist) → (release_persist_slot p).queue ≡ p.queue
unfolding release_persist_slot
release_persist_slot_queue p = ground arith

reserve_persist_slot_queue :
    (p : Persist) {q : Persist}
    → reserve_persist_slot p ≡ some q
    → (q.queue ≡ p.queue) × (q.has_ch ≡ p.has_ch)
unfolding reserve_persist_slot
reserve_persist_slot_queue p h = ground arith

complete_message_keeps :
    (e : Env) (m : Message)
    → let m' = (complete_message e m).0 in
      (m'.sequence_number ≡ m.sequence_number)
      × (m'.sender_id ≡ m.sender_id)
      × (m'.content ≡ m.content)
      × (m'.client_msg_id ≡ m.client_msg_id)
unfolding complete_message
complete_message_keeps e m = ground arith

module _ {C : Type 0} where
  send_system_to_seq :
      (e : Env) (who what : String) (h : Hub C)
      → (send_system_to e who what h).last_sequence ≡ h.last_sequence
  unfolding send_system_to
  send_system_to_seq e who what h = ground arith

  -- The task is queued, or the number is given back.
  enqueue_task_cases :
      (e : Env) (raw : String) (m : Message) (h : Hub C) (p : Persist)
      → needs_persist h p ≡ true
      → let (h', p') = enqueue_task e raw m h p in
        ((h'.last_sequence ≡ h.last_sequence)
          × (p'.queue ≡ p.queue ++ record { msg = m; hub = h.ident } ∷ []))
        ⊎ ((h'.last_sequence ≡ dec_64 h.last_sequence) × (p'.queue ≡ p.queue))
  unfolding enqueue_task reject_task notify_persist_done rollback_sequence_and_slot
      release_persist_slot send_system_to deliver
  enqueue_task_cases e raw m h p n = ground arith

  rollback_cases :
      (b : Bool) (h : Hub C) (p : Persist)
      → let (h', p') = rollback_sequence_and_slot b h p in
        (h'.last_sequence ≡ dec_64 h.last_sequence) × (p'.queue ≡ p.queue)
  unfolding rollback_sequence_and_slot release_persist_slot
  rollback_cases b h p = ground arith

  number_message-Numbered :
      (e : Env) (m : Message) (h : Hub C) (p : Persist)
      → needs_persist h p ≡ true
      → h.last_sequence + 1 < mod_64
      → let (h', p', m') = number_message e m h p in Numbered m h p h' p'
  unfolding number_message
  number_message-Numbered e m h p n w =
      let m1 = record m { sequence_number = inc_64 h.last_sequence } in
      let h1 = record h { last_sequence = inc_64 h.last_sequence } in
      let kept = complete_message_keeps e m1 in
      elim (Option-cases (complete_message e m1).1) [
        | inl failed ↦
            let r = rollback_cases (needs_persist h p) h1 p in
            rw (failed, number_message) (inl (omega (arith, r.0), r.1))
        | inr (raw, done) ↦
            rw (done, number_message)
              (elim (enqueue_task_cases e raw (complete_message e m1).0 h1 p n) [
                | inl (s, q) ↦ inr (
                  record { msg = (complete_message e m1).0; hub = h.ident },
                  omega (arith, s),
                  q,
                  omega (arith, kept.0),
                  refl,
                  kept.1,
                  kept.2,
                )
                | inr (s, q) ↦ inl (omega (arith, s), q)
              ])
      ]

  fan_out-Numbered :
      (e : Env) (m : Message) (h : Hub C) (p : Persist)
      → needs_persist h p ≡ true
      → h.last_sequence + 1 < mod_64
      → let (h', p', m') = fan_out e m h p in Numbered m h p h' p'
  unfolding fan_out
  fan_out-Numbered e m h p n w = elim (Option-cases (reserve_persist_slot p)) [
    | inl full ↦ rw (n, full, fan_out) (inl (send_system_to_seq e m.sender_id _ h, refl))
    | inr (q, took) ↦
        let kept = reserve_persist_slot_queue p took in
        rw (n, took, fan_out) (rw (← kept.0) (number_message-Numbered e m h q (rw kept.1 n) w))
  ]

  -- For a hub that persists, with a counter that does not wrap, one message leaves the last
  -- number and the queue as they are, or raises the number by one and queues one task of the
  -- hub under it, for the same sender and content.
  pub handle_broadcast-Numbered :
      (lru : Lru C) (e : Env) (m : Message) (h : Hub C) (p : Persist)
      → needs_persist h p ≡ true
      → h.last_sequence + 1 < mod_64
      → let (h', p') = handle_broadcast lru e m h p in Numbered m h p h' p'
  unfolding handle_broadcast
  handle_broadcast-Numbered lru e m h p n w =
      let looked = record h { cache = (lru.get m.client_msg_id h.cache).1 } in
      ground (arith, fan_out-Numbered e m h p n w, fan_out-Numbered e m looked p n w)

-- The messages of a list, handled one after the other, each with what its step gets from outside.
pub handle_all : {C : Type 0} → Lru C → List (Env × Message) → Hub C → Persist → Hub C × Persist
handle_all lru [] h p = (h, p)
handle_all lru ((e, m) ∷ ms) h p =
    let (h', p') = handle_broadcast lru e m h p in handle_all lru ms h' p'

-- n + 1, n + 2, …, one number for each task.
abbrev pub CountsFrom : ℕ → List PersistTask → Type 0
CountsFrom n [] = Unit
CountsFrom n (t ∷ ts) = (t.msg.sequence_number ≡ n + 1) × CountsFrom (n + 1) ts

-- The tasks that a run adds to the queue are numbered without a gap from the last number on, and
-- the counter ends at the last of them.
abbrev pub Gapless : {C : Type 0} → Hub C → Persist → Hub C → Persist → Type 0
Gapless h p h' p' =
    (ts : List PersistTask) × (p'.queue ≡ p.queue ++ ts)
    × CountsFrom h.last_sequence ts
    × (h'.last_sequence ≡ h.last_sequence + length ts)

module _ {C : Type 0} where
  Gapless-cons :
      (m : Message) (h : Hub C) (p : Persist) (h1 : Hub C) (p1 : Persist) (h2 : Hub C)
      (p2 : Persist)
      → Numbered m h p h1 p1
      → Gapless h1 p1 h2 p2
      → Gapless h p h2 p2
  Gapless-cons m h p h1 p1 h2 p2 (inl (s, q)) (ts, added, counts, last) = (
    ts,
    added ∙ ap (λ l. l ++ ts) q,
    subst (λ n. CountsFrom n ts) s counts,
    last ∙ ap (λ n. n + length ts) s,
  )
  Gapless-cons m h p h1 p1 h2 p2 (inr (t, s, q, number, _, _, _)) (ts, added, counts, last) = (
    t ∷ ts,
    added ∙ ap (λ l. l ++ ts) q ∙ append_assoc p.queue (t ∷ []) ts,
    (number, subst (λ n. CountsFrom n ts) s counts),
    omega (arith, last, s),
  )

module _ {C : Type 0} (lru : Lru C) where
  -- For a hub that persists, and as long as its counter and the length of the run stay below 2
  -- ^ 64: whatever messages are handled in a row, with whatever cache, clock, ID generator and
  -- encoder, the tasks that they add to the queue are numbered without a gap from the hub's
  -- last number on, and the hub's last number is then the last of them.
  pub handle_all-Gapless :
      (ms : List (Env × Message)) (h : Hub C) (p : Persist)
      → needs_persist h p ≡ true
      → h.last_sequence + length ms < mod_64
      → let (h', p') = handle_all lru ms h p in Gapless h p h' p'
  unfolding handle_all
  handle_all-Gapless [] h p n w = ([], sym (append-nil p.queue), tt, omega arith)
  handle_all-Gapless ((e, m) ∷ ms) h p n w =
      let one = handle_broadcast-Numbered lru e m h p n (omega arith) in
      let same = handle_broadcast-SameFrame lru e m h p in
      let r = handle_broadcast lru e m h p in
      let last = handle_all lru ms r.0 r.1 in
      Gapless-cons m h p r.0 r.1 last.0 last.1 one
        (handle_all-Gapless ms r.0 r.1 (ground (arith, same)) (bound one))
    where
      bound :
          let (h', p') = handle_broadcast lru e m h p in
          Numbered m h p h' p' → h'.last_sequence + length ms < mod_64
      bound (inl x) = omega arith
      bound (inr x) = omega arith

  -- A run does not raise the counter by more than one for each message.
  pub handle_all_count :
      (ms : List (Env × Message)) (h : Hub C) (p : Persist)
      → needs_persist h p ≡ true
      → h.last_sequence + length ms < mod_64
      → (handle_all lru ms h p).0.last_sequence ≤ h.last_sequence + length ms
  unfolding handle_all
  handle_all_count [] h p n w = omega arith
  handle_all_count ((e, m) ∷ ms) h p n w =
      let same = handle_broadcast-SameFrame lru e m h p in
      let (h', p') = handle_broadcast lru e m h p in
      elim (handle_broadcast-Numbered lru e m h p n (omega arith)) [
        | inl x ↦ omega (arith, handle_all_count ms h' p' (ground (arith, same)) (omega arith))
        | inr x ↦ omega (arith, handle_all_count ms h' p' (ground (arith, same)) (omega arith))
      ]
