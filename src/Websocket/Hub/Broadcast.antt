-- ===== src/Websocket/Hub/Broadcast.antt =====
-- hub.go: `fanOut`, `handleBroadcast`, `enqueueBroadcast` and the helpers that they call.
use go_chat_msa.Common.{
  ◌+◌, ◌-◌, String, Bool, true, false, not, ◌&&◌, Option, none, some, [], ◌∷◌, ◌++◌, length, ltb,
  ◌==◌, str_eq, if◌then◌else◌, find, put, map_values, inc_64, dec_64,
}
use go_chat_msa.Websocket.Message.{Message, notice, msg_type_system}
use go_chat_msa.Websocket.Session.{send, send_with_meta}
use go_chat_msa.Websocket.Hub.{
  Hub, Lru, Persist, Env, hub_broadcast_buffer_size, persist_backpressure_msg,
}

-- `none` where the channel of slots is full.
unfoldable pub reserve_persist_slot : Persist → Option Persist
reserve_persist_slot p =
    if not p.has_slots
    then some p
    else if ltb p.slots p.slots_cap
    then some (record p { slots = p.slots + 1 })
    else none

-- A receive from the empty channel falls through, so `-` stops at 0 as the source does.
unfoldable pub release_persist_slot : Persist → Persist
release_persist_slot p = if p.has_slots then record p { slots = p.slots - 1 } else p

-- `if message.ID == ""`.
abbrev pub with_id : Env → Message → Option Message
with_id e m =
    if str_eq m.id ""
    then elim e.new_id [ none ↦ none | some id ↦ some (record m { id = id }) ]
    else some m

-- `if message.Timestamp == 0`.
abbrev pub with_timestamp : Env → Message → Message
with_timestamp e m = if m.timestamp == 0 then record m { timestamp = e.now } else m

-- The ID, the timestamp and the JSON text, `none` where the first or the last fails.
unfoldable pub complete_message : Env → Message → Message × Option String
complete_message e m = elim (with_id e m) [
  | none ↦ (m, none)
  | some m' ↦ let m'' = with_timestamp e m' in (m'', e.marshal m'')
]

module _ {C : Type 0} where
  unfoldable pub notify_persist_done : Hub C → Hub C
  notify_persist_done h = record h { persist_done = true }

  unfoldable pub rollback_sequence_and_slot : Bool → Hub C → Persist → Hub C × Persist
  rollback_sequence_and_slot reserved h p = (
    record h { last_sequence = dec_64 h.last_sequence },
    if reserved then release_persist_slot p else p,
  )

  unfoldable pub send_system_to : Env → String → String → Hub C → Hub C
  send_system_to e sender_id content h = elim (find sender_id h.sessions) [
    | none ↦ h
    | some s ↦ elim (e.marshal (notice msg_type_system h.room_id content e.now)) [
      | none ↦ h
      | some raw ↦ record h { sessions = put sender_id (send raw s) h.sessions }
    ]
  ]

  -- The loop over `h.sessions` at the end of `fanOut`.
  unfoldable pub deliver : String → Message → Hub C → Hub C
  deliver raw m h = record h {
    sessions = map_values (send_with_meta raw m.sender_id m.received_at) h.sessions;
  }

  -- The `ack` of a task of this hub; the flag says whether there was an error.
  unfoldable pub ack : Bool → Hub C → Hub C
  ack failed h =
      let h' = if failed then record h { persist_failed = true } else h in
      let pending = dec_64 h'.pending_persist in
      let h'' = record h' { pending_persist = pending } in
      if pending == 0 then notify_persist_done h'' else h''

  abbrev pub needs_persist : Hub C → Persist → Bool
  needs_persist h p = h.has_store && p.has_ch

  -- `default` of the send to `persistCh`: the pending counter falls again, the number and the slot
  -- are given back, and the sender is told.
  unfoldable pub reject_task : Env → Message → Hub C → Persist → Hub C × Persist
  reject_task e m h p =
      let lowered = record h { pending_persist = dec_64 h.pending_persist } in
      let told = if lowered.pending_persist == 0 then notify_persist_done lowered else lowered in
      let (h', p') = rollback_sequence_and_slot true told p in
      (send_system_to e m.sender_id persist_backpressure_msg h', p')

  -- From `if needsPersist` on: the task is queued, and then every session gets the message.
  unfoldable pub enqueue_task : Env → String → Message → Hub C → Persist → Hub C × Persist
  enqueue_task e raw m h p =
      if not (needs_persist h p)
      then (deliver raw m h, p)
      else let raised = record h { pending_persist = inc_64 h.pending_persist } in
        if ltb (length p.queue) p.queue_cap
        then (
          deliver raw m raised,
          record p { queue = p.queue ++ record { msg = m; hub = h.ident } ∷ [] },
        )
        else reject_task e m raised p

  -- From `seq := h.lastSequence.Add(1)` on. The third result is the message as the calls leave it.
  unfoldable pub number_message : Env → Message → Hub C → Persist → Hub C × Persist × Message
  number_message e m h p =
      let seq = inc_64 h.last_sequence in
      let h1 = record h { last_sequence = seq } in
      let (m', raw) = complete_message e (record m { sequence_number = seq }) in
      elim raw [
        | none ↦ let (h2, p2) = rollback_sequence_and_slot (needs_persist h p) h1 p in (h2, p2, m')
        | some text ↦ let (h2, p2) = enqueue_task e text m' h1 p in (h2, p2, m')
      ]

  unfoldable pub fan_out : Env → Message → Hub C → Persist → Hub C × Persist × Message
  fan_out e m h p =
      if needs_persist h p
      then elim (reserve_persist_slot p) [
        | none ↦ (send_system_to e m.sender_id persist_backpressure_msg h, p, m)
        | some p' ↦ number_message e m h p'
      ]
      else number_message e m h p

  unfoldable pub handle_broadcast : Lru C → Env → Message → Hub C → Persist → Hub C × Persist
  handle_broadcast lru e m h p =
      if str_eq m.client_msg_id ""
      then (let (h1, p1, m1) = fan_out e m h p in (h1, p1))
      else let (hit, touched) = lru.get m.client_msg_id h.cache in
        let looked = record h { cache = touched } in
        elim hit [
          | some old ↦ (looked, p)
          | none ↦
              let (h1, p1, m1) = fan_out e m looked p in
              (record h1 { cache = lru.add m.client_msg_id m1 h1.cache }, p1)
        ]

  -- One round of `enqueueBroadcast`: `none` where the channel is full and the caller waits.
  unfoldable pub enqueue_broadcast : Message → Hub C → Option (Hub C × Bool)
  enqueue_broadcast m h =
      if h.draining
      then some (h, false)
      else if ltb (length h.broadcast_ch) hub_broadcast_buffer_size
      then some (record h { broadcast_ch = h.broadcast_ch ++ m ∷ [] }, true)
      else none
