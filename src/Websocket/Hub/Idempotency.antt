-- ===== src/Websocket/Hub/Idempotency.antt =====
-- hub.go: the idempotency cache of `handleBroadcast`, over what a least-recently-used cache promises.
use go_chat_msa.Common.{
  ◌≡◌, ◌≢◌, refl, String, none, some, true, arith, Option-cases, inl, inr, str_eq-false,
}
use go_chat_msa.Websocket.Message.{Message}
use go_chat_msa.Websocket.Hub.{Hub, Lru, Persist, Env}
use go_chat_msa.Websocket.Hub.Broadcast.{
  needs_persist, reserve_persist_slot, fan_out, handle_broadcast, send_system_to,
}

-- A key that was just added, or just found, is found.
pub record IsLru {C : Type 0} (lru : Lru C) : Type 0 where
  pub get-add : (k : String) (m : Message) (c : C) → (lru.get k (lru.add k m c)).0 ≡ some m
  pub get-get :
      (k : String) (m : Message) (c : C)
      → (lru.get k c).0 ≡ some m
      → (lru.get k (lru.get k c).1).0 ≡ some m

module _ {C : Type 0} (lru : Lru C) (law : IsLru lru) where
  -- A hit changes the cache's order and nothing else.
  hit_lem :
      (e : Env) (m old : Message) (h : Hub C) (p : Persist)
      → m.client_msg_id ≢ ""
      → (lru.get m.client_msg_id h.cache).0 ≡ some old
      → handle_broadcast lru e m h p ≡ (record h { cache = (lru.get m.client_msg_id h.cache).1 }, p)
  unfolding handle_broadcast
  hit_lem e m old h p named hit = rw (str_eq-false m.client_msg_id "" named, hit, handle_broadcast)

  -- After a message was handled its client ID is in the cache, whatever became of the message.
  pub handled_cached :
      (e : Env) (m : Message) (h : Hub C) (p : Persist)
      → m.client_msg_id ≢ ""
      → (old : Message) × ((lru.get m.client_msg_id (handle_broadcast lru e m h p).0.cache).0
          ≡ some old)
  unfolding handle_broadcast
  handled_cached e m h p named = elim (Option-cases (lru.get m.client_msg_id h.cache).0) [
    | inl fresh ↦
        let looked = record h { cache = (lru.get m.client_msg_id h.cache).1 } in
        let (h1, p1, m1) = fan_out e m looked p in
        (
          m1,
          rw (str_eq-false m.client_msg_id "" named, fresh, handle_broadcast)
              (law.get-add m.client_msg_id m1 h1.cache),
        )
    | inr (old, hit) ↦ (
      old,
      rw (str_eq-false m.client_msg_id "" named, hit, handle_broadcast)
          (law.get-get m.client_msg_id old h.cache hit),
    )
  ]

  -- With a cache that finds a key just added or just found, a message with the non-empty client
  -- ID of the message handled last changes the cache only: no number is given, nothing is
  -- queued and no session gets anything.
  pub repeat_dropped :
      (e e' : Env) (m m' : Message) (h : Hub C) (p p' : Persist)
      → m.client_msg_id ≢ ""
      → m'.client_msg_id ≡ m.client_msg_id
      → let h1 = (handle_broadcast lru e m h p).0 in
        (c : C) × (handle_broadcast lru e' m' h1 p' ≡ (record h1 { cache = c }, p'))
  repeat_dropped e e' m m' h p p' named same =
      let h1 = (handle_broadcast lru e m h p).0 in
      let (old, hit) = handled_cached e m h p named in
      ((lru.get m'.client_msg_id h1.cache).1, hit_lem e' m' old h1 p' (rw same named) (rw same hit))

  refused :
      (e : Env) (m : Message) (h : Hub C) (p : Persist)
      → m.client_msg_id ≢ ""
      → (lru.get m.client_msg_id h.cache).0 ≡ none
      → needs_persist h p ≡ true
      → reserve_persist_slot p ≡ none
      → let (h1, p1) = handle_broadcast lru e m h p in
        (p1 ≡ p) × (h1.last_sequence ≡ h.last_sequence)
  unfolding handle_broadcast fan_out send_system_to
  refused e m h p named fresh n full = ground (arith, str_eq-false m.client_msg_id "" named)

  -- With a cache that finds a key just added or just found: a message with a new client ID that
  -- finds every slot taken leaves queue and numbering as they are, and yet the retry under the
  -- same client ID that follows it changes neither the queue, however much room there is by
  -- then, nor the numbering, nor any session.
  pub refused_retry_dropped :
      (e e' : Env) (m m' : Message) (h : Hub C) (p p' : Persist)
      → m.client_msg_id ≢ ""
      → m'.client_msg_id ≡ m.client_msg_id
      → (lru.get m.client_msg_id h.cache).0 ≡ none
      → needs_persist h p ≡ true
      → reserve_persist_slot p ≡ none
      → let (h1, p1) = handle_broadcast lru e m h p in
        (p1 ≡ p)
        × (h1.last_sequence ≡ h.last_sequence)
        × ((handle_broadcast lru e' m' h1 p').1 ≡ p')
        × ((handle_broadcast lru e' m' h1 p').0.last_sequence ≡ h.last_sequence)
        × ((handle_broadcast lru e' m' h1 p').0.sessions ≡ h1.sessions)
  refused_retry_dropped e e' m m' h p p' named same fresh n full =
      let (c, again) = repeat_dropped e e' m m' h p p' named same in
      let (kept, number) = refused e m h p named fresh n full in
      (kept, number, rw again refl, rw again number, rw again refl)
