-- ===== src/Websocket/Hub/Idle.antt =====
-- internal/websocket/hub/hub.go: the idle timer in the select loop of run.
use go_chat_msa.Common.{
  ℕ, ◌≡◌, refl, subst, sym, ◌∙◌, String, Bool, true, false, not, ◌&&◌, List, [], ◌∷◌, All,
  if◌then◌else◌, ltb, length, ◌==◌, Bool-cases, Option-cases, inl, inr, arith,
}
use go_chat_msa.Websocket.Message.{Message}
use go_chat_msa.Websocket.Hub.{Hub, Lru, PersistTask, Env, hub_broadcast_buffer_size}
use go_chat_msa.Websocket.Hub.Broadcast.{
  ack, notify_persist_done, enqueue_broadcast, reserve_persist_slot,
}
use go_chat_msa.Websocket.Hub.Events.{
  Actor, running, Event, register, unregister, idle_fired, ctx_done, stop_ready, next_broadcast,
  persist_signal, tick, drain_timer, offer, force_closed, other_hub, worker_takes, worker_acks,
  on_register, register_session, kick_session, read_broadcast, react, worker_take, worker_ack,
  queue_other, surround, step, run,
}
use go_chat_msa.Websocket.Hub.Frame.{handle_broadcast-SameFrame}

-- In the select loop, with a timer that does not run, and not told to stop.
abbrev pub Asleep : {C : Type 0} → Actor C → Type 0
Asleep a = (a.phase ≡ running) × (a.hub.idle_armed ≡ false) × (a.hub.stopped ≡ false)

-- No session leaves, the manager neither closes the hub nor ends.
abbrev pub quiet : Event → Bool
quiet (unregister s) = false
quiet ctx_done = false
quiet (force_closed reason) = false
quiet _ = true

module _ {C : Type 0} where
  on_register-Asleep :
      (e : Env) (i : ℕ) (who : String) (h : Hub C)
      → h.idle_armed ≡ false
      → h.stopped ≡ false
      → let h' = (on_register e i who h).0 in (h'.idle_armed ≡ false) × (h'.stopped ≡ false)
  unfolding on_register register_session kick_session
  on_register-Asleep e i who h idle going = ground (arith, idle, going)

  read_broadcast-Asleep :
      (lru : Lru C) (e : Env) (ms : List Message) (a : Actor C)
      → Asleep a
      → Asleep (read_broadcast lru e running ms a)
  unfolding read_broadcast
  read_broadcast-Asleep lru e [] a s = s
  read_broadcast-Asleep lru e (m ∷ rest) a s =
      let same =
        handle_broadcast-SameFrame lru e m (record a.hub { broadcast_ch = rest }) a.persist in
      (refl, ground (arith, same, s), ground (arith, same, s))

  either-Asleep : (t : Bool) (x y : Actor C) → t ≡ false → Asleep y → Asleep (if t then x else y)
  either-Asleep true x y off h = absurd (ground (arith, off))
  either-Asleep false x y off h = h

  react-Asleep :
      (lru : Lru C) (e : Env) (ev : Event) (a : Actor C)
      → quiet ev ≡ true
      → Asleep a
      → Asleep (react lru e running ev a)
  unfolding react
  react-Asleep lru e (register i who) a q (p, idle, going) =
      let kept = on_register-Asleep e i who a.hub idle going in (p, kept.0, kept.1)
  react-Asleep lru e (unregister s) a q h = absurd (ground (arith, q))
  react-Asleep lru e idle_fired a q (p, idle, going) =
      either-Asleep a.hub.idle_armed _ a idle (p, idle, going)
  react-Asleep lru e ctx_done a q h = absurd (ground (arith, q))
  react-Asleep lru e stop_ready a q (p, idle, going) =
      either-Asleep a.hub.stopped _ a going (p, idle, going)
  react-Asleep lru e next_broadcast a q h = read_broadcast-Asleep lru e a.hub.broadcast_ch a h
  react-Asleep lru e persist_signal a q h = h
  react-Asleep lru e tick a q h = h
  react-Asleep lru e drain_timer a q h = h
  react-Asleep lru e (offer m) a q h = h
  react-Asleep lru e (force_closed r) a q h = h
  react-Asleep lru e (other_hub t) a q h = h
  react-Asleep lru e worker_takes a q h = h
  react-Asleep lru e (worker_acks b) a q h = h

  ack-Asleep :
      (failed : Bool) (h : Hub C)
      → ((ack failed h).idle_armed ≡ h.idle_armed) × ((ack failed h).stopped ≡ h.stopped)
  unfolding ack notify_persist_done
  ack-Asleep failed h = ground arith

  worker_take-Asleep : (ts : List PersistTask) (a : Actor C) → Asleep a → Asleep (worker_take ts a)
  unfolding worker_take
  worker_take-Asleep [] a h = h
  worker_take-Asleep (t ∷ ts) a h = h

  worker_ack-Asleep :
      (failed : Bool) (ts : List PersistTask) (a : Actor C)
      → Asleep a
      → Asleep (worker_ack failed ts a)
  unfolding worker_ack
  worker_ack-Asleep failed [] a h = h
  worker_ack-Asleep failed (t ∷ ts) a (p, idle, going) = elim (Bool-cases (t.hub == a.hub.ident)) [
    | inl e ↦ let (i, g) = ack-Asleep failed a.hub in rw (e, worker_ack) (p, i ∙ idle, g ∙ going)
    | inr e ↦ rw (e, worker_ack) (p, idle, going)
  ]

  queue_other-Asleep : (t : PersistTask) (a : Actor C) → Asleep a → Asleep (queue_other t a)
  unfolding queue_other
  queue_other-Asleep t a h = elim (Option-cases (reserve_persist_slot a.persist)) [
    | inl n ↦ rw (n, queue_other) h
    | inr (p, n) ↦
        elim (Bool-cases
          (a.persist.has_ch && not (t.hub == a.hub.ident) && ltb (length p.queue) p.queue_cap)) [
            | inl y ↦ rw (n, y, queue_other) h
            | inr y ↦ rw (n, y, queue_other) h
          ]
  ]

  offer-Asleep : (m : Message) (a : Actor C) → Asleep a → Asleep (surround (offer m) a)
  unfolding surround enqueue_broadcast
  offer-Asleep m a h = elim (Bool-cases a.hub.draining) [
    | inl d ↦ rw (d, surround, enqueue_broadcast) h
    | inr d ↦ elim (Bool-cases (ltb (length a.hub.broadcast_ch) hub_broadcast_buffer_size)) [
      | inl r ↦ rw (d, r, surround, enqueue_broadcast) h
      | inr r ↦ rw (d, r, surround, enqueue_broadcast) h
    ]
  ]

  surround-Asleep : (ev : Event) (a : Actor C) → quiet ev ≡ true → Asleep a → Asleep (surround ev a)
  unfolding surround
  surround-Asleep (offer m) a q h = offer-Asleep m a h
  surround-Asleep (force_closed r) a q h = absurd (ground (arith, q))
  surround-Asleep (other_hub t) a q h = queue_other-Asleep t a h
  surround-Asleep worker_takes a q h = worker_take-Asleep a.persist.queue a h
  surround-Asleep (worker_acks b) a q h = worker_ack-Asleep b a.in_flight a h
  surround-Asleep (register i who) a q h = h
  surround-Asleep (unregister s) a q h = h
  surround-Asleep idle_fired a q h = h
  surround-Asleep ctx_done a q h = h
  surround-Asleep stop_ready a q h = h
  surround-Asleep next_broadcast a q h = h
  surround-Asleep persist_signal a q h = h
  surround-Asleep tick a q h = h
  surround-Asleep drain_timer a q h = h

  step-Asleep :
      (lru : Lru C) (e : Env) (ev : Event) (a : Actor C)
      → quiet ev ≡ true
      → Asleep a
      → Asleep (step lru a (e, ev))
  unfolding step
  step-Asleep lru e ev a q h =
      surround-Asleep ev (react lru e a.phase ev a) q
        (subst (λ f. Asleep (react lru e f ev a)) (sym h.0) (react-Asleep lru e ev a q h))

  -- In its select loop a hub whose idle timer does not run and that is not told to stop stays
  -- there with the timer unset, whatever comes, as long as no session leaves, it is not force
  -- closed and its context does not end.
  pub never_idles_out :
      (lru : Lru C) (evs : List (Env × Event)) (a : Actor C)
      → All (λ x. quiet x.1 ≡ true) evs
      → a.phase ≡ running
      → a.hub.idle_armed ≡ false
      → a.hub.stopped ≡ false
      → ((run lru a evs).phase ≡ running) × ((run lru a evs).hub.idle_armed ≡ false)
  unfolding run
  never_idles_out lru [] a q p idle going = (p, idle)
  never_idles_out lru ((e, ev) ∷ evs) a q p idle going =
      let (p', idle', going') = step-Asleep lru e ev a q.0 (p, idle, going) in
      never_idles_out lru evs (step lru a (e, ev)) q.1 p' idle' going'
