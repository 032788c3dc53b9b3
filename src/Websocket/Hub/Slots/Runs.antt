-- ===== src/Websocket/Hub/Slots/Runs.antt =====
-- hub.go: the accounts of the persistence path over the events of a hub.
use go_chat_msa.Common.{
  ℕ, ◌≡◌, refl, ap, String, Bool, true, false, List, [], ◌∷◌, arith, Bool-cases, inl, inr, length,
  length-append, ◌==◌, if◌then◌else◌, sym, subst,
}
use go_chat_msa.Websocket.Message.{Message}
use go_chat_msa.Websocket.Session.{Session}
use go_chat_msa.Websocket.Hub.{Hub, Lru, PersistTask, Env}
use go_chat_msa.Websocket.Hub.Broadcast.{
  handle_broadcast, reserve_persist_slot, release_persist_slot, notify_persist_done,
  enqueue_broadcast, ack,
}
use go_chat_msa.Websocket.Hub.Frame.{handle_broadcast-SameFrame}
use go_chat_msa.Websocket.Hub.Events.{
  Phase, running, draining, waiting, Event, register, unregister, idle_fired, stop_ready,
  persist_signal, next_broadcast, offer, force_closed, other_hub, worker_takes, worker_acks, Actor,
  kick_session, register_session, on_register, drop_session, on_unregister, shutdown, begin_drain,
  force_close, read_broadcast, drained, drain_next, react, worker_take, worker_ack, queue_other,
  surround, step, run,
}
use go_chat_msa.Websocket.Hub.Slots.{mine, mine-append, Room, Pending, handle_broadcast-Room}

-- The accounts of a hub with its surroundings.
abbrev pub Booked : {C : Type 0} → Actor C → Type 0
Booked a = Room 0 a.persist × Pending (mine a.hub.ident a.in_flight) a.hub a.persist

module _ {C : Type 0} where
  read_broadcast-Booked :
      (lru : Lru C) (e : Env) (f : Phase) (ms : List Message) (a : Actor C)
      → Booked a
      → Booked (read_broadcast lru e f ms a)
  unfolding read_broadcast
  read_broadcast-Booked lru e f [] a b = b
  read_broadcast-Booked lru e f (m ∷ rest) a b =
      let h = record a.hub { broadcast_ch = rest } in
      let same = handle_broadcast-SameFrame lru e m h a.persist in
      let (r, w) =
        handle_broadcast-Room lru e m h a.persist (mine a.hub.ident a.in_flight) b.0 b.1 in
      (
        r,
        subst
            (λ i.
              Pending (mine i a.in_flight) (handle_broadcast lru e m h a.persist).0
                (handle_broadcast lru e m h a.persist).1)
            (sym same.0) w,
      )

  drained-Booked : (a : Actor C) → Booked a → Booked (drained a)
  unfolding drained shutdown begin_drain
  drained-Booked a b = elim (Bool-cases (a.hub.pending_persist == 0)) [
    | inl none_left ↦ rw (none_left, drained) b
    | inr some_left ↦ rw (some_left, drained) b
  ]

  drain_next-Booked :
      (lru : Lru C) (e : Env) (ms : List Message) (a : Actor C)
      → Booked a
      → Booked (drain_next lru e ms a)
  unfolding drain_next
  drain_next-Booked lru e [] a b = drained-Booked a b
  drain_next-Booked lru e (m ∷ rest) a b = read_broadcast-Booked lru e draining (m ∷ rest) a b

  hub-Booked :
      (a : Actor C) (h : Hub C)
      → Booked a
      → h.ident ≡ a.hub.ident
      → h.pending_persist ≡ a.hub.pending_persist
      → Booked (record a { hub = h })
  hub-Booked a h b i w = (b.0, rw (i, w) b.1)

  on_register_keeps :
      (e : Env) (i : ℕ) (who : String) (h : Hub C)
      → let g = (on_register e i who h).0 in
        (g.ident ≡ h.ident) × (g.pending_persist ≡ h.pending_persist)
  unfolding on_register register_session kick_session
  on_register_keeps e i who h = ground arith

  on_unregister_keeps :
      (s : Session) (h : Hub C)
      → let g = on_unregister s h in (g.ident ≡ h.ident) × (g.pending_persist ≡ h.pending_persist)
  unfolding on_unregister drop_session
  on_unregister_keeps s h = ground arith

  either-Booked : (t : Bool) (x y : Actor C) → Booked x → Booked y → Booked (if t then x else y)
  either-Booked true x y b c = b
  either-Booked false x y b c = c

  react-Booked :
      (lru : Lru C) (e : Env) (f : Phase) (ev : Event) (a : Actor C)
      → Booked a
      → Booked (react lru e f ev a)
  unfolding react begin_drain shutdown
  react-Booked lru e running (register i who) a b =
      let (same, w) = on_register_keeps e i who a.hub in
      hub-Booked a (on_register e i who a.hub).0 b same w
  react-Booked lru e running (unregister s) a b =
      let (same, w) = on_unregister_keeps s a.hub in hub-Booked a (on_unregister s a.hub) b same w
  react-Booked lru e running next_broadcast a b = read_broadcast-Booked lru e running _ a b
  react-Booked lru e draining next_broadcast a b = drain_next-Booked lru e _ a b
  react-Booked lru e waiting next_broadcast a b = read_broadcast-Booked lru e draining _ a b
  react-Booked lru e running idle_fired a b = either-Booked a.hub.idle_armed _ a b b
  react-Booked lru e running stop_ready a b = either-Booked a.hub.stopped _ a b b
  react-Booked lru e waiting persist_signal a b = either-Booked a.hub.persist_done _ a b b
  react-Booked lru e _ _ a b = b

  worker_take-Booked :
      (ts : List PersistTask) (a : Actor C)
      → ts ≡ a.persist.queue
      → Booked a
      → Booked (worker_take ts a)
  unfolding worker_take release_persist_slot
  worker_take-Booked [] a e (r, w) = (r, w)
  worker_take-Booked (t ∷ rest) a e (r, w) =
      let shorter = ap length e in
      let counted = ap (mine a.hub.ident) e in
      let later = mine-append a.hub.ident a.in_flight (t ∷ []) in
      (
        record {
          covered = ground (arith, r.covered, shorter);
          within = ground (arith, r.within);
          same_cap = ground (arith, r.same_cap);
        },
        ground (arith, counted, later),
      )

  worker_ack-Booked :
      (failed : Bool) (ts : List PersistTask) (a : Actor C)
      → ts ≡ a.in_flight
      → Booked a
      → Booked (worker_ack failed ts a)
  unfolding worker_ack ack notify_persist_done
  worker_ack-Booked failed [] a e (r, w) = (r, w)
  worker_ack-Booked failed (t ∷ rest) a e (r, w) = (r, ground (arith, ap (mine a.hub.ident) e))

  queue_other-Booked : (t : PersistTask) (a : Actor C) → Booked a → Booked (queue_other t a)
  unfolding queue_other reserve_persist_slot
  queue_other-Booked t a (r, w) =
      let longer = length-append a.persist.queue (t ∷ []) in
      let counted = mine-append a.hub.ident a.persist.queue (t ∷ []) in
      (
        record {
          covered = ground (arith, r.covered, r.within, r.same_cap, longer);
          within = ground (arith, r.covered, r.within, r.same_cap, longer);
          same_cap = ground (arith, r.same_cap);
        },
        ground (arith, counted),
      )

  surround-Booked : (ev : Event) (a : Actor C) → Booked a → Booked (surround ev a)
  unfolding surround enqueue_broadcast force_close begin_drain
  surround-Booked (offer m) a b = (ground (arith, b.0), ground arith)
  surround-Booked (force_closed reason) a b = (b.0, ground arith)
  surround-Booked (other_hub t) a b = queue_other-Booked t a b
  surround-Booked worker_takes a b = worker_take-Booked a.persist.queue a refl b
  surround-Booked (worker_acks failed) a b = worker_ack-Booked failed a.in_flight a refl b
  surround-Booked _ a b = b

  -- Whatever events happen, if at the start `pendingPersist` is (modulo 2 ^ 64) the number of
  -- the hub's tasks that are queued or with a worker, both channels have the same capacity, and
  -- the slots, where there are any, cover the queue within their capacity, then the same holds
  -- at the end.
  pub run-Booked :
      (lru : Lru C) (evs : List (Env × Event)) (a : Actor C) → Booked a → Booked (run lru a evs)
  unfolding run step
  run-Booked lru [] a b = b
  run-Booked lru ((e, ev) ∷ evs) a b =
      run-Booked lru evs _ (surround-Booked ev _ (react-Booked lru e a.phase ev a b))
