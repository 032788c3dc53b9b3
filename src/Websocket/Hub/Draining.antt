-- ===== src/Websocket/Hub/Draining.antt =====
-- hub.go: the order of the phases of a hub, and how a drain ends.
use go_chat_msa.Common.{
  ◌+◌, ◌<◌, ◌≡◌, refl, sym, subst, ◌∙◌, ◌≢◌, Bool, true, false, List, [], ◌∷◌, arith, Bool-cases,
  inl, inr, ◌==◌, mod_64, if◌then◌else◌,
}
use go_chat_msa.Websocket.Message.{Message}
use go_chat_msa.Websocket.Hub.{Hub, Lru, Env}
use go_chat_msa.Websocket.Hub.Broadcast.{enqueue_broadcast, ack, notify_persist_done}
use go_chat_msa.Websocket.Hub.Frame.{handle_broadcast-SameFrame}
use go_chat_msa.Websocket.Hub.Slots.{mine}
use go_chat_msa.Websocket.Hub.Slots.Runs.{Booked}
use go_chat_msa.Websocket.Hub.Events.{
  Phase, running, draining, waiting, ended, Event, register, unregister, idle_fired, stop_ready,
  persist_signal, ctx_done, next_broadcast, drain_timer, ok, tick, Actor, on_register,
  on_unregister, shutdown, begin_drain, force_close, read_broadcast, drained, drain_next, react,
  worker_take, worker_ack, queue_other, surround, step, run,
}

-- Past the select loop the hub drains; in the second select of `drain` and after `shutdown` its
-- inbox is empty.
abbrev pub Ordered : {C : Type 0} → Phase → Hub C → Type 0
Ordered running h = Unit
Ordered draining h = h.draining ≡ true
Ordered waiting h = (h.draining ≡ true) × (h.broadcast_ch ≡ [])
Ordered (ended s) h = (h.draining ≡ true) × (h.broadcast_ch ≡ [])

abbrev pub Orderly : {C : Type 0} → Actor C → Type 0
Orderly a = Ordered a.phase a.hub

module _ {C : Type 0} where
  read_broadcast-Orderly :
      (lru : Lru C) (e : Env) (ms : List Message) (a : Actor C)
      → a.hub.draining ≡ true
      → Orderly a
      → Orderly (read_broadcast lru e draining ms a)
  unfolding read_broadcast
  read_broadcast-Orderly lru e [] a d o = o
  read_broadcast-Orderly lru e (m ∷ rest) a d o =
      ground
        (arith, handle_broadcast-SameFrame lru e m (record a.hub { broadcast_ch = rest }) a.persist)

  drained-Orderly :
      (a : Actor C) → a.hub.draining ≡ true → a.hub.broadcast_ch ≡ [] → Orderly (drained a)
  unfolding drained shutdown begin_drain
  drained-Orderly a d e = elim (Bool-cases (a.hub.pending_persist == 0)) [
    | inl none_left ↦ rw (none_left, drained) (refl, refl)
    | inr some_left ↦ rw (some_left, drained) (d, e)
  ]

  drain_next-Orderly :
      (lru : Lru C) (e : Env) (ms : List Message) (a : Actor C)
      → ms ≡ a.hub.broadcast_ch
      → a.hub.draining ≡ true
      → Orderly a
      → Orderly (drain_next lru e ms a)
  unfolding drain_next
  drain_next-Orderly lru e [] a q d o = drained-Orderly a d (sym q)
  drain_next-Orderly lru e (m ∷ rest) a q d o = read_broadcast-Orderly lru e (m ∷ rest) a d o

  running-Orderly : (a : Actor C) → a.phase ≡ running → Orderly a
  running-Orderly a e = subst (λ f. Ordered f a.hub) (sym e) tt

  either-Orderly : (t : Bool) (x y : Actor C) → Orderly x → Orderly y → Orderly (if t then x else y)
  either-Orderly true x y b c = b
  either-Orderly false x y b c = c

  read_broadcast_phase :
      (lru : Lru C) (e : Env) (ms : List Message) (a : Actor C)
      → a.phase ≡ running
      → (read_broadcast lru e running ms a).phase ≡ running
  unfolding read_broadcast
  read_broadcast_phase lru e [] a h = h
  read_broadcast_phase lru e (m ∷ rest) a h = refl

  react-Orderly :
      (lru : Lru C) (e : Env) (f : Phase) (ev : Event) (a : Actor C)
      → a.phase ≡ f
      → Orderly a
      → Orderly (react lru e f ev a)
  unfolding react begin_drain shutdown
  react-Orderly lru e running (register i who) a p o =
      running-Orderly (record a { hub = (on_register e i who a.hub).0 }) p
  react-Orderly lru e running (unregister s) a p o =
      running-Orderly (record a { hub = on_unregister s a.hub }) p
  react-Orderly lru e running next_broadcast a p o =
      running-Orderly (read_broadcast lru e running a.hub.broadcast_ch a)
        (read_broadcast_phase lru e a.hub.broadcast_ch a p)
  react-Orderly lru e running idle_fired a p o = either-Orderly a.hub.idle_armed _ a refl o
  react-Orderly lru e running stop_ready a p o = either-Orderly a.hub.stopped _ a refl o
  react-Orderly lru e running ctx_done a p o = refl
  react-Orderly lru e draining next_broadcast a p o =
      drain_next-Orderly lru e a.hub.broadcast_ch a refl (subst (λ f. Ordered f a.hub) p o) o
  react-Orderly lru e draining ctx_done a p o = (refl, refl)
  react-Orderly lru e waiting next_broadcast a p o =
      read_broadcast-Orderly lru e a.hub.broadcast_ch a (subst (λ f. Ordered f a.hub) p o).0 o
  react-Orderly lru e waiting persist_signal a p o =
      either-Orderly a.hub.persist_done _ a (subst (λ f. Ordered f a.hub) p o).0 o
  react-Orderly lru e waiting tick a p o = (subst (λ f. Ordered f a.hub) p o).0
  react-Orderly lru e waiting drain_timer a p o = (refl, refl)
  react-Orderly lru e waiting ctx_done a p o = (refl, refl)
  react-Orderly lru e _ _ a p o = o

  keep-Ordered :
      (f : Phase) (g h : Hub C)
      → (h.draining ≡ true → (g.draining ≡ true) × (g.broadcast_ch ≡ h.broadcast_ch))
      → Ordered f h
      → Ordered f g
  keep-Ordered running g h k o = tt
  keep-Ordered draining g h k o = (k o).0
  keep-Ordered waiting g h k o = ((k o.0).0, (k o.0).1 ∙ o.1)
  keep-Ordered (ended s) g h k o = ((k o.0).0, (k o.0).1 ∙ o.1)

  -- What surrounds the hub does not move it, and adds nothing to a draining hub's inbox.
  surround_keeps :
      (ev : Event) (a : Actor C)
      → let b = surround ev a in
        (b.phase ≡ a.phase)
        × (a.hub.draining ≡ true
            → (b.hub.draining ≡ true) × (b.hub.broadcast_ch ≡ a.hub.broadcast_ch))
  unfolding surround enqueue_broadcast force_close begin_drain worker_take worker_ack queue_other
      ack notify_persist_done
  surround_keeps ev a = (ground arith, λ d. ground arith)

  surround-Orderly : (ev : Event) (a : Actor C) → Orderly a → Orderly (surround ev a)
  surround-Orderly ev a o =
      let (same, kept) = surround_keeps ev a in
      subst (λ f. Ordered f (surround ev a).hub) (sym same) (keep-Ordered a.phase _ a.hub kept o)

  -- Whatever events happen, if it holds at the start, then at the end: a hub past its select
  -- loop drains, and in the second select of `drain` and after `shutdown` its inbox is empty.
  pub run-Orderly :
      (lru : Lru C) (evs : List (Env × Event)) (a : Actor C) → Orderly a → Orderly (run lru a evs)
  unfolding run step
  run-Orderly lru [] a o = o
  run-Orderly lru ((e, ev) ∷ evs) a o =
      run-Orderly lru evs _ (surround-Orderly ev _ (react-Orderly lru e a.phase ev a refl o))

  drained_ok :
      (a : Actor C) → a.phase ≡ draining → (drained a).phase ≡ ended ok → a.hub.pending_persist ≡ 0
  unfolding drained
  drained_ok a p h = ground arith

  drain_next_ok :
      (lru : Lru C) (e : Env) (ms : List Message) (a : Actor C)
      → a.phase ≡ draining
      → (drain_next lru e ms a).phase ≡ ended ok
      → (ms ≡ []) × (a.hub.pending_persist ≡ 0)
  unfolding drain_next read_broadcast
  drain_next_ok lru e [] a p h = (refl, drained_ok a p h)
  drain_next_ok lru e (m ∷ rest) a p h = cc

  read_broadcast_ne_ok :
      (lru : Lru C) (e : Env) (ms : List Message) (a : Actor C) (f : Phase)
      → a.phase ≢ ended ok
      → f ≢ ended ok
      → (read_broadcast lru e f ms a).phase ≢ ended ok
  unfolding read_broadcast
  read_broadcast_ne_ok lru e [] a f p n h = p h
  read_broadcast_ne_ok lru e (m ∷ rest) a f p n h = n h

  -- Only the empty inner loop of `drain` ends with the status ok.
  react_ok :
      (lru : Lru C) (e : Env) (f : Phase) (ev : Event) (a : Actor C)
      → a.phase ≡ f
      → f ≢ ended ok
      → (react lru e f ev a).phase ≡ ended ok
      → (a.hub.broadcast_ch ≡ []) × (a.hub.pending_persist ≡ 0)
  unfolding react
  react_ok lru e running next_broadcast a p n h =
      absurd (read_broadcast_ne_ok lru e a.hub.broadcast_ch a running (λ q. n (sym p ∙ q)) n h)
  react_ok lru e running idle_fired a p n h = ground arith
  react_ok lru e running stop_ready a p n h = ground arith
  react_ok lru e running ctx_done a p n h = cc
  react_ok lru e draining next_broadcast a p n h = drain_next_ok lru e a.hub.broadcast_ch a p h
  react_ok lru e draining ctx_done a p n h = cc
  react_ok lru e waiting next_broadcast a p n h =
      absurd
        (read_broadcast_ne_ok lru e a.hub.broadcast_ch a draining (λ q. n (sym p ∙ q)) (λ q. cc) h)
  react_ok lru e waiting persist_signal a p n h = ground arith
  react_ok lru e waiting tick a p n h = cc
  react_ok lru e waiting drain_timer a p n h = cc
  react_ok lru e waiting ctx_done a p n h = cc
  react_ok lru e _ _ a p n h = absurd (n (sym p ∙ h))

  -- When the accounts of `run-Booked` hold and fewer than 2 ^ 64 tasks of the hub are out, a
  -- step of the hub that ends its drain with the status ok finds its inbox empty and none of
  -- its tasks queued or with a worker.
  pub clean_end :
      (lru : Lru C) (e : Env) (ev : Event) (a : Actor C)
      → Booked a
      → mine a.hub.ident a.persist.queue + mine a.hub.ident a.in_flight < mod_64
      → a.phase ≢ ended ok
      → (react lru e a.phase ev a).phase ≡ ended ok
      → (a.hub.broadcast_ch ≡ [])
        × (mine a.hub.ident a.persist.queue ≡ 0)
        × (mine a.hub.ident a.in_flight ≡ 0)
  clean_end lru e ev a b small n h =
      let (emptied, settled) = react_ok lru e a.phase ev a refl n h in
      (emptied, omega (arith, b.1), omega (arith, b.1))
