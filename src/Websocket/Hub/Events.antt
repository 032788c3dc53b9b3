-- ===== src/Websocket/Hub/Events.antt =====
-- hub.go: the select loop of `run`, `drain`, `shutdown` and what they call, as a step function on
-- events. The goroutines around the hub are events too: callers that broadcast or force a close,
-- and the persistence workers, which take tasks from the shared channel and acknowledge them.
use go_chat_msa.Common.{
  ℕ, String, Bool, true, false, not, ◌&&◌, Option, none, some, List, [], ◌∷◌, ◌++◌, map, length,
  ltb, ◌==◌, str_eq, if◌then◌else◌, find, put, remove, inc_64, dec_64, ◌||◌,
}
use go_chat_msa.Websocket.Message.{Message, notice, msg_type_conflict}
use go_chat_msa.Websocket.Session.{Session, new_session, send, close, close_with_code}
use go_chat_msa.Websocket.Hub.{
  Hub, Lru, Persist, PersistTask, Env, handoff_close_code, handoff_close_reason, conflict_msg,
}
use go_chat_msa.Websocket.Hub.Broadcast.{
  handle_broadcast, enqueue_broadcast, ack, reserve_persist_slot, release_persist_slot,
}

-- How `drain` ended, by the status of its metric.
pub data DrainStatus : Type 0 where
  ok timeout error : DrainStatus

-- Where `run` stands: its select loop, the inner loop of `drain`, the second select of `drain`, or
-- after `shutdown`.
pub data Phase : Type 0 where
  running draining waiting : Phase
  ended : DrainStatus → Phase

pub data Event : Type 0 where
  -- the channels that the hub reads
  register : ℕ → String → Event
  unregister : Session → Event
  idle_fired ctx_done stop_ready next_broadcast persist_signal tick drain_timer : Event
  -- the goroutines around it
  offer : Message → Event
  force_closed : String → Event
  other_hub : PersistTask → Event
  worker_takes : Event
  worker_acks : Bool → Event

pub record Actor (C : Type 0) : Type 0 where
  pub phase : Phase
  pub hub : Hub C
  pub persist : Persist
  pub in_flight : List PersistTask  -- taken by a worker, and not acknowledged yet

unfoldable pub session_close_frame : Option String → ℕ × String
session_close_frame none = (0, "")
session_close_frame (some reason) =
    if str_eq reason handoff_close_reason
      || str_eq reason "lease_lost"
      || str_eq reason "lease_renew_stale"
    then (handoff_close_code, handoff_close_reason)
    else (0, "")

module _ {C : Type 0} where
  unfoldable pub begin_drain : Hub C → Hub C
  begin_drain h = record h { draining = true }

  -- `forceClose`; an empty reason is not stored.
  unfoldable pub force_close : String → Hub C → Hub C
  force_close reason h =
      let h' = if str_eq reason "" then h else record h { close_reason = some reason } in
      record (begin_drain h') { stopped = true }

  -- `if oldSession, ok := h.sessions[...]`: the old session is told, closed and dropped.
  unfoldable pub kick_session : Env → String → Hub C → Hub C
  kick_session e sender_id h = elim (find sender_id h.sessions) [
    | none ↦ h
    | some old ↦
        let told : Session = elim (e.marshal (notice msg_type_conflict h.room_id conflict_msg 0)) [
          | none ↦ old
          | some raw ↦ send raw old
        ] in
        record h {
          sessions = remove sender_id h.sessions;
          retired = close told ∷ h.retired;
          active_sessions = dec_64 h.active_sessions;
        }
  ]

  unfoldable pub register_session : Env → Session → Hub C → Hub C
  register_session e s h =
      let kicked = kick_session e s.sender_id h in
      record kicked {
        sessions = put s.sender_id s kicked.sessions;
        active_sessions = inc_64 kicked.active_sessions;
        idle_armed = false;
      }

  -- The case of `registerCh`; the caller gets an error where the hub drains.
  unfoldable pub on_register : Env → ℕ → String → Hub C → Hub C × Bool
  on_register e ident user_id h =
      if h.draining
      then (h, false)
      else (register_session e (new_session ident h.max_length user_id h.room_id) h, true)

  -- A session that was replaced meanwhile is not in the map, and nothing is deleted.
  unfoldable pub drop_session : Session → Hub C → Hub C
  drop_session s h = elim (find s.sender_id h.sessions) [
    | none ↦ h
    | some current ↦
        if current.ident == s.ident
        then record h {
          sessions = remove s.sender_id h.sessions;
          retired = close current ∷ h.retired;
          active_sessions = dec_64 h.active_sessions;
        }
        else h
  ]

  -- The case of `unregisterCh`.
  unfoldable pub on_unregister : Session → Hub C → Hub C
  on_unregister s h =
      let h' = drop_session s h in
      if length h'.sessions == 0 then record h' { idle_armed = true } else h'

  -- `shutdown`: what is still in `broadcastCh` is read and dropped.
  unfoldable pub shutdown : Hub C → Hub C
  shutdown h =
      let (code, reason) = session_close_frame h.close_reason in
      let end = λ (kv : String × Session).
        if code == 0 then close kv.1 else close_with_code code reason kv.1 in
      record (begin_drain h) {
        sessions = [];
        retired = map end h.sessions ++ h.retired;
        active_sessions = 0;
        broadcast_ch = [];
      }

  abbrev at : Phase → Hub C → Actor C → Actor C
  at phase h a = record a { phase = phase; hub = h }

  abbrev ends : DrainStatus → Actor C → Actor C
  ends status a = record a { phase = ended status; hub = shutdown a.hub }

  -- Reads the oldest queued message, if there is one, and goes on in the given phase.
  unfoldable pub read_broadcast : Lru C → Env → Phase → List Message → Actor C → Actor C
  read_broadcast lru e phase [] a = a
  read_broadcast lru e phase (m ∷ rest) a =
      let (h, p) = handle_broadcast lru e m (record a.hub { broadcast_ch = rest }) a.persist in
      record a { phase = phase; hub = h; persist = p }

  -- The `default` of the inner loop of `drain`, and the test below it.
  unfoldable pub drained : Actor C → Actor C
  drained a = if a.hub.pending_persist == 0 then ends ok a else record a { phase = waiting }

  unfoldable pub drain_next : Lru C → Env → List Message → Actor C → Actor C
  drain_next lru e [] a = drained a
  drain_next lru e (m ∷ rest) a = read_broadcast lru e draining (m ∷ rest) a

  -- An event that the hub does not wait for in its phase leaves it as it is.
  unfoldable pub react : Lru C → Env → Phase → Event → Actor C → Actor C
  react lru e running (register ident user) a = record a {
    hub = (on_register e ident user a.hub).0;
  }
  react lru e running (unregister s) a = record a { hub = on_unregister s a.hub }
  react lru e running idle_fired a =
      if a.hub.idle_armed then at draining (begin_drain a.hub) a else a
  react lru e running next_broadcast a = read_broadcast lru e running a.hub.broadcast_ch a
  react lru e running ctx_done a = at draining (begin_drain a.hub) a
  react lru e running stop_ready a = if a.hub.stopped then at draining (begin_drain a.hub) a else a
  react lru e draining next_broadcast a = drain_next lru e a.hub.broadcast_ch a
  react lru e draining ctx_done a = ends error a
  react lru e waiting next_broadcast a = read_broadcast lru e draining a.hub.broadcast_ch a
  react lru e waiting persist_signal a =
      if a.hub.persist_done then at draining (record a.hub { persist_done = false }) a else a
  react lru e waiting tick a = record a { phase = draining }
  react lru e waiting drain_timer a = ends timeout a
  react lru e waiting ctx_done a = ends error a
  react _ _ _ _ a = a

  -- A worker receives the oldest task, and then frees a slot.
  unfoldable pub worker_take : List PersistTask → Actor C → Actor C
  worker_take [] a = a
  worker_take (t ∷ rest) a = record a {
    persist = release_persist_slot (record a.persist { queue = rest });
    in_flight = a.in_flight ++ t ∷ [];
  }

  unfoldable pub worker_ack : Bool → List PersistTask → Actor C → Actor C
  worker_ack failed [] a = a
  worker_ack failed (t ∷ rest) a = record a {
    hub = if t.hub == a.hub.ident then ack failed a.hub else a.hub;
    in_flight = rest;
  }

  -- Another hub of the manager reserves a slot and queues a task of its own.
  unfoldable pub queue_other : PersistTask → Actor C → Actor C
  queue_other t a = elim (reserve_persist_slot a.persist) [
    | none ↦ a
    | some p ↦
        if a.persist.has_ch && not (t.hub == a.hub.ident) && ltb (length p.queue) p.queue_cap
        then record a { persist = record p { queue = p.queue ++ t ∷ [] } }
        else a
  ]

  -- The goroutines around the hub.
  unfoldable pub surround : Event → Actor C → Actor C
  surround (offer m) a = elim (enqueue_broadcast m a.hub) [
    | none ↦ a
    | some (h, accepted) ↦ record a { hub = h }
  ]
  surround (force_closed reason) a = record a { hub = force_close reason a.hub }
  surround (other_hub t) a = queue_other t a
  surround worker_takes a = worker_take a.persist.queue a
  surround (worker_acks failed) a = worker_ack failed a.in_flight a
  surround _ a = a

  unfoldable pub step : Lru C → Actor C → Env × Event → Actor C
  step lru a (e, ev) = surround ev (react lru e a.phase ev a)

  unfoldable pub run : Lru C → Actor C → List (Env × Event) → Actor C
  run lru a [] = a
  run lru a (ev ∷ evs) = run lru (step lru a ev) evs
