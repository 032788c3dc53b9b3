-- ===== src/Websocket/Hub/Sessions/Runs.antt =====
-- hub.go: the session map of a hub over its events.
use go_chat_msa.Common.{
  ℕ, ◌≡◌, refl, String, Bool, true, false, none, List, [], ◌∷◌, arith, Option-cases, inl, inr, find,
  put-Distinct, remove-Distinct, length-put, length-remove, find-remove, str_eq_refl, ◌==◌,
  if◌then◌else◌, Bool-cases,
}
use go_chat_msa.Websocket.Message.{Message}
use go_chat_msa.Websocket.Session.{Session}
use go_chat_msa.Websocket.Hub.{Hub, Lru, Env}
use go_chat_msa.Websocket.Hub.Broadcast.{
  reserve_persist_slot, notify_persist_done, enqueue_broadcast, ack,
}
use go_chat_msa.Websocket.Hub.Events.{
  Phase, running, draining, waiting, Event, register, unregister, ctx_done, next_broadcast,
  drain_timer, Actor, kick_session, register_session, on_register, drop_session, on_unregister,
  shutdown, begin_drain, force_close, read_broadcast, drained, drain_next, react, worker_take,
  worker_ack, queue_other, surround, step, run,
}
use go_chat_msa.Websocket.Hub.Sessions.{Counted, same-Counted, handle_broadcast-Counted}

module _ {C : Type 0} where
  pub kick_session-Counted :
      (e : Env) (who : String) (h : Hub C)
      → Counted h
      → Counted (kick_session e who h) × (find who (kick_session e who h).sessions ≡ none)
  unfolding kick_session
  kick_session-Counted e who h c = elim (Option-cases (find who h.sessions)) [
    | inl missing ↦ rw (missing, kick_session) (c, missing)
    | inr (old, found) ↦
        rw (found, kick_session)
          (
            record {
              keys = remove-Distinct who h.sessions c.keys;
              active = omega (arith, c.active, length-remove who h.sessions c.keys found);
            },
            rw (find-remove who who h.sessions, str_eq_refl who),
          )
  ]

  -- Registering keeps one session for each user, and the counter at their number.
  pub register_session-Counted :
      (e : Env) (s : Session) (h : Hub C) → Counted h → Counted (register_session e s h)
  unfolding register_session
  register_session-Counted e s h c =
      let (c', gone) = kick_session-Counted e s.sender_id h c in
      let ss = (kick_session e s.sender_id h).sessions in
      record {
        keys = put-Distinct s.sender_id s ss c'.keys;
        active = omega (arith, c'.active, length-put s.sender_id s ss gone);
      }

  pub drop_session-Counted : (s : Session) (h : Hub C) → Counted h → Counted (drop_session s h)
  unfolding drop_session
  drop_session-Counted s h c = elim (Option-cases (find s.sender_id h.sessions)) [
    | inl missing ↦ rw (missing, drop_session) c
    | inr (old, found) ↦ elim (Bool-cases (old.ident == s.ident)) [
      | inl same ↦
          rw (found, same, drop_session)
            (record {
              keys = remove-Distinct s.sender_id h.sessions c.keys;
              active = omega (arith, c.active, length-remove s.sender_id h.sessions c.keys found);
            })
      | inr other ↦ rw (found, other, drop_session) c
    ]
  ]

  pub on_unregister-Counted : (s : Session) (h : Hub C) → Counted h → Counted (on_unregister s h)
  unfolding on_unregister
  on_unregister-Counted s h c =
      same-Counted (drop_session s h) _ (drop_session-Counted s h c) (ground arith) (ground arith)

  pub shutdown-Counted : (h : Hub C) → Counted (shutdown h)
  unfolding shutdown
  shutdown-Counted h = record { keys = tt; active = refl }

  pub read_broadcast-Counted :
      (lru : Lru C) (e : Env) (f : Phase) (ms : List Message) (a : Actor C)
      → Counted a.hub
      → Counted (read_broadcast lru e f ms a).hub
  unfolding read_broadcast
  read_broadcast-Counted lru e f [] a c = c
  read_broadcast-Counted lru e f (m ∷ rest) a c =
      handle_broadcast-Counted lru e m _ a.persist (same-Counted a.hub _ c refl refl)

  drained-Counted : (a : Actor C) → Counted a.hub → Counted (drained a).hub
  unfolding drained
  drained-Counted a c = elim (Bool-cases (a.hub.pending_persist == 0)) [
    | inl none_left ↦ rw (none_left, drained) (shutdown-Counted a.hub)
    | inr some_left ↦ rw (some_left, drained) c
  ]

  drain_next-Counted :
      (lru : Lru C) (e : Env) (ms : List Message) (a : Actor C)
      → Counted a.hub
      → Counted (drain_next lru e ms a).hub
  unfolding drain_next
  drain_next-Counted lru e [] a c = drained-Counted a c
  drain_next-Counted lru e (m ∷ rest) a c = read_broadcast-Counted lru e draining (m ∷ rest) a c

  either-Counted :
      (b : Bool) (g h : Hub C)
      → Counted g
      → Counted h
      → Counted (if◌then◌else◌ {A = Hub C × Bool} b (g, false) (h, true)).0
  either-Counted true g h c d = c
  either-Counted false g h c d = d

  on_register-Counted :
      (e : Env) (i : ℕ) (who : String) (h : Hub C) → Counted h → Counted (on_register e i who h).0
  unfolding on_register
  on_register-Counted e i who h c =
      either-Counted h.draining h _ c (register_session-Counted e _ h c)

  react-Counted :
      (lru : Lru C) (e : Env) (f : Phase) (ev : Event) (a : Actor C)
      → Counted a.hub
      → Counted (react lru e f ev a).hub
  unfolding react begin_drain
  react-Counted lru e running (register i who) a c = on_register-Counted e i who a.hub c
  react-Counted lru e running (unregister s) a c = on_unregister-Counted s a.hub c
  react-Counted lru e running next_broadcast a c = read_broadcast-Counted lru e running _ a c
  react-Counted lru e draining next_broadcast a c = drain_next-Counted lru e _ a c
  react-Counted lru e waiting next_broadcast a c = read_broadcast-Counted lru e draining _ a c
  react-Counted lru e draining ctx_done a c = shutdown-Counted a.hub
  react-Counted lru e waiting drain_timer a c = shutdown-Counted a.hub
  react-Counted lru e waiting ctx_done a c = shutdown-Counted a.hub
  react-Counted lru e _ _ a c = same-Counted a.hub _ c (ground arith) (ground arith)

  surround-Counted : (ev : Event) (a : Actor C) → Counted a.hub → Counted (surround ev a).hub
  unfolding surround enqueue_broadcast force_close begin_drain worker_take worker_ack queue_other
      ack notify_persist_done reserve_persist_slot
  surround-Counted ev a c = same-Counted a.hub _ c (ground arith) (ground arith)

  -- Whatever events happen, if at the start no user stands twice in a hub's map and
  -- `activeSessions` is the map's size modulo 2 ^ 64, then the same holds at the end.
  pub run-Counted :
      (lru : Lru C) (evs : List (Env × Event)) (a : Actor C)
      → Counted a.hub
      → Counted (run lru a evs).hub
  unfolding run step
  run-Counted lru [] a c = c
  run-Counted lru ((e, ev) ∷ evs) a c =
      run-Counted lru evs _ (surround-Counted ev _ (react-Counted lru e a.phase ev a c))
