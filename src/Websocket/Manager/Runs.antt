-- ===== src/Websocket/Manager/Runs.antt =====
-- internal/websocket/hub/manager.go: every round of the select loop keeps a lease for every room that
-- has a hub.
use go_chat_msa.Common.{
  ℕ, ◌≡◌, refl, String, Bool, ◌&&◌, Option, some, List, [], ◌∷◌, arith, ◌==◌, find, put, remove,
  Option-cases, Bool-cases, inl, inr,
}
use go_chat_msa.Websocket.Lease.{Store, Net}
use go_chat_msa.Websocket.Hub.{Hub, Lru}
use go_chat_msa.Websocket.Hub.Events.{force_close, begin_drain}
use go_chat_msa.Websocket.ManagedLease.{
  HubLeaseState, capture_hub_lease_state, mark_handoff, release_lease, release_when_ready,
}
use go_chat_msa.Websocket.ManagedLease.Renewal.{update_lease_renew_ok}
use go_chat_msa.Websocket.Manager.{
  Front, Event, lookup, cancel_prepared, force_closes, hub_done, waiter_round, renewed, hub_runs,
  others_run, nth, on_cancel_prepared, on_force_close, release_hub, on_hub_done, on_waiter_round,
  on_hub_runs, select, run, hands_off, answers,
}
use go_chat_msa.Websocket.Manager.Owned.{
  waits_for-nth, Owned, Owned-hub, Owned-manager, Owned-round, Owned-ends, Owned-done, Owned-remove,
}
use go_chat_msa.Websocket.Manager.Opening.{get_or_create-Owned}
use go_chat_msa.Websocket.Manager.Tracked.{
  mark_handoff-tracked, update_lease_renew_ok-tracked, release_lease-tracked,
  release_when_ready-tracked,
}

force_close-room :
    {C : Type 0} (reason : String) (h : Hub C) → (force_close reason h).room_id ≡ h.room_id
unfolding force_close begin_drain
force_close-room reason h = ground arith

module _ {C : Type 0} (lru : Lru C) (s : Store) (max_length : ℕ) (has_store : Bool) where
  on_cancel_prepared-Owned :
      (room : String) (hub : ℕ) (f : Front C)
      → Owned f
      → Owned (on_cancel_prepared lru s max_length has_store room hub f)
  unfolding on_cancel_prepared
  on_cancel_prepared-Owned room hub f owned = elim (Option-cases (find room f.hubs)) [
    | inl n ↦ rw (n, on_cancel_prepared) owned
    | inr (h, n) ↦
        rw (n, on_cancel_prepared)
          (elim (Bool-cases (h.ident == hub && h.active_sessions == 0)) [
            | inl b ↦ rw b (
                Owned-hub f room h (force_close "prepare_cancel" h) n
                  (force_close-room "prepare_cancel" h) owned)
            | inr b ↦ rw b owned
          ])
  ]

  on_force_close-Owned :
      (now : ℕ) (room reason : String) (f : Front C)
      → Owned f
      → Owned (on_force_close lru s max_length has_store now room reason f).0
  unfolding on_force_close
  on_force_close-Owned now room reason f owned = elim (Option-cases (find room f.hubs)) [
    | inl n ↦ rw (n, on_force_close) owned
    | inr (h, n) ↦
        rw (n, on_force_close)
          (elim (Bool-cases (hands_off reason)) [
            | inl b ↦ rw b (
                Owned-manager (record f { hubs = put room (force_close reason h) f.hubs })
                  (mark_handoff now room reason f.manager)
                  (λ r. mark_handoff-tracked now room r reason f.manager)
                  (Owned-hub f room h (force_close reason h) n (force_close-room reason h) owned))
            | inr b ↦
                rw b (Owned-hub f room h (force_close reason h) n (force_close-room reason h) owned)
          ])
  ]

  release_hub-Owned :
      (now : ℕ) (net : Net) (set_max : Option Bool) (h : Hub C) (room : String) (f : Front C)
      → Owned f
      → Owned (
          release_hub lru s max_length has_store now net set_max h room
            (record f { hubs = remove room f.hubs }))
  unfolding release_hub
  release_hub-Owned now net set_max h room f owned =
      elim (Option-cases (find room f.manager.leases)) [
        | inl n ↦ rw (n, release_hub) (Owned-remove f room owned)
        | inr (l, n) ↦
            let a = answers lru s max_length has_store now net set_max l f.redis in
            let states : ℕ → HubLeaseState = λ p. capture_hub_lease_state (some h) in
            let (m, waits) = release_lease room (some h.ident) states a f.manager in
            let (stays, waited) =
              Owned-done f m room l n
                (λ r. release_lease-tracked room r h.ident states a f.manager l n) owned in
            rw (n, release_hub)
              (elim (Bool-cases waits) [ inl b ↦ rw b waited | inr b ↦ rw b stays ])
      ]

  on_hub_done-Owned :
      (now : ℕ) (net : Net) (set_max : Option Bool) (room : String) (hub : ℕ) (f : Front C)
      → Owned f
      → Owned (on_hub_done lru s max_length has_store now net set_max room hub f)
  unfolding on_hub_done
  on_hub_done-Owned now net set_max room hub f owned = elim (Option-cases (find room f.hubs)) [
    | inl n ↦ rw (n, on_hub_done) owned
    | inr (h, n) ↦
        rw (n, on_hub_done)
          (elim (Bool-cases (h.ident == hub)) [
            | inl b ↦ rw b (release_hub-Owned now net set_max h room f owned)
            | inr b ↦ rw b owned
          ])
  ]

  on_waiter_round-Owned :
      (now : ℕ) (net : Net) (set_max : Option Bool) (place : ℕ) (state : HubLeaseState)
      (f : Front C)
      → Owned f
      → Owned (on_waiter_round lru s max_length has_store now net set_max place state f)
  unfolding on_waiter_round
  on_waiter_round-Owned now net set_max place state f owned =
      elim (Option-cases (nth place f.waiters)) [
        | inl n ↦ rw (n, on_waiter_round) owned
        | inr (w, n) ↦
            let a = answers lru s max_length has_store now net set_max w.lease f.redis in
            let (m, ends) = release_when_ready w.room_id w.lease state a f.manager in
            let kept =
              Owned-round f m w.room_id w.lease.ident (waits_for-nth place f.waiters w n)
                (λ r. release_when_ready-tracked w.room_id r w.lease state a f.manager) owned in
            rw (n, on_waiter_round)
              (elim (Bool-cases ends) [
                | inl b ↦ rw b (Owned-ends (record f { manager = m }) place kept)
                | inr b ↦ rw b kept
              ])
      ]

  on_hub_runs-Owned :
      (room : String) (h' : Hub C) (f : Front C)
      → Owned f
      → Owned (on_hub_runs lru s max_length has_store room h' f)
  on_hub_runs-Owned room h' f owned = elim (Option-cases (find room f.hubs)) [
    | inl n ↦ rw (n, on_hub_runs) owned
    | inr (h, n) ↦
        rw (n, on_hub_runs)
          (Owned-hub f room h (record h' { ident = h.ident; room_id = h.room_id }) n refl owned)
  ]

  select-Owned :
      (e : Event C) (f : Front C) → Owned f → Owned (select lru s max_length has_store e f)
  unfolding select
  select-Owned (lookup o room) f owned =
      get_or_create-Owned lru s max_length has_store o room f owned
  select-Owned (cancel_prepared room hub) f owned = on_cancel_prepared-Owned room hub f owned
  select-Owned (force_closes now room reason) f owned = on_force_close-Owned now room reason f owned
  select-Owned (hub_done now net set_max room hub) f owned =
      on_hub_done-Owned now net set_max room hub f owned
  select-Owned (waiter_round now net set_max place state) f owned =
      on_waiter_round-Owned now net set_max place state f owned
  select-Owned (renewed at room) f owned =
      Owned-manager f (update_lease_renew_ok room at f.manager)
        (λ r. update_lease_renew_ok-tracked at room r f.manager) owned
  select-Owned (hub_runs room h) f owned = on_hub_runs-Owned room h f owned
  select-Owned (others_run db) f owned = owned

  -- Whatever happens in the select loop and around it: if at the start every hub stands under
  -- its own room and the room has a tracked lease, its own, that no goroutine waits to give
  -- back, and the pointers of tracked and waiting leases were given out before, then the same
  -- holds at the end.
  pub run-Owned :
      (es : List (Event C)) (f : Front C) → Owned f → Owned (run lru s max_length has_store es f)
  unfolding run
  run-Owned [] f owned = owned
  run-Owned (e ∷ es) f owned =
      run-Owned es (select lru s max_length has_store e f) (select-Owned e f owned)
