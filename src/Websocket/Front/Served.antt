-- ===== src/Websocket/Front/Served.antt =====
-- internal/websocket/handler_ws.go with internal/user/service.go: who gets a connection, and what
-- becomes of a registration.
use go_chat_msa.Common.{
  ℕ, ◌≡◌, refl, subst, ap, sym, ◌∙◌, ◌⊎◌, inl, inr, ◌+◌, String, Bool, true, false, Option, none,
  some, is_some, List, [], ◌∷◌, str_eq, str_eq_iff, Bool-cases, Option-cases, arith,
}
use go_chat_msa.Grpc.{Error}
use go_chat_msa.User.Db
use go_chat_msa.User.Db.{Db, MemberRow, find_room, find_member}
use go_chat_msa.User.Tx.{Result, ok, err}
use go_chat_msa.User.Rooms.{Env}
use go_chat_msa.User.Rooms.Joining
use go_chat_msa.WsGateway.Ring
use go_chat_msa.WsGateway.Ring.{Consistent}
use go_chat_msa.Websocket.Lease.{Store}
use go_chat_msa.Websocket.Hub.{Lru}
use go_chat_msa.Websocket.Manager.{Front, Outside, Opened, opened, refused}
use go_chat_msa.Websocket.Manager.Registration.{
  Registration, Registering, taken, not_taken, overtaken, succeeds, Call, commits, cancels, Effects,
  call, call_all, commit, cancel, settled_once, SettledBy,
}
use go_chat_msa.Websocket.Front.{
  Upgrade, Outcome, Prepared, prepared, not_opened, gave_up, after_prepare, upgrade_registered,
  registration_calls, prepare_register, serve_member, serve_web_socket, registration_of, retryable,
  Sending, answered, abandoned, context_done, manager_stopped,
}

Result-cases : {A : Type 0} (r : Result A) → ((a : A) × (r ≡ ok a)) ⊎ ((e : Error) × (r ≡ err e))
Result-cases (ok a) = inl (a, refl)
Result-cases (err e) = inr (e, refl)

-- A call leaves the room, the hub and whether it is new.
call_created : (c : Call) (x : Effects) → (call c x).registration.created ≡ x.registration.created
unfolding call commit cancel
call_created (commits b) x = ground arith
call_created cancels x = ground arith

call_all_created :
    (cs : List Call) (x : Effects) → (call_all cs x).registration.created ≡ x.registration.created
unfolding call_all
call_all_created [] x = refl
call_all_created (c ∷ cs) x = call_all_created cs (call c x) ∙ call_created c x

-- Of a registration of a new hub: the hub took one user or one cancellation was sent, or both since
-- the context was over after the hub took the user.
abbrev pub OneOrOvertaken : Registering → Effects → Type 0
OneOrOvertaken g x =
    (x.registered + x.cancelled ≡ 1) ⊎ ((g ≡ overtaken) × (x.registered ≡ 1) × (x.cancelled ≡ 1))

commits-OneOrOvertaken :
    (g : Registering) (x : Effects) → SettledBy (commits g) x → OneOrOvertaken g x
commits-OneOrOvertaken taken x (r, n) = inl (omega arith)
commits-OneOrOvertaken not_taken x (r, n) = inl (omega arith)
commits-OneOrOvertaken overtaken x (r, n) = inr (refl, r, n)

abbrev Settled : Registering → Option Effects → Type 0
Settled g none = Unit
Settled g (some x) = x.registration.created ≡ true → OneOrOvertaken g x

calls_settle :
    (g : Registering) (c : Call) (cs : List Call) (r : Registration)
    → r.done ≡ false
    → ((x : Effects) → SettledBy c x → OneOrOvertaken g x)
    → Settled g
        (some (call_all (c ∷ cs) (record { registration = r; registered = 0; cancelled = 0 })))
calls_settle g c cs r unused first made = first _ (
    settled_once c cs r unused (
      sym (call_all_created (c ∷ cs) (record { registration = r; registered = 0; cancelled = 0 }))
      ∙ made))

upgrade_registered-Settled :
    (u : Upgrade) (r : Registration)
    → r.done ≡ false
    → Settled u.registering (upgrade_registered u r).effects
unfolding upgrade_registered registration_calls
upgrade_registered-Settled u r unused =
    let by_commit = commits-OneOrOvertaken u.registering in
    elim (Bool-cases (is_some u.upgrade_error)) [
      | inl e ↦
          rw (e, registration_calls)
            (calls_settle u.registering cancels [] r unused (λ x s. inl (omega (arith, s))))
      | inr e ↦ elim (Bool-cases (succeeds u.registering)) [
        | inl b ↦
            rw (e, b, registration_calls)
              (calls_settle u.registering (commits u.registering) [] r unused by_commit)
        | inr b ↦
            rw (e, b, registration_calls)
              (calls_settle u.registering (commits u.registering) (cancels ∷ []) r unused by_commit)
      ]
    ]

-- A prepared registration that is new to its holder.
abbrev Unused : Prepared → Type 0
Unused (prepared r) = r.done ≡ false
Unused (not_opened r) = Unit
Unused gave_up = Unit

after_prepare-Settled :
    (u : Upgrade) (p : Prepared) → Unused p → Settled u.registering (after_prepare u p).effects
unfolding after_prepare
after_prepare-Settled u (prepared r) unused = upgrade_registered-Settled u r unused
after_prepare-Settled u (not_opened r) unused = elim (Bool-cases (retryable r)) [
  | inl e ↦ rw (e, after_prepare) tt
  | inr e ↦ rw (e, after_prepare) tt
]
after_prepare-Settled u gave_up unused = tt

registration_of-Unused : (room_id : String) (o : Opened) → Unused (registration_of room_id o)
registration_of-Unused room_id (opened h b) = refl
registration_of-Unused room_id (refused r) = tt

module _ {C : Type 0} (lru : Lru C) (s : Store) (max_length : ℕ) (has_store : Bool) where
  prepare_register-Unused :
      (sending : Sending) (o : Outside) (room_id : String) (f : Front C)
      → Unused (prepare_register lru s max_length has_store sending o room_id f).1
  unfolding prepare_register
  prepare_register-Unused answered o room_id f = registration_of-Unused room_id _
  prepare_register-Unused abandoned o room_id f = tt
  prepare_register-Unused context_done o room_id f = tt
  prepare_register-Unused manager_stopped o room_id f = tt

  module _ (lib : Consistent) (verify : String → String → Result (Unit {0})) where
    -- The guards before a registration.
    serve_web_socket-cases :
        (addr : String) (ring : lib.Carrier) (u : Upgrade) (f : Front C)
        → let served = serve_web_socket lru s max_length has_store lib verify addr ring u f in
          ((served.1.effects ≡ none) × (served.0 ≡ f))
          ⊎ ((verify u.room_id u.user_id ≡ ok tt)
              × (Ring.locate lib u.room_id ring ≡ addr)
              × (served.1
                  ≡ after_prepare u
                      (prepare_register lru s max_length has_store u.sending u.outside u.room_id
                        f).1))
    unfolding serve_web_socket serve_member
    serve_web_socket-cases addr ring u f = elim (Bool-cases (str_eq u.user_id "")) [
      | inl e ↦ inl (rw (e, serve_web_socket) refl, rw (e, serve_web_socket) refl)
      | inr e ↦ elim (Bool-cases (str_eq u.room_id "")) [
        | inl r ↦ inl (rw (e, r, serve_web_socket) refl, rw (e, r, serve_web_socket) refl)
        | inr r ↦ elim (Result-cases (verify u.room_id u.user_id)) [
          | inr (x, v) ↦
              inl (rw (e, r, v, serve_web_socket) refl, rw (e, r, v, serve_web_socket) refl)
          | inl (x, v) ↦ elim (Bool-cases (str_eq (Ring.locate lib u.room_id ring) addr)) [
            | inr l ↦ inl (
              rw (e, r, v, l, serve_web_socket, serve_member) refl,
              rw (e, r, v, l, serve_web_socket, serve_member) refl,
            )
            | inl l ↦ inr (
              v,
              (str_eq_iff (Ring.locate lib u.room_id ring) addr).0 l,
              rw (e, r, v, l, serve_web_socket, serve_member) refl,
            )
          ]
        ]
      ]
    ]

    -- Whatever answers the user service, the manager, the upgrader and the hub give: when a
    -- request leads to a registration of a new hub, either the hub takes one user or one
    -- cancellation is made, and not both, or both are done, once each, and then the context
    -- was over after the hub took the user and before `register` read its answer.
    pub registration_settled :
        (addr : String) (ring : lib.Carrier) (u : Upgrade) (f : Front C) (x : Effects)
        → (serve_web_socket lru s max_length has_store lib verify addr ring u f).1.effects ≡ some x
        → x.registration.created ≡ true
        → OneOrOvertaken u.registering x
    registration_settled addr ring u f x e = elim (serve_web_socket-cases addr ring u f) [
      | inl (n, same) ↦ absurd (ground (arith, n, e))
      | inr (v, l, o) ↦
          subst (Settled u.registering) (sym (ap Outcome.effects o) ∙ e)
            (after_prepare-Settled u _ (prepare_register-Unused u.sending u.outside u.room_id f))
    ]

-- What the two texts name: a room and a user that is a member of it.
abbrev pub MemberOf : Env → String → String → Db → Type 0
MemberOf e room_id user_id db =
    (room : ℕ) × (user : ℕ) × (m : MemberRow) × (e.parse room_id ≡ some room)
    × (e.parse user_id ≡ some user)
    × (find_member room user db.members ≡ some m)

pub verify_room_member-MemberOf :
    (e : Env) (room_id user_id : String) (db : Db)
    → Joining.verify_room_member e room_id user_id db ≡ ok tt
    → MemberOf e room_id user_id db
unfolding Joining.verify_room_member Db.exists_room_member
verify_room_member-MemberOf e room_id user_id db v = elim (Option-cases (e.parse room_id)) [
  | inl r ↦ absurd (ground (arith, rw (r, Joining.verify_room_member) at v))
  | inr (room, r) ↦ elim (Option-cases (e.parse user_id)) [
    | inl u ↦ absurd (ground (arith, rw (r, u, Joining.verify_room_member) at v))
    | inr (user, u) ↦ elim (Option-cases (find_member room user db.members)) [
      | inr (m, h) ↦ (room, user, m, r, u, h)
      | inl h ↦ elim (Bool-cases (e.fault 0)) [
        | inl broken ↦ absurd (ground (arith, rw (r, u, broken, Joining.verify_room_member) at v))
        | inr works ↦ elim (Option-cases (find_room room db.rooms)) [
          | inl gone ↦ absurd (
              ground (
                arith,
                rw (r, u, h, works, gone, Joining.verify_room_member, Db.exists_room_member) at v,
              ))
          | inr (row, here) ↦ absurd (
              ground (
                arith,
                rw (r, u, h, works, here, Joining.verify_room_member, Db.exists_room_member) at v,
              ))
        ]
      ]
    ]
  ]
]

module _ {C : Type 0} (lru : Lru C) (s : Store) (max_length : ℕ) (has_store : Bool) where
  module _ (lib : Consistent) (e : Env) (db : Db) where
    -- With the membership check of the user service over its database: a request leaves the
    -- manager as it was and makes no registration, or its two texts name a room and a user
    -- that is a member of the room, and the ring locates the room at this server.
    pub connected_member :
        (addr : String) (ring : lib.Carrier) (u : Upgrade) (f : Front C)
        → let served =
            serve_web_socket lru s max_length has_store lib
              (λ room_id user_id. Joining.verify_room_member e room_id user_id db)
              addr
              ring
              u
              f in
          ((served.0 ≡ f) × (served.1.effects ≡ none))
          ⊎ (MemberOf e u.room_id u.user_id db × (Ring.locate lib u.room_id ring ≡ addr))
    connected_member addr ring u f =
        elim (serve_web_socket-cases lru s max_length has_store lib
          (λ room_id user_id. Joining.verify_room_member e room_id user_id db) addr ring u f) [
            | inl (n, same) ↦ inl (same, n)
            | inr (v, l, o) ↦ inr (verify_room_member-MemberOf e u.room_id u.user_id db v, l)
          ]
