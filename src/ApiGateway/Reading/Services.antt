-- ===== src/ApiGateway/Reading/Services.antt =====
-- internal/user/service.go and internal/chat/service.go as the gateway's clients.
use go_chat_msa.Common.{
  ℕ, ◌≡◌, subst, inl, inr, ◌≤◌, String, Option, none, some, List, All, str_eq, Bool-cases,
  Option-cases, arith,
}
use go_chat_msa.Grpc.{status}
use go_chat_msa.User.Db
use go_chat_msa.User.Db.{Db, MemberRow, find_room, find_member}
use go_chat_msa.User.Tx.{Result, ok, err}
use go_chat_msa.User.Rooms.{Env}
use go_chat_msa.User.Rooms.Joining
use go_chat_msa.Chat.Repository.{Message, Query, Collection, bson_date, get_history, sync_messages}
use go_chat_msa.Chat.Service
use go_chat_msa.Chat.Service.{page_limit}
use go_chat_msa.ApiGateway.{Clients}

-- The lower bound of a filter, and a date.
abbrev pub Since : Option ℕ → ℕ → Type 0
Since none date = Unit
Since (some least) date = least ≤ date

-- Find of the collection returns only documents that match the filter.
abbrev pub Filters : Collection → Type 0
Filters c =
    (q : Query) (ms : List Message)
    → c.find q ≡ some ms
    → All (λ m. (m.room_id ≡ q.room_id) × Since q.since (bson_date m.created_at)) ms

abbrev pub chat_answer : {A : Type 0} → Service.Result A → Result A
chat_answer (Service.ok a) = ok a
chat_answer (Service.err c) = err (status c)

-- The clients, with the members in a database and the messages in a collection.
abbrev pub services : Clients → Env → Db → Service.Env → Collection → Clients
services cl e db chat c = record cl {
  get_member_joined_at = λ room_id user_id. Joining.get_member_joined_at e room_id user_id db;
  verify_room_member = λ room_id user_id. Joining.verify_room_member e room_id user_id db;
  list_messages =
      λ room_id limit t. chat_answer (Service.list_messages chat c room_id limit (some t));
  sync_messages =
      λ room_id last limit t. chat_answer (Service.sync chat c room_id last limit (some t));
}

-- The messages of a room since the millisecond of a time.
abbrev pub RoomSince : String → ℕ → List Message → Type 0
RoomSince room_id t ms =
    All (λ m. (m.room_id ≡ room_id) × (bson_date t ≤ bson_date m.created_at)) ms

module _ (chat : Service.Env) (c : Collection) (f : Filters c) where
  pub list_messages-RoomSince :
      (room_id : String) (limit t : ℕ) (ms : List Message)
      → chat_answer (Service.list_messages chat c room_id limit (some t)) ≡ ok ms
      → RoomSince room_id t ms
  unfolding Service.list_messages get_history
  list_messages-RoomSince room_id limit t ms got = elim (Bool-cases (str_eq room_id "")) [
    | inl e ↦ absurd (ground (arith, rw (e, Service.list_messages) at got))
    | inr e ↦
        elim (Option-cases (
          get_history c room_id
            (page_limit chat.config.history_default chat.config.history_max limit) (some t))) [
              | inl g ↦ absurd (ground (arith, rw (e, g, Service.list_messages) at got))
              | inr (xs, g) ↦
                  let same : xs ≡ ms = ground (arith, rw (e, g, Service.list_messages) at got) in
                  subst (RoomSince room_id t) same (f _ xs g)
            ]
  ]

  pub sync-RoomSince :
      (room_id : String) (last limit t : ℕ) (ms : List Message)
      → chat_answer (Service.sync chat c room_id last limit (some t)) ≡ ok ms
      → RoomSince room_id t ms
  unfolding Service.sync sync_messages
  sync-RoomSince room_id last limit t ms got = elim (Bool-cases (str_eq room_id "")) [
    | inl e ↦ absurd (ground (arith, rw (e, Service.sync) at got))
    | inr e ↦
        elim (Option-cases (
          sync_messages c room_id last
            (page_limit chat.config.sync_default chat.config.sync_max limit) (some t))) [
              | inl g ↦ absurd (ground (arith, rw (e, g, Service.sync) at got))
              | inr (xs, g) ↦
                  let same : xs ≡ ms = ground (arith, rw (e, g, Service.sync) at got) in
                  subst (RoomSince room_id t) same (f _ xs g)
            ]
  ]

-- The two texts name a room and a member of it that joined at the time.
abbrev pub JoinedAt : Env → String → String → Db → ℕ → Type 0
JoinedAt e room_id user_id db t =
    (room : ℕ) × (user : ℕ) × (m : MemberRow) × (e.parse room_id ≡ some room)
    × (e.parse user_id ≡ some user)
    × (find_member room user db.members ≡ some m)
    × (m.joined_at ≡ t)

pub get_member_joined_at-JoinedAt :
    (e : Env) (room_id user_id : String) (db : Db) (t : ℕ)
    → Joining.get_member_joined_at e room_id user_id db ≡ ok t
    → JoinedAt e room_id user_id db t
unfolding Joining.get_member_joined_at Db.get_member_joined_at
get_member_joined_at-JoinedAt e room_id user_id db t v = elim (Option-cases (e.parse room_id)) [
  | inl r ↦ absurd (ground (arith, rw (r, Joining.get_member_joined_at) at v))
  | inr (room, r) ↦ elim (Option-cases (e.parse user_id)) [
    | inl u ↦ absurd (ground (arith, rw (r, u, Joining.get_member_joined_at) at v))
    | inr (user, u) ↦ elim (Bool-cases (e.fault 0)) [
      | inl broken ↦ absurd (ground (arith, rw (r, u, broken, Joining.get_member_joined_at) at v))
      | inr works ↦ elim (Option-cases (find_room room db.rooms)) [
        | inl gone ↦ absurd (
            ground (
              arith,
              rw (r, u, works, gone, Joining.get_member_joined_at, Db.get_member_joined_at) at v,
            ))
        | inr (row, here) ↦ elim (Option-cases (find_member room user db.members)) [
          | inl h ↦ absurd (
              ground (
                arith,
                rw (r, u, works, here, h, Joining.get_member_joined_at, Db.get_member_joined_at) at
                    v,
              ))
          | inr (m, h) ↦ (
            room,
            user,
            m,
            r,
            u,
            h,
            ground (
              arith,
              rw (r, u, works, here, h, Joining.get_member_joined_at, Db.get_member_joined_at) at v,
            ),
          )
        ]
      ]
    ]
  ]
]
