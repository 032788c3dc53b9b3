-- ===== src/ApiGateway/Reading.antt =====
-- internal/apigateway/handler_room.go: where the messages of a response come from.
pub mod Services
pub mod Joined
pub mod Members
use go_chat_msa.Common.{
  ℕ, ◌≡◌, refl, ◌∙◌, ap, sym, subst, ◌⊎◌, inl, inr, ◌≤◌, String, Bool, true, false, Option, none,
  some, List, [], ◌∷◌, All, if◌then◌else◌, str_eq, Bool-cases, Option-cases, arith,
}
use go_chat_msa.Grpc.{Error, status}
use go_chat_msa.User.Db
use go_chat_msa.User.Db.{Db, MemberRow, find_room, find_member}
use go_chat_msa.User.Tx.{Result, ok, err}
use go_chat_msa.User.Rooms.{Env}
use go_chat_msa.User.Rooms.Joining
use go_chat_msa.Chat.Repository.{Message, Query, Collection, get_history, sync_messages}
use go_chat_msa.Chat.Service
use go_chat_msa.Chat.Service.{page_limit}
use go_chat_msa.Shared.Http.{Response, problem, json, bare, relayed, switching}
use go_chat_msa.Shared.Middleware.{Request, get_user_id}
use go_chat_msa.ApiGateway.{
  Input, Call, called, Log, Clients, Config, Payload, Reply, calling, with_user, RoomMember,
  write_problem_from_grpc,
}
use go_chat_msa.ApiGateway.Numbers.{parse_int, pattern_64}
use go_chat_msa.ApiGateway.Rooms
use go_chat_msa.ApiGateway.Messages
use go_chat_msa.ApiGateway.Messages.{messages_from_proto}

-- A claim on the response that every problem satisfies.
module _ (Q : Response Payload → Type 0) (q : (s : ℕ) → Q (problem s)) where
  write_problem_by : (e : Error) → Q (write_problem_from_grpc e)
  unfolding write_problem_from_grpc
  write_problem_by (status c) = q _
  write_problem_by Error.other = q _

  pub calling_by :
      {A : Type 0} (c : Call) (r : Result A) (k : A → Log → Reply) (log : Log)
      → ((a : A) → r ≡ ok a → Q (k a (called c ∷ log)).1)
      → Q (calling c r k log).1
  unfolding calling
  calling_by c (err e) k log h = write_problem_by e
  calling_by c (ok a) k log h = h a refl

  pub with_user_by :
      (req : Request Input) (k : String → Log → Reply) (log : Log)
      → ((u : String) → get_user_id req ≡ some u → Q (k u log).1)
      → Q (with_user req k log).1
  unfolding with_user
  with_user_by req k log h = elim (Option-cases (get_user_id req)) [
    | inl e ↦ rw (e, with_user) (q _)
    | inr (u, e) ↦ rw (e, with_user) (h u e)
  ]

-- A claim on the messages of a response, if it has messages.
abbrev pub Shown : (List Message → Type 0) → Response Payload → Type 0
Shown P (problem s) = Unit
Shown P (json s (Payload.messages ms)) = P ms
Shown P (json s _) = Unit
Shown P (bare s) = Unit
Shown P (relayed s) = Unit
Shown P switching = Unit

-- Where the messages come from: the user's time of joining, and the chat service.
abbrev pub Read : Clients → Request Input → List Message → Type 0
Read cl req items =
    (user_id : String) × (t : ℕ) × (ms : List Message) × (limit : ℕ) × (get_user_id req
      ≡ some user_id)
    × (cl.get_member_joined_at req.input.room_id user_id ≡ ok t)
    × (items ≡ messages_from_proto cl.seconds ms)
    × ((cl.list_messages req.input.room_id limit t ≡ ok ms)
        ⊎ ((last : ℕ) × (cl.sync_messages req.input.room_id last limit t ≡ ok ms)))

module _ (cl : Clients) (req : Request Input) (u : String) (t : ℕ) where
  -- The user of the request, and when it joined.
  abbrev Joined : Type 0
  Joined = (get_user_id req ≡ some u) × (cl.get_member_joined_at req.input.room_id u ≡ ok t)

  history_page-Read :
      (log : Log) → Joined → Shown (Read cl req) (Messages.history_page cl req.input t log).1
  unfolding Messages.history_page
  history_page-Read log (is_user, joined) =
      elim (Option-cases (Messages.page_limit req.input.limit)) [
        | inl l ↦ rw (l, Messages.history_page) tt
        | inr (limit, l) ↦
            rw (l, Messages.history_page)
              (calling_by (Shown (Read cl req)) (λ s. tt) _ _ _ log
                λ ms got. (u, t, ms, limit, is_user, joined, refl, inl got))
      ]

  sync_page-Read :
      (log : Log) → Joined → Shown (Read cl req) (Messages.sync_page cl req.input t log).1
  unfolding Messages.sync_page
  sync_page-Read log (is_user, joined) = elim (Option-cases (parse_int 64 req.input.last_seq)) [
    | inl n ↦ rw (n, Messages.sync_page) tt
    | inr (last, n) ↦ elim (Option-cases (Messages.page_limit req.input.limit)) [
      | inl l ↦ rw (n, l, Messages.sync_page) tt
      | inr (limit, l) ↦
          rw (n, l, Messages.sync_page)
            (calling_by (Shown (Read cl req)) (λ s. tt) _ _ _ log
              λ ms got. (u, t, ms, limit, is_user, joined, refl, inr (pattern_64 last, got)))
    ]
  ]

pub handle_list_messages-Read :
    (cl : Clients) (req : Request Input) (log : Log)
    → Shown (Read cl req) (Messages.handle_list_messages cl req log).1
unfolding Messages.handle_list_messages
handle_list_messages-Read cl req log =
    with_user_by (Shown (Read cl req)) (λ s. tt) req _ log
      λ u is_user.
        calling_by (Shown (Read cl req)) (λ s. tt) _ _ _ log
          λ t joined. elim (Bool-cases (str_eq req.input.last_seq "")) [
            | inl e ↦ rw e (history_page-Read cl req u t _ (is_user, joined))
            | inr e ↦ rw e (sync_page-Read cl req u t _ (is_user, joined))
          ]
