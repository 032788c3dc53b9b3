-- ===== src/ApiGateway/Failing/Handlers.antt =====
-- internal/apigateway/handler_*.go: each handler either succeeds or leaves only its calls.
use go_chat_msa.Common.{ℕ, refl, inl, inr, String, Bool, str_eq, Bool-cases, Option-cases, arith}
use go_chat_msa.Shared.Http.{read_json}
use go_chat_msa.Shared.Middleware.{Request}
use go_chat_msa.ApiGateway.{Input, Log, Clients, Config}
use go_chat_msa.ApiGateway.Numbers.{parse_int}
use go_chat_msa.ApiGateway.Rooms
use go_chat_msa.ApiGateway.Rooms.{search_limit, search_offset}
use go_chat_msa.ApiGateway.Users
use go_chat_msa.ApiGateway.Users.{lacks, batch_allowed}
use go_chat_msa.ApiGateway.Messages
use go_chat_msa.ApiGateway.Messages.{page_limit}
use go_chat_msa.ApiGateway.Failing.{Clean, calling-Clean, with_user-Clean, bad-Clean}

module _ (cfg : Config) (cl : Clients) (parses : String → Bool) where
  pub handle_list_joined_rooms-Clean :
      (req : Request Input) (log : Log) → Clean log (Rooms.handle_list_joined_rooms cfg cl req log)
  unfolding Rooms.handle_list_joined_rooms
  handle_list_joined_rooms-Clean req log =
      with_user-Clean req _ log λ u. calling-Clean _ _ _ log λ a. inl refl

  pub handle_search_rooms-Clean :
      (req : Request Input) (log : Log) → Clean log (Rooms.handle_search_rooms cfg cl req log)
  unfolding Rooms.handle_search_rooms
  handle_search_rooms-Clean req log = elim (Option-cases (search_limit cfg req.input.limit)) [
    | inl e ↦ rw (e, Rooms.handle_search_rooms) (bad-Clean log)
    | inr (limit, e) ↦ elim (Option-cases (search_offset req.input.offset)) [
      | inl o ↦ rw (e, o, Rooms.handle_search_rooms) (bad-Clean log)
      | inr (offset, o) ↦
          rw (e, o, Rooms.handle_search_rooms) (calling-Clean _ _ _ log λ a. inl refl)
    ]
  ]

  pub handle_create_room-Clean :
      (req : Request Input) (log : Log) → Clean log (Rooms.handle_create_room cfg cl req log)
  unfolding Rooms.handle_create_room
  handle_create_room-Clean req log = with_user-Clean req _ log λ u.
      elim (Option-cases (read_json req.input.room)) [
        | inl e ↦ rw e (bad-Clean log)
        | inr (b, e) ↦ elim (Bool-cases (str_eq b.name "")) [
          | inl n ↦ rw (e, n) (bad-Clean log)
          | inr n ↦ rw (e, n) (calling-Clean _ _ _ log λ a. inl refl)
        ]
      ]

  pub handle_update_room-Clean :
      (req : Request Input) (log : Log) → Clean log (Rooms.handle_update_room cfg cl req log)
  unfolding Rooms.handle_update_room
  handle_update_room-Clean req log = with_user-Clean req _ log λ u.
      elim (Option-cases (read_json req.input.room)) [
        | inl e ↦ rw e (bad-Clean log)
        | inr (b, e) ↦ rw e (calling-Clean _ _ _ log λ a. inl refl)
      ]

  pub handle_delete_room-Clean :
      (req : Request Input) (log : Log) → Clean log (Rooms.handle_delete_room cfg cl req log)
  unfolding Rooms.handle_delete_room
  handle_delete_room-Clean req log =
      with_user-Clean req _ log λ u. calling-Clean _ _ _ log λ a. inl refl

  pub handle_join_room-Clean :
      (req : Request Input) (log : Log) → Clean log (Rooms.handle_join_room cfg cl req log)
  unfolding Rooms.handle_join_room
  handle_join_room-Clean req log =
      with_user-Clean req _ log λ u. calling-Clean _ _ _ log λ a. inl refl

  pub handle_leave_room-Clean :
      (req : Request Input) (log : Log) → Clean log (Rooms.handle_leave_room cfg cl req log)
  unfolding Rooms.handle_leave_room
  handle_leave_room-Clean req log =
      with_user-Clean req _ log λ u. calling-Clean _ _ _ log λ a. inl refl

  pub handle_list_room_members-Clean :
      (req : Request Input) (log : Log) → Clean log (Rooms.handle_list_room_members cfg cl req log)
  unfolding Rooms.handle_list_room_members
  handle_list_room_members-Clean req log =
      with_user-Clean req _ log
        λ u. calling-Clean _ _ _ log λ a. calling-Clean _ _ _ _ λ b. inl refl

  pub handle_create_user-Clean :
      (req : Request Input) (log : Log) → Clean log (Users.handle_create_user cfg cl parses req log)
  unfolding Users.handle_create_user
  handle_create_user-Clean req log = elim (Option-cases (read_json req.input.credentials)) [
    | inl e ↦ rw (e, Users.handle_create_user) (bad-Clean log)
    | inr (c, e) ↦ elim (Bool-cases (lacks c)) [
      | inl n ↦ rw (e, n, Users.handle_create_user) (bad-Clean log)
      | inr n ↦ rw (e, n, Users.handle_create_user) (calling-Clean _ _ _ log λ a. inl refl)
    ]
  ]

  pub handle_verify_user-Clean :
      (req : Request Input) (log : Log) → Clean log (Users.handle_verify_user cfg cl parses req log)
  unfolding Users.handle_verify_user
  handle_verify_user-Clean req log = elim (Option-cases (read_json req.input.credentials)) [
    | inl e ↦ rw (e, Users.handle_verify_user) (bad-Clean log)
    | inr (c, e) ↦ elim (Bool-cases (lacks c)) [
      | inl n ↦ rw (e, n, Users.handle_verify_user) (bad-Clean log)
      | inr n ↦ rw (e, n, Users.handle_verify_user) (calling-Clean _ _ _ log λ a. inl refl)
    ]
  ]

  pub handle_delete_user-Clean :
      (req : Request Input) (log : Log) → Clean log (Users.handle_delete_user cfg cl parses req log)
  unfolding Users.handle_delete_user
  handle_delete_user-Clean req log = with_user-Clean req _ log λ u.
      elim (Option-cases (read_json req.input.credentials)) [
        | inl e ↦ rw e (bad-Clean log)
        | inr (c, e) ↦ elim (Bool-cases (str_eq c.password "")) [
          | inl n ↦ rw (e, n) (bad-Clean log)
          | inr n ↦ rw (e, n) (calling-Clean _ _ _ log λ a. inl refl)
        ]
      ]

  pub handle_batch_get_users-Clean :
      (req : Request Input) (log : Log)
      → Clean log (Users.handle_batch_get_users cfg cl parses req log)
  unfolding Users.handle_batch_get_users
  handle_batch_get_users-Clean req log = elim (Bool-cases (batch_allowed parses req.input.ids)) [
    | inl e ↦ rw (e, Users.handle_batch_get_users) (calling-Clean _ _ _ log λ a. inl refl)
    | inr e ↦ rw (e, Users.handle_batch_get_users) (bad-Clean log)
  ]

  pub handle_refresh_token-Clean :
      (req : Request Input) (log : Log)
      → Clean log (Users.handle_refresh_token cfg cl parses req log)
  unfolding Users.handle_refresh_token
  handle_refresh_token-Clean req log = elim (Option-cases req.input.refresh_cookie) [
    | inl e ↦ rw (e, Users.handle_refresh_token) (inr ((401, refl, ground arith), refl))
    | inr (token, e) ↦ rw (e, Users.handle_refresh_token) (calling-Clean _ _ _ log λ a. inl refl)
  ]

  pub handle_revoke_token-Clean :
      (req : Request Input) (log : Log)
      → Clean log (Users.handle_revoke_token cfg cl parses req log)
  unfolding Users.handle_revoke_token
  handle_revoke_token-Clean req log = elim (Option-cases req.input.refresh_cookie) [
    | inl e ↦ rw (e, Users.handle_revoke_token) (inr ((401, refl, ground arith), refl))
    | inr (token, e) ↦ rw (e, Users.handle_revoke_token) (calling-Clean _ _ _ log λ a. inl refl)
  ]

module _ (cl : Clients) where
  pub history_page-Clean :
      (i : Input) (t : ℕ) (log : Log) → Clean log (Messages.history_page cl i t log)
  unfolding Messages.history_page
  history_page-Clean i t log = elim (Option-cases (page_limit i.limit)) [
    | inl e ↦ rw (e, Messages.history_page) (bad-Clean log)
    | inr (limit, e) ↦ rw (e, Messages.history_page) (calling-Clean _ _ _ log λ a. inl refl)
  ]

  pub sync_page-Clean : (i : Input) (t : ℕ) (log : Log) → Clean log (Messages.sync_page cl i t log)
  unfolding Messages.sync_page
  sync_page-Clean i t log = elim (Option-cases (parse_int 64 i.last_seq)) [
    | inl e ↦ rw (e, Messages.sync_page) (bad-Clean log)
    | inr (last, e) ↦ elim (Option-cases (page_limit i.limit)) [
      | inl l ↦ rw (e, l, Messages.sync_page) (bad-Clean log)
      | inr (limit, l) ↦ rw (e, l, Messages.sync_page) (calling-Clean _ _ _ log λ a. inl refl)
    ]
  ]

  pub handle_list_messages-Clean :
      (req : Request Input) (log : Log) → Clean log (Messages.handle_list_messages cl req log)
  unfolding Messages.handle_list_messages
  handle_list_messages-Clean req log = with_user-Clean req _ log λ u. calling-Clean _ _ _ log λ t.
      elim (Bool-cases (str_eq req.input.last_seq "")) [
        | inl e ↦ rw e (history_page-Clean req.input t _)
        | inr e ↦ rw e (sync_page-Clean req.input t _)
      ]
