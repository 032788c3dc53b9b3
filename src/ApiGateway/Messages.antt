-- ===== src/ApiGateway/Messages.antt =====
-- internal/apigateway/handler_room.go: the messages of a room, for its members.
use go_chat_msa.Common.{ℕ, String, Option, none, some, List, [], ◌∷◌, if◌then◌else◌, str_eq}
use go_chat_msa.Chat.Repository.{Message}
use go_chat_msa.Shared.Http.{json, status_ok}
use go_chat_msa.Shared.Middleware.{Handler}
use go_chat_msa.ApiGateway.{Input, Call, Log, Clients, Payload, Reply, calling, with_user}
use go_chat_msa.ApiGateway.Numbers.{Signed, parse_int, not_positive, pattern_64}
use go_chat_msa.ApiGateway.Rooms.{bad}

abbrev page_size : Option Signed → Option ℕ
page_size none = none
page_size (some l) = if not_positive l then none else some l.magnitude

-- The limit for the chat service, 0 without one, `none` for a bad request.
unfoldable pub page_limit : String → Option ℕ
page_limit limit = if str_eq limit "" then some 0 else page_size (parse_int 32 limit)

unfoldable pub messages_from_proto : (ℕ → ℕ) → List Message → List Message
messages_from_proto seconds [] = []
messages_from_proto seconds (m ∷ ms) =
    record m { created_at = seconds m.created_at } ∷ messages_from_proto seconds ms

module _ (cl : Clients) where
  abbrev pub show_messages : List Message → Log → Reply
  show_messages ms log =
      (log, json status_ok (Payload.messages (messages_from_proto cl.seconds ms)))

  -- The branch with last_seq.
  unfoldable pub sync_page : Input → ℕ → Log → Reply
  sync_page p joined_at log = elim (parse_int 64 p.last_seq) [
    | none ↦ bad log
    | some last ↦ elim (page_limit p.limit) [
      | none ↦ bad log
      | some limit ↦
          calling (Call.sync_messages p.room_id (pattern_64 last) limit joined_at)
            (cl.sync_messages p.room_id (pattern_64 last) limit joined_at) show_messages log
    ]
  ]

  unfoldable pub history_page : Input → ℕ → Log → Reply
  history_page p joined_at log = elim (page_limit p.limit) [
    | none ↦ bad log
    | some limit ↦
        calling (Call.list_messages p.room_id limit joined_at)
          (cl.list_messages p.room_id limit joined_at) show_messages log
  ]

  unfoldable pub handle_list_messages : Handler Input Log Payload
  handle_list_messages req = with_user req λ user_id.
      let p = req.input in
      calling (Call.get_member_joined_at p.room_id user_id)
        (cl.get_member_joined_at p.room_id user_id)
        (λ joined_at.
          if str_eq p.last_seq "" then history_page p joined_at else sync_page p joined_at)
