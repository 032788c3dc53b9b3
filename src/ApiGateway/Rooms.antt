-- ===== src/ApiGateway/Rooms.antt =====
-- internal/apigateway/handler_room.go: rooms and their members. A room in the path is its text.
use go_chat_msa.Common.{ℕ, String, ◌||◌, Option, none, some, ◌∷◌, if◌then◌else◌, str_eq, slt_32}
use go_chat_msa.Shared.Http.{
  problem, json, bare, read_json, status_ok, status_created, status_no_content, status_bad_request,
}
use go_chat_msa.Shared.Middleware.{Handler}
use go_chat_msa.ApiGateway.{
  RoomRequest, Input, Call, broadcast, close_room, Log, Clients, Config, Payload, Reply, calling,
  with_user, username_of,
}
use go_chat_msa.ApiGateway.Numbers.{Signed, parse_int, not_positive, below_zero}

abbrev pub done : Log → Reply
done log = (log, bare status_no_content)

abbrev pub bad : Log → Reply
bad log = (log, problem status_bad_request)

abbrev checked_limit : Config → Option Signed → Option ℕ
checked_limit cfg none = none
checked_limit cfg (some l) =
    if not_positive l || slt_32 cfg.search_max_limit l.magnitude then none else some l.magnitude

abbrev checked_offset : Option Signed → Option ℕ
checked_offset none = none
checked_offset (some o) = if below_zero o then none else some o.magnitude

-- The limit and the offset of a search, `none` for a bad request.
unfoldable pub search_limit : Config → String → Option ℕ
search_limit cfg limit =
    if str_eq limit ""
    then some cfg.search_default_limit
    else checked_limit cfg (parse_int 32 limit)

unfoldable pub search_offset : String → Option ℕ
search_offset offset = if str_eq offset "" then some 0 else checked_offset (parse_int 32 offset)

module _ (cfg : Config) (cl : Clients) where
  unfoldable pub handle_list_joined_rooms : Handler Input Log Payload
  handle_list_joined_rooms req = with_user req λ user_id.
      calling (Call.list_joined_rooms user_id) (cl.list_joined_rooms user_id)
        (λ rooms log. (log, json status_ok (Payload.joined_rooms rooms)))

  unfoldable pub handle_search_rooms : Handler Input Log Payload
  handle_search_rooms req log = elim (search_limit cfg req.input.limit) [
    | none ↦ bad log
    | some limit ↦ elim (search_offset req.input.offset) [
      | none ↦ bad log
      | some offset ↦
          calling (Call.search_rooms req.input.q limit offset)
            (cl.search_rooms req.input.q limit offset)
            (λ (rooms, total) log. (log, json status_ok (Payload.found_rooms rooms total))) log
    ]
  ]

  abbrev create_named : String → RoomRequest → Log → Reply
  create_named user_id body log =
      if str_eq body.name ""
      then bad log
      else calling (Call.create_room body.name user_id body.capacity)
          (cl.create_room body.name user_id body.capacity)
          (λ id log. (log, json status_created (Payload.room_created id))) log

  unfoldable pub handle_create_room : Handler Input Log Payload
  handle_create_room req = with_user req λ user_id log. elim (read_json req.input.room) [
    | none ↦ bad log
    | some body ↦ create_named user_id body log
  ]

  unfoldable pub handle_update_room : Handler Input Log Payload
  handle_update_room req = with_user req λ user_id log. elim (read_json req.input.room) [
    | none ↦ bad log
    | some body ↦
        calling (Call.update_room req.input.room_id body.name body.capacity user_id)
          (cl.update_room req.input.room_id body.name body.capacity user_id) (λ _ log. done log) log
  ]

  unfoldable pub handle_delete_room : Handler Input Log Payload
  handle_delete_room req = with_user req λ user_id.
      calling (Call.delete_room req.input.room_id user_id)
        (cl.delete_room req.input.room_id user_id)
        (λ _ log. done (close_room req.input.room_id ∷ log))

  unfoldable pub handle_join_room : Handler Input Log Payload
  handle_join_room req = with_user req λ user_id.
      calling (Call.join_room req.input.room_id user_id) (cl.join_room req.input.room_id user_id)
        (λ _ log. done (broadcast req.input.room_id (username_of req) "join" ∷ log))

  unfoldable pub handle_leave_room : Handler Input Log Payload
  handle_leave_room req = with_user req λ user_id.
      calling (Call.leave_room req.input.room_id user_id) (cl.leave_room req.input.room_id user_id)
        (λ _ log. done (broadcast req.input.room_id (username_of req) "leave" ∷ log))

  unfoldable pub handle_list_room_members : Handler Input Log Payload
  handle_list_room_members req = with_user req λ user_id.
      calling (Call.verify_room_member req.input.room_id user_id)
        (cl.verify_room_member req.input.room_id user_id)
        (λ _.
          calling (Call.list_room_members req.input.room_id)
            (cl.list_room_members req.input.room_id)
            (λ members log. (log, json status_ok (Payload.members members))))
