-- ===== src/ApiGateway/Reading/Joined.antt =====
-- internal/apigateway/handler_room.go with internal/user/service.go and internal/chat/service.go: the
-- messages that a user reads of a room through the gateway.
use go_chat_msa.Common.{ℕ, ◌≡◌, String, some, List}
use go_chat_msa.User.Db.{Db}
use go_chat_msa.User.Rooms.{Env}
use go_chat_msa.Chat.Repository.{Message}
use go_chat_msa.Chat.Service
use go_chat_msa.Chat.Service.{page_limit}
use go_chat_msa.Shared.Middleware.{Request, get_user_id}
use go_chat_msa.ApiGateway.{Input, Clients}
use go_chat_msa.ApiGateway.Messages
use go_chat_msa.ApiGateway.Messages.{messages_from_proto}
use go_chat_msa.ApiGateway.Reading.Services.{RoomSince, JoinedAt}

-- The messages of a response: of the room, and not of an earlier millisecond than the user's
-- membership of it.
abbrev pub SinceJoining : Clients → Env → Db → Request Input → List Message → Type 0
SinceJoining cl e db req items =
    (user_id : String) × (t : ℕ) × (ms : List Message) × (get_user_id req ≡ some user_id)
    × JoinedAt e req.input.room_id user_id db t
    × (items ≡ messages_from_proto cl.seconds ms)
    × RoomSince req.input.room_id t ms
