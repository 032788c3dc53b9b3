-- ===== src/ApiGateway/Routes.antt =====
-- internal/apigateway/router.go: the routes with their middlewares, and readiness.
use go_chat_msa.Common.{
  String, Bool, true, false, Option, none, some, List, [], ◌∷◌, ◌++◌, if◌then◌else◌,
}
use go_chat_msa.Shared.Http.{Response, problem, json, status_ok, status_service_unavailable}
use go_chat_msa.Shared.Middleware.{
  Libraries, Handler, chain_middleware, bearer_auth, rate_limit, ip_key, user_key,
}
use go_chat_msa.ApiGateway.{Input, Log, Clients, Config, Payload}
use go_chat_msa.ApiGateway.Rooms
use go_chat_msa.ApiGateway.Users
use go_chat_msa.ApiGateway.Messages

-- The patterns of registerRoutes with a handler that calls the services.
pub data Route : Type 0 where
  post_users post_token post_refresh delete_token : Route
  delete_me get_users : Route
  get_my_rooms get_rooms post_room patch_room delete_room : Route
  put_member delete_member get_members get_messages : Route

-- Whether a route has publicMws.
abbrev pub is_public : Route → Bool
is_public post_users = true
is_public post_token = true
is_public post_refresh = true
is_public delete_token = true
is_public _ = false

module _ (cfg : Config) (cl : Clients) (parses : String → Bool) where
  unfoldable pub handler : Route → Handler Input Log Payload
  handler post_users = Users.handle_create_user cfg cl parses
  handler post_token = Users.handle_verify_user cfg cl parses
  handler post_refresh = Users.handle_refresh_token cfg cl parses
  handler delete_token = Users.handle_revoke_token cfg cl parses
  handler delete_me = Users.handle_delete_user cfg cl parses
  handler get_users = Users.handle_batch_get_users cfg cl parses
  handler get_my_rooms = Rooms.handle_list_joined_rooms cfg cl
  handler get_rooms = Rooms.handle_search_rooms cfg cl
  handler post_room = Rooms.handle_create_room cfg cl
  handler patch_room = Rooms.handle_update_room cfg cl
  handler delete_room = Rooms.handle_delete_room cfg cl
  handler put_member = Rooms.handle_join_room cfg cl
  handler delete_member = Rooms.handle_leave_room cfg cl
  handler get_members = Rooms.handle_list_room_members cfg cl
  handler get_messages = Messages.handle_list_messages cl

  -- A request to a route, with the limiter that stands before it.
  unfoldable pub serve : Libraries → Route → Handler Input Log Payload
  serve libs r = chain_middleware (handler r) (
      if is_public r
      then rate_limit libs (ip_key libs) ∷ []
      else bearer_auth libs cfg.jwt_secret ∷ rate_limit libs user_key ∷ [])

abbrev failed_unless : Bool → String → List String
failed_unless true failure = []
failed_unless false failure = failure ∷ []

abbrev serving : Option Bool → Bool
serving none = false
serving (some b) = b

-- readinessFailures, for what the ping of Redis and the health checks give (nothing without a
-- client), and checkGRPCHealth.
unfoldable pub readiness_failures : Option Bool → Option Bool → Option Bool → List String
readiness_failures redis user_health chat_health =
    (elim redis [
      | none ↦ "redis client not configured" ∷ []
      | some pinged ↦ failed_unless pinged "redis ping failed"
    ])
    ++ failed_unless (serving user_health) "user-service health failed"
    ++ failed_unless (serving chat_health) "chat-service health failed"

unfoldable pub handle_ready : Option Bool → Option Bool → Option Bool → Response (List String)
handle_ready redis user_health chat_health =
    elim (readiness_failures redis user_health chat_health) [
      | [] ↦ json status_ok []
      | f ∷ fs ↦ problem status_service_unavailable
    ]
