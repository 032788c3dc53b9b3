-- ===== src/ApiGateway.antt =====
-- internal/apigateway: the REST gateway. Its clients of the user and chat services are parameters; the
-- log has what a handler did, the last first: calls, cookies, and requests in the background.
pub mod Numbers
pub mod Rooms
pub mod Routes
pub mod Failing
pub mod Reading
pub mod Messages
pub mod Users
use go_chat_msa.Common.{
  ℕ, ◌*◌, String, Bool, true, false, Option, none, some, List, [], ◌∷◌, if◌then◌else◌, str_eq,
}
use go_chat_msa.Grpc.{
  Code, Error, status, other, code, not_found, already_exists, invalid_argument, unauthenticated,
  permission_denied, failed_precondition, resource_exhausted, deadline_exceeded,
}
use go_chat_msa.User.Tx.{Result, ok, err}
use go_chat_msa.Shared.Http.{
  Response, Body, problem, status_bad_request, status_unauthorized, status_forbidden,
  status_not_found, status_conflict, status_internal_server_error, status_service_unavailable,
  status_gateway_timeout,
}
use go_chat_msa.Shared.Middleware.{Request, get_user_id, get_username}
use go_chat_msa.Chat.Repository.{Message}

pub record User : Type 0 where
  pub id : String
  pub username : String

pub record Room : Type 0 where
  pub id : String
  pub name : String
  pub manager_id : String
  pub capacity : ℕ
  pub member_count : ℕ

-- A room with the time of joining, and a member of a room; a time is the text that
-- Format(time.RFC3339) gives.
pub record JoinedRoom : Type 0 where
  pub room : Room
  pub joined_at : String

pub record RoomMember : Type 0 where
  pub user_id : String
  pub username : String
  pub joined_at : String

pub record Session : Type 0 where
  pub user_id : String
  pub access_token : String
  pub refresh_token : String

pub record RoomRequest : Type 0 where
  pub name : String
  pub capacity : ℕ

pub record Credentials : Type 0 where
  pub username : String
  pub password : String

-- What the handlers read: the path, the query, the cookie refresh_token and the body, which a handler
-- decodes as a room or as credentials (DELETE /me has a password only).
pub record Input : Type 0 where
  pub room_id : String
  pub q : String
  pub limit : String
  pub offset : String
  pub last_seq : String
  pub ids : List String
  pub refresh_cookie : Option String
  pub room : Body RoomRequest
  pub credentials : Body Credentials

-- The requests to the two services.
pub data Call : Type 0 where
  create_user verify_user : String → String → Call
  delete_user : String → String → Call
  batch_get_users : List String → Call
  refresh_token revoke_token : String → Call
  list_joined_rooms : String → Call
  search_rooms : String → ℕ → ℕ → Call
  create_room : String → String → ℕ → Call
  update_room : String → String → ℕ → String → Call
  delete_room join_room leave_room : String → String → Call
  get_member_joined_at verify_room_member : String → String → Call
  list_room_members : String → Call
  sync_messages : String → ℕ → ℕ → ℕ → Call
  list_messages : String → ℕ → ℕ → Call

-- http.Cookie: what the handlers choose of it. MaxAge is `none` for -1, which deletes it.
pub record Cookie : Type 0 where
  pub value : String
  pub http_only : Bool
  pub secure : Bool
  pub same_site_strict : Bool
  pub path : String
  pub max_age : Option ℕ

pub data Effect : Type 0 where
  called : Call → Effect
  set_cookie : Cookie → Effect
  broadcast : String → String → String → Effect
  close_room : String → Effect

abbrev pub Log : Type 0
Log = List Effect

pub record Clients : Type 0 where
  pub create_user : String → String → Result String
  pub verify_user : String → String → Result Session
  pub delete_user : String → String → Result (List String)
  pub batch_get_users : List String → Result (List User)
  pub refresh_token : String → Result (String × String)
  pub revoke_token : String → Result (Unit {0})
  pub list_joined_rooms : String → Result (List JoinedRoom)
  pub search_rooms : String → ℕ → ℕ → Result (List Room × ℕ)
  pub create_room : String → String → ℕ → Result String
  pub update_room : String → String → ℕ → String → Result (Unit {0})
  pub delete_room : String → String → Result (Unit {0})
  pub join_room : String → String → Result (Unit {0})
  pub leave_room : String → String → Result (Unit {0})
  pub get_member_joined_at : String → String → Result ℕ
  pub verify_room_member : String → String → Result (Unit {0})
  pub list_room_members : String → Result (List RoomMember)
  pub sync_messages : String → ℕ → ℕ → ℕ → Result (List Message)
  pub list_messages : String → ℕ → ℕ → Result (List Message)
  -- the seconds of a time of the chat service
  pub seconds : ℕ → ℕ

pub record Config : Type 0 where
  pub jwt_secret : String
  pub prod : Bool
  pub refresh_token_expiration_days : ℕ
  pub search_default_limit : ℕ
  pub search_max_limit : ℕ

pub data Payload : Type 0 where
  user_created room_created : String → Payload
  signed_in : String → String → Payload
  refreshed : String → Payload
  users : List User → Payload
  joined_rooms : List JoinedRoom → Payload
  found_rooms : List Room → ℕ → Payload
  members : List RoomMember → Payload
  messages : List Message → Payload

abbrev pub Reply : Type 0
Reply = Log × Response Payload

unfoldable pub grpc_status : Code → ℕ
grpc_status not_found = status_not_found
grpc_status already_exists = status_conflict
grpc_status invalid_argument = status_bad_request
grpc_status unauthenticated = status_unauthorized
grpc_status permission_denied = status_forbidden
grpc_status failed_precondition = status_conflict
grpc_status resource_exhausted = status_service_unavailable
grpc_status deadline_exceeded = status_gateway_timeout
grpc_status _ = status_internal_server_error

unfoldable pub write_problem_from_grpc : Error → Response Payload
write_problem_from_grpc (status c) = problem (grpc_status c)
write_problem_from_grpc other = problem status_internal_server_error

-- A call whose error ends the handler.
unfoldable pub calling : {A : Type 0} → Call → Result A → (A → Log → Reply) → Log → Reply
calling c (err e) k log = (called c ∷ log, write_problem_from_grpc e)
calling c (ok a) k log = k a (called c ∷ log)

-- `userID, ok := GetUserID(ctx)`, with the response without one.
unfoldable pub with_user : {R : Type 0} → Request R → (String → Log → Reply) → Log → Reply
with_user req k log = elim (get_user_id req) [
  | none ↦ (log, problem status_unauthorized)
  | some user_id ↦ k user_id log
]

-- getUsername.
unfoldable pub username_of : {R : Type 0} → Request R → String
username_of req =
    let id : String = elim (get_user_id req) [ none ↦ "Unknown" | some user_id ↦ user_id ] in
    elim (get_username req) [
      | none ↦ id
      | some username ↦ if str_eq username "" then id else username
    ]

-- setRefreshTokenCookie and clearRefreshTokenCookie.
unfoldable pub refresh_token_cookie : Config → String → Cookie
refresh_token_cookie cfg token = record {
  value = token;
  http_only = true;
  secure = cfg.prod;
  same_site_strict = true;
  path = "/auth";
  max_age = some (cfg.refresh_token_expiration_days * 86400);
}

unfoldable pub cleared_refresh_token_cookie : Config → Cookie
cleared_refresh_token_cookie cfg = record (refresh_token_cookie cfg "") { max_age = none }
