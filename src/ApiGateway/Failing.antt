-- ===== src/ApiGateway/Failing.antt =====
-- internal/apigateway: what a request that is answered with a problem leaves.
pub mod Handlers
pub mod Served
use go_chat_msa.Common.{
  ℕ, ◌≡◌, refl, ◌∙◌, ap, ◌⊎◌, inl, inr, ◌≤◌, String, Bool, true, false, Option, none, some, List,
  [], ◌∷◌, if◌then◌else◌, str_eq, Bool-cases, Option-cases, arith,
}
use go_chat_msa.Grpc.{Code, Error, status, other}
use go_chat_msa.User.Tx.{Result, ok, err}
use go_chat_msa.Shared.Http.{Response, problem, json, bare, accepted, read_json}
use go_chat_msa.Shared.Middleware.{
  Libraries, Request, Handler, chain_middleware, bearer_auth, rate_limit, ip_key, user_key,
  get_user_id,
}
use go_chat_msa.Shared.Middleware.Admission.{Turned, authenticated, rate_limit-cases}
use go_chat_msa.ApiGateway.{
  Input, Call, Effect, called, set_cookie, broadcast, close_room, Log, Clients, Config, Payload,
  Reply, calling, with_user, grpc_status, write_problem_from_grpc,
}
use go_chat_msa.ApiGateway.Numbers.{parse_int}
use go_chat_msa.ApiGateway.Rooms
use go_chat_msa.ApiGateway.Rooms.{search_limit, search_offset}
use go_chat_msa.ApiGateway.Users
use go_chat_msa.ApiGateway.Users.{lacks, batch_allowed}
use go_chat_msa.ApiGateway.Messages
use go_chat_msa.ApiGateway.Messages.{page_limit}
use go_chat_msa.ApiGateway.Routes.{Route, is_public, handler, serve}

-- The log less the calls of the services: cookies, messages to rooms, and rooms to close.
unfoldable pub visible : Log → Log
visible [] = []
visible (called c ∷ log) = visible log
visible (set_cookie c ∷ log) = set_cookie c ∷ visible log
visible (broadcast r u e ∷ log) = broadcast r u e ∷ visible log
visible (close_room r ∷ log) = close_room r ∷ visible log

-- A problem with a status of an error.
abbrev pub Problem : Response Payload → Type 0
Problem x = (s : ℕ) × (x ≡ problem s) × (400 ≤ s)

-- Success, or a problem and nothing visible.
abbrev pub Clean : Log → Reply → Type 0
Clean log (log', x) = (accepted x ≡ true) ⊎ (Problem x × (visible log' ≡ visible log))

grpc_status_error : (c : Code) → 400 ≤ grpc_status c
unfolding grpc_status
grpc_status_error Code.ok_code = ground arith
grpc_status_error Code.canceled = ground arith
grpc_status_error Code.unknown = ground arith
grpc_status_error Code.invalid_argument = ground arith
grpc_status_error Code.deadline_exceeded = ground arith
grpc_status_error Code.not_found = ground arith
grpc_status_error Code.already_exists = ground arith
grpc_status_error Code.permission_denied = ground arith
grpc_status_error Code.resource_exhausted = ground arith
grpc_status_error Code.failed_precondition = ground arith
grpc_status_error Code.aborted = ground arith
grpc_status_error Code.out_of_range = ground arith
grpc_status_error Code.unimplemented = ground arith
grpc_status_error Code.internal = ground arith
grpc_status_error Code.unavailable = ground arith
grpc_status_error Code.data_loss = ground arith
grpc_status_error Code.unauthenticated = ground arith

error_refused : (e : Error) → Problem (write_problem_from_grpc e)
unfolding write_problem_from_grpc
error_refused (status c) = (grpc_status c, refl, grpc_status_error c)
error_refused other = (500, refl, ground arith)

pub calling-Clean :
    {A : Type 0} (c : Call) (r : Result A) (k : A → Log → Reply) (log : Log)
    → ((a : A) → Clean (called c ∷ log) (k a (called c ∷ log)))
    → Clean log (calling c r k log)
unfolding visible calling
calling-Clean c (err e) k log h = inr (error_refused e, refl)
calling-Clean c (ok a) k log h = h a

pub with_user-Clean :
    (req : Request Input) (k : String → Log → Reply) (log : Log)
    → ((u : String) → Clean log (k u log))
    → Clean log (with_user req k log)
unfolding with_user
with_user-Clean req k log h = elim (Option-cases (get_user_id req)) [
  | inl e ↦ rw (e, with_user) (inr ((401, refl, ground arith), refl))
  | inr (u, e) ↦ rw (e, with_user) (h u)
]

pub bad-Clean : (log : Log) → Clean log (Rooms.bad log)
bad-Clean log = inr ((400, refl, ground arith), refl)
