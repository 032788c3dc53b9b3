-- ===== src/Websocket/Front.antt =====
-- internal/websocket/handler_ws.go and handler_internal.go: the HTTP requests to a websocket server.
-- The upgrader, the health checks and the calls of other services are parameters; errors are only
-- logged where the code only logs them.
pub mod Internal
pub mod Served
use Prim.Native.String.{◌++◌ as text_append}
use go_chat_msa.Common.{
  ℕ, ◌*◌, String, Bool, true, false, not, ◌&&◌, ◌||◌, Option, none, some, is_some, List, [], ◌∷◌,
  ◌++◌, if◌then◌else◌, str_eq, leb, ◌==◌,
}
use go_chat_msa.Grpc.{Code, Error, not_found, code}
use go_chat_msa.User.Tx.{Result, ok, err}
use go_chat_msa.Shared.Http.{
  Response, problem, json, bare, switching, Body, read_json, status_ok, status_no_content,
  status_bad_request, status_unauthorized, status_forbidden, status_misdirected_request,
  status_internal_server_error, status_service_unavailable,
}
use go_chat_msa.WsGateway.Ring
use go_chat_msa.WsGateway.Ring.{Consistent}
use go_chat_msa.Websocket.Lease
use go_chat_msa.Websocket.Lease.{Store, busy}
use go_chat_msa.Websocket.Message.{Message, new_system_message}
use go_chat_msa.Websocket.Hub.{Lru}
use go_chat_msa.Websocket.Manager.{
  Front, Outside, Opened, opened, refused, Refusal, handoff_in_progress, lease_error,
  sequence_unavailable, get_or_create, on_force_close,
}
use go_chat_msa.Websocket.Manager.Registration.{
  Registration, Registering, succeeds, Call, commits, cancels, Effects, call_all,
}

-- How a call of the manager ends: its loop takes the request and answers; the request's context is
-- over after that, or before; or the manager is stopped.
pub data Sending : Type 0 where
  answered abandoned context_done manager_stopped : Sending

-- `PrepareRegister`: a registration, a refusal of the manager, or another error.
pub data Prepared : Type 0 where
  prepared : Registration → Prepared
  not_opened : Refusal → Prepared
  gave_up : Prepared

abbrev pub registration_of : String → Opened → Prepared
registration_of room_id (opened hub created) =
    prepared (record { room_id = room_id; hub = hub; created = created; done = false })
registration_of room_id (refused r) = not_opened r

-- The errors that ask the client to try again.
unfoldable pub retryable : Refusal → Bool
retryable handoff_in_progress = true
retryable (lease_error busy) = true
retryable (lease_error _) = false
retryable (sequence_unavailable x) = true

-- A request to open a connection, with what the code outside the handler does for it.
pub record Upgrade : Type 0 where
  pub user_id : String
  pub room_id : String
  pub sending : Sending
  pub outside : Outside
  -- the status that the upgrader answers when it fails, and how the hub's `register` ends
  pub upgrade_error : Option ℕ
  pub registering : Registering

-- What a request leads to: the response, whether Retry-After is set, and what became of the
-- registration, if there was one.
pub record Outcome : Type 0 where
  pub response : Response (List String)
  pub retry_after : Bool
  pub effects : Option Effects

abbrev pub refuse : ℕ → Outcome
refuse status = record { response = problem status; retry_after = false; effects = none }

-- The calls of the registration: Cancel without a connection, or Commit and Cancel if it fails.
unfoldable pub registration_calls : Upgrade → List Call
registration_calls u =
    if is_some u.upgrade_error
    then cancels ∷ []
    else if succeeds u.registering
    then commits u.registering ∷ []
    else commits u.registering ∷ cancels ∷ []

abbrev upgrade_response : Option ℕ → Response (List String)
upgrade_response none = switching
upgrade_response (some status) = bare status

unfoldable pub upgrade_registered : Upgrade → Registration → Outcome
upgrade_registered u r = record {
  response = upgrade_response u.upgrade_error;
  retry_after = false;
  effects = some (
      call_all (registration_calls u) (record { registration = r; registered = 0; cancelled = 0 }));
}

unfoldable pub after_prepare : Upgrade → Prepared → Outcome
after_prepare u (prepared r) = upgrade_registered u r
after_prepare u (not_opened r) =
    if retryable r
    then record {
      response = problem status_service_unavailable;
      retry_after = true;
      effects = none;
    }
    else refuse status_internal_server_error
after_prepare u gave_up = refuse status_internal_server_error

-- The status for a failed VerifyRoomMember.
abbrev pub verify_status : Code → ℕ
verify_status not_found = status_forbidden
verify_status _ = status_internal_server_error

module _ {C : Type 0} (lru : Lru C) (s : Store) (max_length : ℕ) (has_store : Bool) where
  unfoldable pub prepare_register : Sending → Outside → String → Front C → Front C × Prepared
  prepare_register answered o room_id f =
      let (f', x) = get_or_create lru s max_length has_store o room_id f in
      (f', registration_of room_id x)
  prepare_register abandoned o room_id f =
      ((get_or_create lru s max_length has_store o room_id f).0, gave_up)
  prepare_register context_done o room_id f = (f, gave_up)
  prepare_register manager_stopped o room_id f = (f, gave_up)

  module _ (lib : Consistent) (verify_room_member : String → String → Result (Unit {0})) where
    -- serveWebSocket once the user is known to be a member.
    unfoldable pub serve_member : String → lib.Carrier → Upgrade → Front C → Front C × Outcome
    serve_member advertised_addr ring u f =
        if not (str_eq (Ring.locate lib u.room_id ring) advertised_addr)
        then (f, refuse status_misdirected_request)
        else let (f', p) = prepare_register u.sending u.outside u.room_id f in
          (f', after_prepare u p)

    unfoldable pub serve_web_socket : String → lib.Carrier → Upgrade → Front C → Front C × Outcome
    serve_web_socket advertised_addr ring u f =
        if str_eq u.user_id ""
        then (f, refuse status_unauthorized)
        else if str_eq u.room_id ""
        then (f, refuse status_bad_request)
        else elim (verify_room_member u.room_id u.user_id) [
          | err e ↦ (f, refuse (verify_status (code e)))
          | ok _ ↦ serve_member advertised_addr ring u f
        ]

  -- `ForceCloseRoom`: whether the call succeeds.
  unfoldable pub handle_force_close_room :
      Sending → ℕ → String → Front C → Front C × Response (List String)
  handle_force_close_room sending now room_id f =
      if str_eq room_id "" then (f, problem status_bad_request) else elim sending [
        | answered ↦ (
          (on_force_close lru s max_length has_store now room_id "force_close" f).0,
          bare status_no_content,
        )
        | abandoned ↦ (
          (on_force_close lru s max_length has_store now room_id "force_close" f).0,
          problem status_internal_server_error,
        )
        | context_done ↦ (f, problem status_internal_server_error)
        | manager_stopped ↦ (f, problem status_internal_server_error)
      ]
