-- ===== src/Shared/Http.antt =====
-- internal/shared/httpio/httpio.go and the status codes of net/http. The detail of a problem, which
-- is for people, is left out, and so are errors of writing to the client.
use go_chat_msa.Common.{ℕ, Bool, true, false, Option, none, some, ltb}

abbrev pub status_ok : ℕ
status_ok = 200

abbrev pub status_created : ℕ
status_created = 201

abbrev pub status_no_content : ℕ
status_no_content = 204

abbrev pub status_bad_request : ℕ
status_bad_request = 400

abbrev pub status_unauthorized : ℕ
status_unauthorized = 401

abbrev pub status_forbidden : ℕ
status_forbidden = 403

abbrev pub status_not_found : ℕ
status_not_found = 404

abbrev pub status_conflict : ℕ
status_conflict = 409

abbrev pub status_misdirected_request : ℕ
status_misdirected_request = 421

abbrev pub status_too_many_requests : ℕ
status_too_many_requests = 429

abbrev pub status_internal_server_error : ℕ
status_internal_server_error = 500

abbrev pub status_bad_gateway : ℕ
status_bad_gateway = 502

abbrev pub status_service_unavailable : ℕ
status_service_unavailable = 503

abbrev pub status_gateway_timeout : ℕ
status_gateway_timeout = 504

-- What a handler writes: WriteProblem, WriteJSON, WriteHeader alone, or, behind a reverse proxy, what
-- the server answered. `switching` is a connection taken over by the websocket upgrader.
pub data Response (A : Type 0) : Type 0 where
  problem : ℕ → Response A
  json : ℕ → A → Response A
  bare relayed : ℕ → Response A
  switching : Response A

-- A request body for the decoder: text that is no JSON of the expected fields, too large or empty,
-- or a value, with whether the body ends after it.
pub data Body (A : Type 0) : Type 0 where
  undecodable : Body A
  decoded : A → Bool → Body A

unfoldable pub read_json : {A : Type 0} → Body A → Option A
read_json undecodable = none
read_json (decoded a true) = some a
read_json (decoded a false) = none

-- A response that reports success.
abbrev pub accepted : {A : Type 0} → Response A → Bool
accepted (problem s) = false
accepted (json s a) = ltb s 400
accepted (bare s) = ltb s 400
accepted (relayed s) = ltb s 400
accepted switching = true
