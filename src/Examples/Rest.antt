-- ===== src/Examples/Rest.antt =====
-- Requests of one user to the REST gateway, with one message stored.
use go_chat_msa.Common.{
  String, ◌==◌, ℕ, ◌≡◌, ◌⊎◌, refl, Bool, true, false, Option, none, some, [], ◌∷◌, leb, str_eq,
  if◌then◌else◌,
}
use go_chat_msa.Grpc.{not_found, status}
use go_chat_msa.User.Tx.{Result, ok, err}
use go_chat_msa.Chat.Repository.{bson_date, Message, Query, Collection, inserted, find_error}
use go_chat_msa.Chat.Service
use go_chat_msa.Shared.Http.{undecodable, accepted, status_unauthorized, status_too_many_requests}
use go_chat_msa.Shared.Middleware.{UserClaims, Request, verify_jwt, extract_token, limiter_allows}
use go_chat_msa.Shared.Middleware.Admission.{Turned}
use go_chat_msa.ApiGateway.{Input, Clients, Config}
use go_chat_msa.ApiGateway.Rooms
use go_chat_msa.ApiGateway.Messages
use go_chat_msa.ApiGateway.Routes.{Route, handler, serve}
use go_chat_msa.ApiGateway.Failing.{Problem, visible}
use go_chat_msa.ApiGateway.Failing.Served.{guarded, failure_leaves_nothing}
use go_chat_msa.ApiGateway.Reading.Services.{Since}
use go_chat_msa.ApiGateway.Reading.Members.{
  OfRoom, shown_answer, Listed, ByMember, members_for_members,
}
use go_chat_msa.User.Rooms.Joining
use go_chat_msa.User.Rooms.Listing
use go_chat_msa.Examples.Gateways.{libs, env, db, claims}

abbrev refused : {A : Type 0} → Result A
refused = err (status not_found)

abbrev clients : Clients
clients = record {
  create_user = λ n p. ok "u9";
  verify_user = λ n p. refused;
  delete_user = λ u p. refused;
  batch_get_users = λ ids. ok [];
  refresh_token = λ t. refused;
  revoke_token = λ t. ok tt;
  list_joined_rooms = λ u. ok [];
  search_rooms = λ q l o. ok ([], 0);
  create_room = λ n u c. ok "r2";
  update_room = λ r n c u. refused;
  delete_room = λ r u. ok tt;
  join_room = λ r u. refused;
  leave_room = λ r u. ok tt;
  get_member_joined_at = λ r u. refused;
  verify_room_member = λ r u. refused;
  list_room_members = λ r. ok [];
  sync_messages = λ r s l t. refused;
  list_messages = λ r l t. refused;
  seconds = λ t. t;
}

abbrev config : Config
config = record {
  jwt_secret = "k";
  prod = true;
  refresh_token_expiration_days = 7;
  search_default_limit = 20;
  search_max_limit = 100;
}

abbrev input : Input
input = record {
  room_id = "r";
  q = "";
  limit = "";
  offset = "";
  last_seq = "";
  ids = [];
  refresh_cookie = some "t";
  room = undecodable;
  credentials = undecodable;
}

abbrev request : Request Input
request = record {
  authorization = "Bearer t";
  internal_secret = "";
  forwarded_for = "";
  remote_addr = "10.0.0.9";
  claims = none;
  input = input;
}

guarded_example :
    let served = serve config clients (λ id. true) libs Route.delete_member request [] in
    Turned status_unauthorized [] served
    ⊎ ((c : UserClaims) × (verify_jwt libs (extract_token "Bearer t") "k" ≡ some c)
        × (((limiter_allows libs c.subject ≡ some false)
              × Turned status_too_many_requests [] served)
            ⊎ (served
                ≡ handler config clients
                    (λ id. true)
                    Route.delete_member
                    (record request { claims = some c })
                    [])))
guarded_example = guarded config clients (λ id. true) libs Route.delete_member request [] refl

failure_leaves_nothing_example :
    let (log, x) = serve config clients (λ id. true) libs Route.put_member request [] in
    (accepted x ≡ true) ⊎ (Problem x × (visible log ≡ []))
unfolding visible
failure_leaves_nothing_example =
    failure_leaves_nothing config clients (λ id. true) libs Route.put_member request []

abbrev message : Message
message = record {
  id = "m";
  room_id = "r";
  sender_id = "u1";
  content = "hi";
  client_msg_id = "";
  type = "chat";
  sequence_number = 1;
  created_at = 5_000_000;
}

abbrev passes : Option ℕ → Bool
passes none = true
passes (some t) = leb t 5

abbrev stored : Collection
stored = record {
  insert_many = λ ms. inserted;
  find =
      λ q. some (if str_eq "r" q.room_id then if passes q.since then message ∷ [] else [] else []);
  find_one = λ r. find_error;
}

abbrev Match : Query → Message → Type 0
Match q m = (m.room_id ≡ q.room_id) × Since q.since (bson_date m.created_at)

abbrev chat : Service.Env
chat = record {
  config = record {
    max_length = 2000;
    history_default = 50;
    history_max = 100;
    sync_default = 50;
    sync_max = 100;
  };
  parse = λ s. none;
  new_v7 = λ n. none;
  now = λ n. 9;
}

abbrev signed_in : Request Input
signed_in = record request { claims = some claims }

abbrev text : ℕ → String
text v = if v == 1 then "u1" else "other"

members_for_members_example :
    let cl = record clients {
      verify_room_member = λ room_id user_id. Joining.verify_room_member env room_id user_id db;
      list_room_members =
          λ room_id. shown_answer (λ t. "1970") (Listing.list_room_members text env room_id db);
    } in
    Listed
      (λ ms. ByMember env db signed_in × OfRoom text (λ t. "1970") env db "r" ms)
      (Rooms.handle_list_room_members config cl signed_in []).1
members_for_members_example =
    members_for_members config clients text (λ t. "1970") env db signed_in []
