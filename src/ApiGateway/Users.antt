-- ===== src/ApiGateway/Users.antt =====
-- internal/apigateway/handler_user.go and handler_token.go: accounts and tokens. uuid.Parse is a
-- parameter, as whether it succeeds.
use go_chat_msa.Common.{
  ℕ, String, Bool, true, not, ◌&&◌, ◌||◌, none, some, List, [], ◌∷◌, length, ltb, if◌then◌else◌,
  str_eq,
}
use go_chat_msa.Shared.Http.{
  problem, json, read_json, status_ok, status_created, status_unauthorized,
}
use go_chat_msa.Shared.Middleware.{Handler}
use go_chat_msa.ApiGateway.{
  Credentials, Input, Call, broadcast, set_cookie, Session, Log, Clients, Config, Payload, Reply,
  calling, with_user, username_of, refresh_token_cookie, cleared_refresh_token_cookie,
}
use go_chat_msa.ApiGateway.Rooms.{done, bad}

abbrev pub max_batch_user_ids : ℕ
max_batch_user_ids = 100

abbrev all_parse : (String → Bool) → List String → Bool
all_parse parses [] = true
all_parse parses (id ∷ rest) = parses id && all_parse parses rest

-- Whether there are ids, not too many, and all are identifiers.
abbrev pub batch_allowed : (String → Bool) → List String → Bool
batch_allowed parses ids =
    ltb 0 (length ids) && not (ltb max_batch_user_ids (length ids)) && all_parse parses ids

-- The messages to the rooms that a deleted user left, the last room first.
abbrev pub leave_all : String → List String → Log → Log
leave_all username [] log = log
leave_all username (room ∷ rest) log =
    leave_all username rest (broadcast room username "leave" ∷ log)

abbrev pub lacks : Credentials → Bool
lacks c = str_eq c.username "" || str_eq c.password ""

module _ (cfg : Config) (cl : Clients) (parses : String → Bool) where
  unfoldable pub handle_create_user : Handler Input Log Payload
  handle_create_user req log = elim (read_json req.input.credentials) [
    | none ↦ bad log
    | some c ↦
        if lacks c
        then bad log
        else calling (Call.create_user c.username c.password) (cl.create_user c.username c.password)
            (λ id log. (log, json status_created (Payload.user_created id))) log
  ]

  abbrev pub signed_in : Session → Log → Reply
  signed_in s log = (
    set_cookie (refresh_token_cookie cfg s.refresh_token) ∷ log,
    json status_ok (Payload.signed_in s.user_id s.access_token),
  )

  unfoldable pub handle_verify_user : Handler Input Log Payload
  handle_verify_user req log = elim (read_json req.input.credentials) [
    | none ↦ bad log
    | some c ↦
        if lacks c
        then bad log
        else calling (Call.verify_user c.username c.password) (cl.verify_user c.username c.password)
            signed_in log
  ]

  unfoldable pub handle_delete_user : Handler Input Log Payload
  handle_delete_user req = with_user req λ user_id log. elim (read_json req.input.credentials) [
    | none ↦ bad log
    | some c ↦
        if str_eq c.password ""
        then bad log
        else calling (Call.delete_user user_id c.password) (cl.delete_user user_id c.password)
            (λ rooms log. done (
              leave_all (username_of req) rooms
                (set_cookie (cleared_refresh_token_cookie cfg) ∷ log)))
            log
  ]

  unfoldable pub handle_batch_get_users : Handler Input Log Payload
  handle_batch_get_users req log =
      let ids = req.input.ids in
      if batch_allowed parses ids
      then calling (Call.batch_get_users ids) (cl.batch_get_users ids)
          (λ users log. (log, json status_ok (Payload.users users))) log
      else bad log

  unfoldable pub handle_refresh_token : Handler Input Log Payload
  handle_refresh_token req log = elim (req.input.refresh_cookie) [
    | none ↦ (log, problem status_unauthorized)
    | some token ↦
        calling (Call.refresh_token token) (cl.refresh_token token)
          (λ (access, refresh) log. (
            set_cookie (refresh_token_cookie cfg refresh) ∷ log,
            json status_ok (Payload.refreshed access),
          ))
          log
  ]

  unfoldable pub handle_revoke_token : Handler Input Log Payload
  handle_revoke_token req log = elim (req.input.refresh_cookie) [
    | none ↦ (log, problem status_unauthorized)
    | some token ↦
        calling (Call.revoke_token token) (cl.revoke_token token)
          (λ _ log. done (set_cookie (cleared_refresh_token_cookie cfg) ∷ log)) log
  ]
