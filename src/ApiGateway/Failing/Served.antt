-- ===== src/ApiGateway/Failing/Served.antt =====
-- internal/apigateway/router.go: requests through the middlewares of their routes.
use go_chat_msa.Common.{
  ℕ, ◌≡◌, ap, ◌⊎◌, inl, inr, ◌≤◌, String, Bool, true, false, some, Bool-cases, arith,
}
use go_chat_msa.Shared.Http.{accepted, status_unauthorized, status_too_many_requests}
use go_chat_msa.Shared.Middleware.{
  Libraries, Request, chain_middleware, ip_key, UserClaims, verify_jwt, extract_token,
  limiter_allows,
}
use go_chat_msa.Shared.Middleware.Admission.{Turned, authenticated, rate_limit-cases}
use go_chat_msa.ApiGateway.{Input, Log, Clients, Config, Reply}
use go_chat_msa.ApiGateway.Routes.{Route, is_public, handler, serve}
use go_chat_msa.ApiGateway.Failing.{Problem, Clean, visible}
use go_chat_msa.ApiGateway.Failing.Handlers.{
  handle_create_user-Clean, handle_verify_user-Clean, handle_refresh_token-Clean,
  handle_revoke_token-Clean, handle_delete_user-Clean, handle_batch_get_users-Clean,
  handle_list_joined_rooms-Clean, handle_search_rooms-Clean, handle_create_room-Clean,
  handle_update_room-Clean, handle_delete_room-Clean, handle_join_room-Clean,
  handle_leave_room-Clean, handle_list_room_members-Clean, handle_list_messages-Clean,
}

module _ (cfg : Config) (cl : Clients) (parses : String → Bool) where
  handler-Clean :
      (r : Route) (req : Request Input) (log : Log) → Clean log (handler cfg cl parses r req log)
  unfolding handler
  handler-Clean Route.post_users req log = handle_create_user-Clean cfg cl parses req log
  handler-Clean Route.post_token req log = handle_verify_user-Clean cfg cl parses req log
  handler-Clean Route.post_refresh req log = handle_refresh_token-Clean cfg cl parses req log
  handler-Clean Route.delete_token req log = handle_revoke_token-Clean cfg cl parses req log
  handler-Clean Route.delete_me req log = handle_delete_user-Clean cfg cl parses req log
  handler-Clean Route.get_users req log = handle_batch_get_users-Clean cfg cl parses req log
  handler-Clean Route.get_my_rooms req log = handle_list_joined_rooms-Clean cfg cl parses req log
  handler-Clean Route.get_rooms req log = handle_search_rooms-Clean cfg cl parses req log
  handler-Clean Route.post_room req log = handle_create_room-Clean cfg cl parses req log
  handler-Clean Route.patch_room req log = handle_update_room-Clean cfg cl parses req log
  handler-Clean Route.delete_room req log = handle_delete_room-Clean cfg cl parses req log
  handler-Clean Route.put_member req log = handle_join_room-Clean cfg cl parses req log
  handler-Clean Route.delete_member req log = handle_leave_room-Clean cfg cl parses req log
  handler-Clean Route.get_members req log = handle_list_room_members-Clean cfg cl parses req log
  handler-Clean Route.get_messages req log = handle_list_messages-Clean cl req log

  unhandled-Clean : (s : ℕ) (log : Log) (x : Reply) → 400 ≤ s → Turned s log x → Clean log x
  unhandled-Clean s log x le t = inr ((s, ap (λ y. y.1) t, le), ap (λ y. visible y.0) t)

  same-Clean : (log : Log) (x y : Reply) → x ≡ y → Clean log y → Clean log x
  same-Clean log x y e h = rw e h

  public-Clean :
      (libs : Libraries) (r : Route) (req : Request Input) (log : Log)
      → is_public r ≡ true
      → Clean log (serve cfg cl parses libs r req log)
  unfolding serve chain_middleware
  public-Clean libs r req log e =
      rw (e, serve)
        (elim (rate_limit-cases libs (ip_key libs) (handler cfg cl parses r) req log) [
          | inl (full, t) ↦ unhandled-Clean 429 log _ (ground arith) t
          | inr same ↦ same-Clean log _ _ same (handler-Clean r req log)
        ])

  -- A request to a route that is not public is answered with status 401, or its bearer token is
  -- verified, and then it is answered with status 429, only when the limiter refuses the
  -- token's subject, or as its handler answers a request with the verified claims; a request
  -- answered by a middleware leaves the log as it was.
  pub guarded :
      (libs : Libraries) (r : Route) (req : Request Input) (log : Log)
      → is_public r ≡ false
      → let served = serve cfg cl parses libs r req log in
        Turned status_unauthorized log served
        ⊎ ((c : UserClaims) × (verify_jwt libs (extract_token req.authorization) cfg.jwt_secret
              ≡ some c)
            × (((limiter_allows libs c.subject ≡ some false)
                  × Turned status_too_many_requests log served)
                ⊎ (served ≡ handler cfg cl parses r (record req { claims = some c }) log)))
  unfolding serve
  guarded libs r req log e =
      rw (e, serve) (authenticated libs cfg.jwt_secret (handler cfg cl parses r) req log)

  -- For every route and request, whatever the services answer: the response is a success, or a
  -- problem with a status of at least 400 and neither a cookie, a message to a room nor a room
  -- to close is added to the log.
  pub failure_leaves_nothing :
      (libs : Libraries) (r : Route) (req : Request Input) (log : Log)
      → let (log', x) = serve cfg cl parses libs r req log in
        (accepted x ≡ true) ⊎ (Problem x × (visible log' ≡ visible log))
  failure_leaves_nothing libs r req log = elim (Bool-cases (is_public r)) [
    | inl e ↦ public-Clean libs r req log e
    | inr e ↦ elim (guarded libs r req log e) [
      | inl t ↦ unhandled-Clean 401 log _ (ground arith) t
      | inr (c, v, inl (full, t)) ↦ unhandled-Clean 429 log _ (ground arith) t
      | inr (c, v, inr same) ↦
          same-Clean log _ _ same (handler-Clean r (record req { claims = some c }) log)
    ]
  ]
