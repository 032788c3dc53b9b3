-- ===== src/WsGateway/Admitted.antt =====
-- internal/wsgateway: how many connections a user can get from the tickets.
use go_chat_msa.Common.{
  ℕ, ◌≡◌, refl, inl, inr, ◌≤◌, ◌+◌, String, Bool, Option, none, some, List, [], ◌∷◌, str_eq, ◌==◌,
  Bool-cases, Option-cases, find, arith,
}
use go_chat_msa.Shared.Http.{status_misdirected_request}
use go_chat_msa.Shared.Middleware.{
  UserClaims, Libraries, Request, extract_token, verify_jwt, chain_middleware, ip_key, get_user_id,
}
use go_chat_msa.Shared.Middleware.Admission.{authenticated, rate_limit-cases, internal_auth-cases}
use go_chat_msa.WsGateway.Ring
use go_chat_msa.WsGateway.Ring.{Consistent}
use go_chat_msa.WsGateway.Tickets.{Redeemed, redeemed, invalid, redis_error, get_and_delete}
use go_chat_msa.WsGateway.Handlers.{
  Config, Input, Passed, Gateway, Route, post_ticket, get_ws, post_broadcast, delete_room, serve,
  handle_create_ws_ticket, proxy_web_socket, proxy_internal_request, connect_room, after_ticket,
  pass_on, proxy_serve, modify_response, get_or_create_proxy, Upstream, answered, broken,
}
use go_chat_msa.WsGateway.Tickets.Held.{one_if, held, worth, paid, issue-held, get_and_delete-held}

-- The requests that were passed on in the name of a user.
unfoldable pub sent : String → List Passed → ℕ
sent u [] = 0
sent u (p ∷ ps) = worth u p.user_id + sent u ps

module _ (lib : Consistent) (u : String) where
  -- Connections had, and connections that tickets still allow.
  abbrev pub total : Gateway lib → ℕ
  total g = sent u g.passed + held u g.keys

  modify_response-total :
      (up : Upstream) (g : Gateway lib) → total (modify_response lib up g).0 ≡ total g
  unfolding modify_response
  modify_response-total broken g = refl
  modify_response-total (answered status) g =
      elim (Bool-cases (status == status_misdirected_request)) [
        | inl e ↦ rw (e, modify_response) refl
        | inr e ↦ rw (e, modify_response) refl
      ]

  get_or_create_proxy-total :
      (parses : String → Bool) (target : String) (g : Gateway lib)
      → total (get_or_create_proxy lib parses target g).0 ≡ total g
  unfolding get_or_create_proxy
  get_or_create_proxy-total parses target g = elim (Option-cases (find target g.proxies)) [
    | inr (proxy, e) ↦ rw (e, get_or_create_proxy) refl
    | inl e ↦ elim (Bool-cases (parses target)) [
      | inl ok ↦ rw (e, ok, get_or_create_proxy) refl
      | inr bad ↦ rw (e, bad, get_or_create_proxy) refl
    ]
  ]

  pass_on-total :
      (cfg : Config) (i : Input) (user_id : Option String) (target : String) (g : Gateway lib)
      → total (pass_on lib cfg i.upstream i.room_id user_id target g).0 ≤ total g + worth u user_id
  unfolding pass_on proxy_serve sent
  pass_on-total cfg i user_id target g =
      let kept = get_or_create_proxy-total cfg.parses target g in
      elim (Option-cases (get_or_create_proxy lib cfg.parses target g).1) [
        | inl e ↦ rw (e, pass_on) (ground (arith, kept))
        | inr (to, e) ↦
            let g' = (get_or_create_proxy lib cfg.parses target g).0 in
            let p : Passed = record { target = to; room_id = i.room_id; user_id = user_id } in
            rw (e, pass_on)
              (ground (
                arith,
                kept,
                modify_response-total i.upstream (record g' { passed = p ∷ g'.passed }),
              ))
      ]

  connect_room-total :
      (cfg : Config) (i : Input) (user_id : String) (g : Gateway lib)
      → total (connect_room lib cfg i user_id g).0 ≤ total g + one_if (str_eq user_id u)
  unfolding connect_room
  connect_room-total cfg i user_id g =
      let target = Ring.locate lib i.room_id g.watcher.ring in
      elim (Bool-cases (str_eq i.room_id "")) [
        | inl e ↦ rw (e, connect_room) (ground arith)
        | inr e ↦ elim (Bool-cases (str_eq target "")) [
          | inl t ↦ rw (e, t, connect_room) (ground arith)
          | inr t ↦ rw (e, t, connect_room) (pass_on-total cfg i (some user_id) target g)
        ]
      ]

  after_ticket-total :
      (cfg : Config) (i : Input) (answer : Redeemed) (g : Gateway lib)
      → total (after_ticket lib cfg i answer g).0 ≤ total g + paid u answer
  after_ticket-total cfg i redis_error g = ground arith
  after_ticket-total cfg i invalid g = ground arith
  after_ticket-total cfg i (redeemed user_id) g = connect_room-total cfg i user_id g

  proxy_web_socket-total :
      (cfg : Config) (req : Request Input) (g : Gateway lib)
      → total (proxy_web_socket lib cfg req g).0 ≤ total g
  unfolding proxy_web_socket
  proxy_web_socket-total cfg req g =
      let i = req.input in
      let x = get_and_delete i.net i.now i.ticket g.keys in
      elim (Bool-cases (str_eq i.ticket "")) [
        | inl e ↦ rw (e, proxy_web_socket) (ground arith)
        | inr e ↦
            rw (e, proxy_web_socket)
              (ground (
                arith,
                after_ticket-total cfg i x.1 (record g { keys = x.0 }),
                get_and_delete-held u i.net i.now i.ticket g.keys,
              ))
      ]

  proxy_internal_request-total :
      (cfg : Config) (req : Request Input) (g : Gateway lib)
      → total (proxy_internal_request lib cfg req g).0 ≤ total g
  unfolding proxy_internal_request
  proxy_internal_request-total cfg req g =
      let i = req.input in
      let target = Ring.locate lib i.room_id g.watcher.ring in
      elim (Bool-cases (str_eq i.room_id "")) [
        | inl e ↦ rw (e, proxy_internal_request) (ground arith)
        | inr e ↦ elim (Bool-cases (str_eq target "")) [
          | inl t ↦ rw (e, t, proxy_internal_request) (ground arith)
          | inr t ↦
              rw (e, t, proxy_internal_request) (ground (arith, pass_on-total cfg i none target g))
        ]
      ]

  handle_create_ws_ticket-total :
      (cfg : Config) (req : Request Input) (g : Gateway lib)
      → total (handle_create_ws_ticket lib cfg req g).0 ≤ total g + worth u (get_user_id req)
  unfolding handle_create_ws_ticket
  handle_create_ws_ticket-total cfg req g = elim (Option-cases (get_user_id req)) [
    | inl e ↦ rw (e, handle_create_ws_ticket) (ground arith)
    | inr (v, e) ↦
        let i = req.input in
        rw (e, handle_create_ws_ticket)
          (ground (arith, issue-held u i.net i.now i.uuid v cfg.ticket_ttl g.keys))
  ]

abbrev subject_of : Option UserClaims → Option String
subject_of none = none
subject_of (some c) = some c.subject

module _ (lib : Consistent) (libs : Libraries) (cfg : Config) (u : String) where
  -- The ticket requests with a valid token of the user.
  unfoldable pub asked : List (Route × Request Input) → ℕ
  asked [] = 0
  asked ((post_ticket, req) ∷ rest) =
      worth u (subject_of (verify_jwt libs (extract_token req.authorization) cfg.jwt_secret))
      + asked rest
  asked ((get_ws, req) ∷ rest) = asked rest
  asked ((post_broadcast, req) ∷ rest) = asked rest
  asked ((delete_room, req) ∷ rest) = asked rest

  unfoldable pub serve_all : List (Route × Request Input) → Gateway lib → Gateway lib
  serve_all [] g = g
  serve_all ((route, req) ∷ rest) g = serve_all rest (serve lib libs cfg route req g).0

  ticket-total :
      (req : Request Input) (g : Gateway lib)
      → total lib u (serve lib libs cfg post_ticket req g).0
        ≤ total lib u g + asked ((post_ticket, req) ∷ [])
  unfolding asked serve
  ticket-total req g =
      elim (authenticated libs cfg.jwt_secret (handle_create_ws_ticket lib cfg) req g) [
        | inl t ↦ rw t (ground arith)
        | inr (c, v, inl (full, t)) ↦ rw t (ground arith)
        | inr (c, v, inr e) ↦
            rw (e, v)
              (ground
                (arith, handle_create_ws_ticket-total lib u cfg (record req { claims = some c }) g))
      ]

  served-total :
      (route : Route) (req : Request Input) (g : Gateway lib)
      → total lib u (serve lib libs cfg route req g).0 ≤ total lib u g + asked ((route, req) ∷ [])
  unfolding asked serve chain_middleware
  served-total post_ticket req g = ticket-total req g
  served-total get_ws req g =
      elim (rate_limit-cases libs (ip_key libs) (proxy_web_socket lib cfg) req g) [
        | inl (full, t) ↦ rw t (ground arith)
        | inr e ↦ rw e (ground (arith, proxy_web_socket-total lib u cfg req g))
      ]
  served-total post_broadcast req g =
      elim (internal_auth-cases cfg.internal_secret (proxy_internal_request lib cfg) req g) [
        | inl (bad, t) ↦ rw t (ground arith)
        | inr (ok, e) ↦ rw e (ground (arith, proxy_internal_request-total lib u cfg req g))
      ]
  served-total delete_room req g =
      elim (internal_auth-cases cfg.internal_secret (proxy_internal_request lib cfg) req g) [
        | inl (bad, t) ↦ rw t (ground arith)
        | inr (ok, e) ↦ rw e (ground (arith, proxy_internal_request-total lib u cfg req g))
      ]

  asked_cons :
      (route : Route) (req : Request Input) (rest : List (Route × Request Input))
      → asked ((route, req) ∷ rest) ≡ asked ((route, req) ∷ []) + asked rest
  unfolding asked
  asked_cons post_ticket req rest = ground arith
  asked_cons get_ws req rest = ground arith
  asked_cons post_broadcast req rest = ground arith
  asked_cons delete_room req rest = ground arith

  -- Whatever requests arrive in a row, whatever Redis loses, whatever the servers answer, and
  -- for every user: the requests passed on in the user's name and the tickets stored for the
  -- user are at the end at most those at the start and the ticket requests with a valid token
  -- of the user.
  pub connections_paid :
      (reqs : List (Route × Request Input)) (g : Gateway lib)
      → let after = serve_all reqs g in
        sent u after.passed + held u after.keys ≤ sent u g.passed + held u g.keys + asked reqs
  unfolding serve_all
  connections_paid [] g = ground arith
  connections_paid ((route, req) ∷ rest) g = ground (
    arith,
    connections_paid rest (serve lib libs cfg route req g).0,
    served-total route req g,
    asked_cons route req rest,
  )
