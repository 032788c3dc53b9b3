-- ===== src/WsGateway/Handlers.antt =====
-- internal/wsgateway/router.go, handler_ws.go and handler_internal.go: tickets, and the proxies to
-- the websocket servers. net/url, the network and what a server answers are parameters.
use go_chat_msa.Common.{
  ℕ, String, Bool, true, false, not, Option, none, some, List, [], ◌∷◌, ◌++◌, if◌then◌else◌, str_eq,
  ◌==◌, find, put,
}
use go_chat_msa.Shared.Http.{
  Response, problem, json, bare, relayed, status_ok, status_no_content, status_bad_request,
  status_unauthorized, status_misdirected_request, status_internal_server_error, status_bad_gateway,
  status_service_unavailable,
}
use go_chat_msa.Shared.Keyspace.{Keys}
use go_chat_msa.Shared.Middleware.{
  Libraries, Handler, get_user_id, chain_middleware, bearer_auth, rate_limit, internal_auth, ip_key,
  user_key,
}
use go_chat_msa.Shared.Membership.{Watcher, force_reconcile, has_observed_members}
use go_chat_msa.Websocket.Lease.{Net}
use go_chat_msa.WsGateway.Ring
use go_chat_msa.WsGateway.Ring.{Consistent}
use go_chat_msa.WsGateway.Tickets
use go_chat_msa.WsGateway.Tickets.{Redeemed, redeemed, invalid, redis_error}

-- What comes back through a proxy: the server's answer, or an error of the transport.
pub data Upstream : Type 0 where
  answered : ℕ → Upstream
  broken : Upstream

-- A request that a proxy passed on, with the X-User-ID that the gateway set.
pub record Passed : Type 0 where
  pub target : String
  pub room_id : String
  pub user_id : Option String

pub record Config : Type 0 where
  pub jwt_secret : String
  pub internal_secret : String
  pub ticket_ttl : ℕ
  pub parses : String → Bool

-- What the handlers read beside headers: the time, the network to Redis, the new UUID, the query,
-- the path and the method.
pub record Input : Type 0 where
  pub now : ℕ
  pub net : Net
  pub uuid : String
  pub ticket : String
  pub room_id : String
  pub is_delete : Bool
  pub upstream : Upstream

-- The patterns of registerRoutes.
pub data Route : Type 0 where
  post_ticket get_ws post_broadcast delete_room : Route

module _ (lib : Consistent) where
  -- The router, with the keys in Redis, the watcher and its ring. A proxy is known by its target, and
  -- `passed` are the requests that were sent to the servers, the last one first.
  pub record Gateway : Type 0 where
    pub keys : Keys
    pub watcher : Watcher lib
    pub proxies : List (String × String)
    pub passed : List Passed

  abbrev pub Served : Type 0
  Served = Gateway × Response String

  unfoldable pub get_or_create_proxy : (String → Bool) → String → Gateway → Gateway × Option String
  get_or_create_proxy parses target g = elim (find target g.proxies) [
    | some proxy ↦ (g, some proxy)
    | none ↦
        if parses target
        then (record g { proxies = put target target g.proxies }, some target)
        else (g, none)
  ]

  -- proxy.ModifyResponse, and proxy.ErrorHandler for a broken transport.
  unfoldable pub modify_response : Upstream → Gateway → Served
  modify_response (answered status) g =
      if status == status_misdirected_request
      then (
        record g { watcher = force_reconcile lib g.watcher },
        problem status_service_unavailable,
      )
      else (g, relayed status)
  modify_response broken g = (g, problem status_bad_gateway)

  unfoldable pub proxy_serve : Passed → Upstream → Gateway → Served
  proxy_serve p upstream g = modify_response upstream (record g { passed = p ∷ g.passed })

  -- The end of both proxying handlers: the proxy of the target serves the request.
  unfoldable pub pass_on : Config → Upstream → String → Option String → String → Gateway → Served
  pass_on cfg upstream room_id user_id target g =
      let (g', proxy) = get_or_create_proxy cfg.parses target g in
      elim proxy [
        | none ↦ (g', problem status_bad_gateway)
        | some to ↦
            proxy_serve (record { target = to; room_id = room_id; user_id = user_id }) upstream g'
      ]

  unfoldable pub handle_create_ws_ticket : Config → Handler Input Gateway String
  handle_create_ws_ticket cfg req g = elim (get_user_id req) [
    | none ↦ (g, problem status_unauthorized)
    | some user_id ↦
        let i = req.input in
        let (keys, stored) = Tickets.issue i.net i.now i.uuid user_id cfg.ticket_ttl g.keys in
        (
          record g { keys = keys },
          if stored then json status_ok i.uuid else problem status_internal_server_error,
        )
  ]

  -- proxyWebSocket once the ticket was good.
  unfoldable pub connect_room : Config → Input → String → Gateway → Served
  connect_room cfg i user_id g =
      if str_eq i.room_id ""
      then (g, problem status_bad_request)
      else let target = Ring.locate lib i.room_id g.watcher.ring in
        if str_eq target ""
        then (g, problem status_service_unavailable)
        else pass_on cfg i.upstream i.room_id (some user_id) target g

  abbrev pub after_ticket : Config → Input → Redeemed → Gateway → Served
  after_ticket cfg i redis_error g = (g, problem status_internal_server_error)
  after_ticket cfg i invalid g = (g, problem status_unauthorized)
  after_ticket cfg i (redeemed user_id) g = connect_room cfg i user_id g

  unfoldable pub proxy_web_socket : Config → Handler Input Gateway String
  proxy_web_socket cfg req g =
      let i = req.input in
      if str_eq i.ticket ""
      then (g, problem status_unauthorized)
      else let (keys, answer) = Tickets.get_and_delete i.net i.now i.ticket g.keys in
        after_ticket cfg i answer (record g { keys = keys })

  unfoldable pub proxy_internal_request : Config → Handler Input Gateway String
  proxy_internal_request cfg req g =
      let i = req.input in
      if str_eq i.room_id ""
      then (g, problem status_bad_request)
      else let target = Ring.locate lib i.room_id g.watcher.ring in
        if str_eq target ""
        then (
          g,
          if i.is_delete then bare status_no_content else problem status_internal_server_error,
        )
        else pass_on cfg i.upstream i.room_id none target g

  unfoldable pub serve : Libraries → Config → Route → Handler Input Gateway String
  serve libs cfg post_ticket =
      chain_middleware (handle_create_ws_ticket cfg)
        (bearer_auth libs cfg.jwt_secret ∷ rate_limit libs user_key ∷ [])
  serve libs cfg get_ws =
      chain_middleware (proxy_web_socket cfg) (rate_limit libs (ip_key libs) ∷ [])
  serve libs cfg post_broadcast =
      chain_middleware (proxy_internal_request cfg) (internal_auth cfg.internal_secret ∷ [])
  serve libs cfg delete_room =
      chain_middleware (proxy_internal_request cfg) (internal_auth cfg.internal_secret ∷ [])

  abbrev failed_if : Bool → String → List String
  failed_if true failure = failure ∷ []
  failed_if false failure = []

  -- readinessFailures, for a Redis client with whether the ping succeeds, or none.
  unfoldable pub readiness_failures : Option Bool → Gateway → List String
  readiness_failures redis g =
      (elim redis [
        | none ↦ "redis client not configured" ∷ []
        | some pinged ↦ failed_if (not pinged) "redis ping failed"
      ])
      ++ failed_if (not (has_observed_members lib g.watcher)) "membership has no observed members"
      ++ failed_if (Ring.len lib g.watcher.ring == 0) "hash ring empty"

  unfoldable pub handle_ready : Option Bool → Gateway → Response String
  handle_ready redis g = elim (readiness_failures redis g) [
    | [] ↦ json status_ok "ready"
    | f ∷ fs ↦ problem status_service_unavailable
  ]
