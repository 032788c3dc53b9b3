-- ===== src/Websocket/Front/Internal.antt =====
-- internal/websocket/handler_internal.go and router.go: system messages for a room, and readiness.
use Prim.Native.String.{◌++◌ as text_append}
use go_chat_msa.Common.{
  ℕ, ◌*◌, String, Bool, true, false, not, ◌||◌, Option, none, some, List, [], ◌∷◌, ◌++◌,
  if◌then◌else◌, str_eq, leb, ◌==◌,
}
use go_chat_msa.Shared.Http.{
  Response, problem, json, bare, Body, read_json, status_ok, status_no_content, status_bad_request,
  status_internal_server_error, status_service_unavailable,
}
use go_chat_msa.WsGateway.Ring
use go_chat_msa.WsGateway.Ring.{Consistent}
use go_chat_msa.Websocket.Message.{Message, new_system_message}
use go_chat_msa.Websocket.Front.{Sending, answered, abandoned, context_done, manager_stopped}

-- event.BroadcastSystemMessageRequest.
pub record BroadcastRequest : Type 0 where
  pub username : String
  pub event : String

unfoldable pub system_content : BroadcastRequest → Option String
system_content b =
    if str_eq b.event "join"
    then some (text_append b.username "님이 들어왔습니다.")
    else if str_eq b.event "leave"
    then some (text_append b.username "님이 나갔습니다.")
    else none

-- `Broadcast` of the manager: the message on broadcastCh, and whether the call succeeds. It waits for
-- no answer, so that it is not abandoned.
unfoldable pub manager_broadcast : Sending → Message → Option Message × Bool
manager_broadcast answered m = (some m, true)
manager_broadcast abandoned m = (some m, true)
manager_broadcast context_done m = (none, false)
manager_broadcast manager_stopped m = (none, false)

-- The end of handleBroadcast, with uuid.NewV7 and the time.
unfoldable pub broadcast_content :
    Sending → Option String → ℕ → String → String → Option Message × Response (List String)
broadcast_content sending id now room_id content =
    elim (new_system_message id now room_id content) [
      | none ↦ (none, problem status_internal_server_error)
      | some m ↦
          let (put, sent) = manager_broadcast sending m in
          (put, if sent then bare status_no_content else problem status_internal_server_error)
    ]

unfoldable pub handle_broadcast :
    Sending
    → Option String
    → ℕ
    → String
    → Body BroadcastRequest
    → Option Message × Response (List String)
handle_broadcast sending id now room_id body =
    if str_eq room_id "" then (none, problem status_bad_request) else elim (read_json body) [
      | none ↦ (none, problem status_bad_request)
      | some b ↦
          if str_eq b.username "" || str_eq b.event ""
          then (none, problem status_bad_request)
          else elim (system_content b) [
            | none ↦ (none, problem status_bad_request)
            | some content ↦ broadcast_content sending id now room_id content
          ]
    ]

-- What the readiness check sees: the manager, the ping of Redis and the health checks (nothing for a
-- client that is not configured), and the queue of the persistence workers.
pub record Probe : Type 0 where
  pub stopped : Bool
  pub redis : Option Bool
  pub chat_health : Option Bool
  pub user_health : Option Bool
  pub persist_len : ℕ
  pub persist_cap : ℕ

abbrev pub failed_unless : Bool → String → List String
failed_unless true failure = []
failed_unless false failure = failure ∷ []

-- checkGRPCHealth, with whether the answer is SERVING.
abbrev pub serving : Option Bool → Bool
serving none = false
serving (some b) = b

-- PersistQueueUtilization() >= 0.80.
unfoldable pub persist_queue_full : Probe → Bool
persist_queue_full p =
    if p.persist_cap == 0 then false else leb (4 * p.persist_cap) (5 * p.persist_len)

unfoldable pub readiness_failures : (lib : Consistent) → String → lib.Carrier → Probe → List String
readiness_failures lib advertised_addr ring p =
    failed_unless (not p.stopped) "manager stopped"
    ++ (elim (p.redis) [
      | none ↦ "redis client not configured" ∷ []
      | some pinged ↦ failed_unless pinged "redis ping failed"
    ])
    ++ failed_unless (serving p.chat_health) "chat-service health failed"
    ++ failed_unless (serving p.user_health) "user-service health failed"
    ++ (if Ring.len lib ring == 0
        then "hash ring empty" ∷ []
        else failed_unless (Ring.has_member lib advertised_addr ring)
            "self not observed in hash ring")
    ++ failed_unless (not (persist_queue_full p)) "persist queue utilization"

unfoldable pub handle_ready :
    (lib : Consistent) → String → lib.Carrier → Probe → Response (List String)
handle_ready lib advertised_addr ring p = elim (readiness_failures lib advertised_addr ring p) [
  | [] ↦ json status_ok []
  | f ∷ fs ↦ problem status_service_unavailable
]
