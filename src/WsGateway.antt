-- ===== src/WsGateway.antt =====
-- internal/wsgateway: the gateway in front of the websocket servers.
pub mod Ring
pub mod Tickets
pub mod Handlers
pub mod Admitted
