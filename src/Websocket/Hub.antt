-- ===== src/Websocket/Hub.antt =====
-- internal/websocket/hub/hub.go: the actor that owns one room. Its state is `Hub`, the channels
-- that it shares with the persistence workers are `Persist`; a method that changes both returns
-- both. Logs and metrics are left out.
pub mod Broadcast
pub mod Events
pub mod Frame
pub mod Sequence
pub mod Start
pub mod Sessions
pub mod Slots
pub mod Draining
pub mod Idle
pub mod Idempotency
use go_chat_msa.Common.{
  ℕ, ◌+◌, ◌-◌, String, Bool, true, false, not, ◌&&◌, Option, none, some, List, [], ◌∷◌, ◌++◌, map,
  length, ltb, ◌==◌, str_eq, if◌then◌else◌, find, remove, put, is_some, inc_64, dec_64,
}
use go_chat_msa.Websocket.Message.{Message, notice, msg_type_conflict, msg_type_system}
use go_chat_msa.Websocket.Session.{
  Session, new_session, send, send_with_meta, close, close_with_code,
}

abbrev pub hub_broadcast_buffer_size : ℕ
hub_broadcast_buffer_size = 250

abbrev pub idempotency_cache_size : ℕ
idempotency_cache_size = 250

abbrev pub handoff_close_code : ℕ
handoff_close_code = 1012

abbrev pub handoff_close_reason : String
handoff_close_reason = "room owner handoff"

abbrev pub persist_backpressure_msg : String
persist_backpressure_msg = "message temporarily unavailable, please retry"

abbrev pub conflict_msg : String
conflict_msg = "disconnected due to multiple tabs in the same room"

-- The cache of github.com/hashicorp/golang-lru: what `New`, `Get` and `Add` do is a parameter.
pub record Lru (C : Type 0) : Type 0 where
  pub empty : ℕ → C
  pub get : String → C → Option Message × C
  pub add : String → Message → C → C

-- A `persistTask`. Its `ack` closure is `ack` below, applied to the hub with this pointer.
pub record PersistTask : Type 0 where
  pub msg : Message
  pub hub : ℕ

-- `persistCh` and `persistSlots`, made by the manager; either may be nil.
pub record Persist : Type 0 where
  pub has_ch : Bool
  pub queue : List PersistTask  -- oldest first
  pub queue_cap : ℕ
  pub has_slots : Bool
  pub slots : ℕ
  pub slots_cap : ℕ

-- What a step of the hub gets from outside: uuid.NewV7, the clock and json.Marshal.
pub record Env : Type 0 where
  pub new_id : Option String
  pub now : ℕ
  pub marshal : Message → Option String

pub record Hub (C : Type 0) : Type 0 where
  pub ident : ℕ
  pub room_id : String
  pub max_length : ℕ
  pub has_store : Bool
  pub sessions : List (String × Session)
  pub retired : List Session  -- closed and dropped from the map; their pumps still hold them
  pub last_sequence : ℕ  -- int64
  pub cache : C
  pub broadcast_ch : List Message  -- oldest first
  pub persist_done : Bool  -- whether the channel of one slot is full
  pub draining : Bool
  pub stopped : Bool  -- stopCh is closed
  pub pending_persist : ℕ  -- int64
  pub persist_failed : Bool
  pub active_sessions : ℕ  -- int64
  pub close_reason : Option String
  pub idle_armed : Bool  -- the idle timer runs

unfoldable pub new_hub : {C : Type 0} → Lru C → ℕ → String → ℕ → Bool → Hub C
new_hub lru ident room_id max_length has_store = record {
  ident = ident;
  room_id = room_id;
  max_length = max_length;
  has_store = has_store;
  sessions = [];
  retired = [];
  last_sequence = 0;
  cache = lru.empty idempotency_cache_size;
  broadcast_ch = [];
  persist_done = false;
  draining = false;
  stopped = false;
  pending_persist = 0;
  persist_failed = false;
  active_sessions = 0;
  close_reason = none;
  idle_armed = false;
}
