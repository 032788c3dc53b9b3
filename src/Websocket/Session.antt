-- ===== src/Websocket/Session.antt =====
-- internal/websocket/hub/session.go: one connection's buffered egress, its close state and the
-- checks that its read loop makes on an incoming frame.
pub mod Laws
use Prim.Native.String.{count, ◌++◌ as text_append}
use go_chat_msa.Common.{
  ℕ, zero, suc, ◌+◌, ◌/◌, ◌%◌, String, Bool, true, false, not, ◌&&◌, ◌||◌, Option, none, some, List,
  [], ◌∷◌, ◌++◌, length, ltb, ◌==◌, str_eq, if◌then◌else◌,
}
use go_chat_msa.Websocket.Message.{Message, IncomingRequest, notice, msg_type_chat, msg_type_system}

abbrev pub send_buffer_size : ℕ
send_buffer_size = 250

pub record EgressPacket : Type 0 where
  pub text : String
  pub sender_id : String
  pub received_at : Option ℕ

pub record Session : Type 0 where
  pub ident : ℕ  -- the pointer, by which the hub tells two sessions of one user apart
  pub sender_id : String
  pub room_id : String
  pub max_length : ℕ
  pub send_ch : List EgressPacket  -- oldest first
  pub closed : Bool
  pub close_code : ℕ
  pub close_reason : String

unfoldable pub new_session : ℕ → ℕ → String → String → Session
new_session ident max_length sender_id room_id = record {
  ident = ident;
  sender_id = sender_id;
  room_id = room_id;
  max_length = max_length;
  send_ch = [];
  closed = false;
  close_code = 0;
  close_reason = "";
}

-- A full queue drops the packet; a closed session ignores it.
unfoldable pub send_with_meta : String → String → Option ℕ → Session → Session
send_with_meta text sender_id received_at s =
    if s.closed
    then s
    else if ltb (length s.send_ch) send_buffer_size
    then record s {
      send_ch =
          s.send_ch
          ++ record { text = text; sender_id = sender_id; received_at = received_at } ∷ [];
    }
    else s

unfoldable pub send : String → Session → Session
send text s = send_with_meta text "" none s

unfoldable pub close_with_code : ℕ → String → Session → Session
close_with_code code reason s =
    if s.closed then s else record s { closed = true; close_code = code; close_reason = reason }

unfoldable pub close : Session → Session
close s = close_with_code 0 "" s

-- The code and reason of the close frame, `none` for an empty one.
unfoldable pub close_message : Session → Option (ℕ × String)
close_message s = if s.close_code == 0 then none else some (s.close_code, s.close_reason)

-- `sendSystemMessage`; the first argument is json.Marshal.
unfoldable pub send_system_message : (Message → Option String) → ℕ → String → Session → Session
send_system_message marshal now content s =
    elim (marshal (notice msg_type_system s.room_id content now)) [
      | none ↦ s
      | some raw ↦ send raw s
    ]

-- fmt's %d, for the limit in one of the notices.
digit : ℕ → String
digit zero = "0"
digit (suc zero) = "1"
digit (suc (suc zero)) = "2"
digit (suc (suc (suc zero))) = "3"
digit (suc (suc (suc (suc zero)))) = "4"
digit (suc (suc (suc (suc (suc zero))))) = "5"
digit (suc (suc (suc (suc (suc (suc zero)))))) = "6"
digit (suc (suc (suc (suc (suc (suc (suc zero))))))) = "7"
digit (suc (suc (suc (suc (suc (suc (suc (suc zero)))))))) = "8"
digit _ = "9"

-- `n + 1` rounds are enough for the digits of `n`.
digits : ℕ → ℕ → String → String
unfolding digit
digits zero n acc = acc
digits (suc fuel) n acc =
    let acc' = text_append (digit (n % 10)) acc in
    let rest = digits fuel (n / 10) acc' in if n / 10 == 0 then acc' else rest

unfoldable pub too_long_text : ℕ → String
unfolding digits
too_long_text n =
    text_append "message too long: max " (text_append (digits (suc n) n "") " characters")

-- What the read loop does after one call of conn.ReadMessage.
pub data Pump : Type 0 where
  next : Pump
  stop : Pump
  publish : Message → Pump

-- What the loop reads: an error of the connection, or a frame with its decoding by json.Unmarshal.
pub data Frame : Type 0 where
  broken : Frame
  frame : Option IncomingRequest → Frame

-- What the loop gets from outside: the clock, json.Marshal, and `allowFunc` and `publishFunc`,
-- which may be nil.
pub record ReadEnv : Type 0 where
  pub now : ℕ
  pub marshal : Message → Option String
  pub allow : Option (String → String → Bool)
  pub can_publish : Bool

abbrev pub allowed : ReadEnv → Session → Bool
allowed e s = elim e.allow [ none ↦ true | some f ↦ f s.sender_id s.room_id ]

abbrev chat_message : ReadEnv → Session → IncomingRequest → Message
chat_message e s req = record {
  id = "";
  room_id = s.room_id;
  sender_id = s.sender_id;
  content = req.content;
  client_msg_id = req.client_msg_id;
  type = if str_eq req.type "" then msg_type_chat else req.type;
  sequence_number = 0;
  timestamp = e.now;
  received_at = some e.now;
}

unfoldable pub read_request : ReadEnv → Session → IncomingRequest → Session × Pump
read_request e s req =
    if str_eq req.content "" || str_eq req.client_msg_id ""
    then (
      send_system_message e.marshal e.now "missing required fields: content, client_msg_id" s,
      next,
    )
    else if ltb 0 s.max_length && ltb s.max_length (count req.content)
    then (send_system_message e.marshal e.now (too_long_text s.max_length) s, next)
    else if e.can_publish
    then (s, publish (chat_message e s req))
    else (s, stop)

-- One round of `readPump`. The caller stops when the publishing function returns false.
unfoldable pub read_frame : ReadEnv → Session → Frame → Session × Pump
read_frame e s broken = (s, stop)
read_frame e s (frame req) =
    if allowed e s
    then elim req [
      | none ↦ (send_system_message e.marshal e.now "invalid message format" s, next)
      | some r ↦ read_request e s r
    ]
    else (send_system_message e.marshal e.now "rate limit exceeded: do not spam" s, next)
