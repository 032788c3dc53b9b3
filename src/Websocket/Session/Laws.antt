-- ===== src/Websocket/Session/Laws.antt =====
-- Laws of a session's egress queue and read loop.
use go_chat_msa.Common.{ℕ, ◌≤◌, String, Option, arith, length, length-append}
use go_chat_msa.Websocket.Session.{Session, send_buffer_size, send_with_meta}

-- The egress queue never holds more than its buffer.
pub send_with_meta_bound :
    (text sender : String) (at : Option ℕ) (s : Session)
    → length s.send_ch ≤ send_buffer_size
    → length (send_with_meta text sender at s).send_ch ≤ send_buffer_size
unfolding send_with_meta
send_with_meta_bound text sender at s h = grind (arith, length-append)
