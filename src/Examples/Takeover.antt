-- ===== src/Examples/Takeover.antt =====
-- A hub that takes over a room with a recorded floor of 41, where 7 messages are stored.
use go_chat_msa.Common.{
  ℕ, ◌-◌, ◌%◌, if◌then◌else◌, leb, ◌≡◌, refl, List, [], ◌∷◌, ◌++◌, find, put, arith, All,
}
use go_chat_msa.Websocket.Lease.{delivered}
use go_chat_msa.Websocket.SequenceFloor
use go_chat_msa.Websocket.SequenceFloor.{
  set_max, set_max_lua, set_all, last_sequence_number, ok, IsTonumber, double_limit,
}
use go_chat_msa.Websocket.Hub.{Hub, PersistTask, new_hub}
use go_chat_msa.Websocket.Hub.Sequence.{handle_all}
use go_chat_msa.Websocket.Hub.Start.{initialize_sequence, Above, takeover_rises}
use go_chat_msa.Examples.Hubs.{Cache, lru, env, message, persist, hub}

-- A double keeps even numbers above 2 ^ 53, and all below.
abbrev tonumber : ℕ → ℕ
tonumber n = if leb n double_limit then n else n - n % 2

tonumber-IsTonumber : IsTonumber tonumber
tonumber-IsTonumber = (λ a b le. ground arith, λ n le. ground arith)

abbrev started : Hub Cache
started = (initialize_sequence (ok 41) hub).0

takeover_rises_example :
    (ts : List PersistTask) × ((handle_all lru ((env, message) ∷ []) started persist).1.queue
      ≡ persist.queue ++ ts)
    × All (Above 41 7) ts
unfolding new_hub initialize_sequence find put set_max set_max_lua set_all SequenceFloor.get
    last_sequence_number
takeover_rises_example =
    takeover_rises lru tonumber "seq:" delivered delivered "room" 41 7 [] [] hub started persist
      ((env, message) ∷ []) tonumber-IsTonumber refl (omega arith) refl refl refl (omega arith)
