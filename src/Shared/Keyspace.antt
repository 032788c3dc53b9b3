-- ===== src/Shared/Keyspace.antt =====
-- Redis as the gateways use it: texts under keys, each with the time (in nanoseconds) at which it
-- expires. Each command is run at a time.
use go_chat_msa.Common.{
  ℕ, ◌+◌, String, Bool, true, false, Option, none, some, List, ltb, if◌then◌else◌, find, put,
  remove,
}

pub record Stored : Type 0 where
  pub value : String
  pub expires_at : ℕ

abbrev pub Keys : Type 0
Keys = List (String × Stored)

abbrev pub unexpired : ℕ → Option Stored → Option String
unexpired now none = none
unexpired now (some m) = if ltb now m.expires_at then some m.value else none

-- GET.
abbrev pub get : ℕ → String → Keys → Option String
get now k db = unexpired now (find k db)

-- SET with a time to live.
abbrev pub set_ex : ℕ → String → String → ℕ → Keys → Keys
set_ex now k value ttl db = put k (record { value = value; expires_at = now + ttl }) db

-- SET with NX and a time to live, and GETDEL.
unfoldable pub set_nx : ℕ → String → String → ℕ → Keys → Keys × Bool
set_nx now k value ttl db = elim (get now k db) [
  | some held ↦ (db, false)
  | none ↦ (set_ex now k value ttl db, true)
]

unfoldable pub get_del : ℕ → String → Keys → Keys × Option String
get_del now k db = elim (get now k db) [ some held ↦ (remove k db, some held) | none ↦ (db, none) ]
