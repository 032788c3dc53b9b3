-- ===== src/Shared/RateLimit.antt =====
-- internal/shared/ratelimit/memory.go: one bucket of tokens for each key. Times are nanoseconds, and a
-- float64 of tokens is exact, in units of 1e-9 tokens: a bucket keeps `used`, the burst less its
-- tokens. The shards are one map, since a key has one shard.
pub mod Bound
use go_chat_msa.Common.{
  ℕ, ◌+◌, ◌-◌, ◌*◌, String, Bool, true, false, Option, none, some, List, [], ◌∷◌, ltb, leb,
  if◌then◌else◌, find, put,
}

abbrev pub token : ℕ
token = 1_000_000_000

pub record Bucket : Type 0 where
  pub used : ℕ
  pub last_update : ℕ

-- Tokens for each second, tokens, nanoseconds.
pub record Limiter : Type 0 where
  pub rps : ℕ
  pub burst : ℕ
  pub ttl : ℕ

abbrev pub Buckets : Type 0
Buckets = List (String × Bucket)

-- What is used of a bucket at a time: it fills again up to the burst, and a clock that was read
-- before the last update takes away.
unfoldable pub used_at : Limiter → ℕ → Bucket → ℕ
used_at l now b = (b.used + l.rps * b.last_update) - l.rps * now

unfoldable pub allow : Limiter → String → ℕ → Buckets → Buckets × Bool
allow l key now m = elim (find key m) [
  | none ↦ (put key (record { used = token; last_update = now }) m, true)
  | some b ↦
      if leb (used_at l now b + token) (l.burst * token)
      then (put key (record { used = used_at l now b + token; last_update = now }) m, true)
      else (m, false)
]

unfoldable pub sweep : Limiter → ℕ → Buckets → Buckets
sweep l now [] = []
sweep l now ((k, b) ∷ m) =
    let rest = sweep l now m in if ltb l.ttl (now - b.last_update) then rest else (k, b) ∷ rest
