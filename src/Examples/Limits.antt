-- ===== src/Examples/Limits.antt =====
-- A key that is allowed_count twice, then refused, and allowed_count again a second later.
use go_chat_msa.Common.{◌+◌, ◌*◌, ◌≤◌, List, [], ◌∷◌, arith}
use go_chat_msa.Shared.RateLimit.{token, Limiter}
use go_chat_msa.Shared.RateLimit.Bound.{Op, allows, sweeps, allowed_count, rate_bound}

abbrev limiter : Limiter
limiter = record { rps = 1; burst = 2; ttl = 3_000_000_000 }

abbrev requests : List Op
requests =
    allows "ann" 10
    ∷ allows "ann" 20
    ∷ allows "bob" 25
    ∷ allows "ann" 30
    ∷ sweeps 40
    ∷ allows "ann" 1_000_000_030
    ∷ []

rate_bound_example :
    allowed_count limiter "ann" requests [] * token + 1 * 10 ≤ 2 * token + 1 * 1_000_000_030
rate_bound_example = rate_bound limiter "ann" 10 requests (ground arith) (ground arith) (
  ground arith,
  (ground arith, (ground arith, (ground arith, (ground arith, (ground arith, tt))))),
)
