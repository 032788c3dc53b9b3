-- ===== src/Shared/RateLimit/Bound.antt =====
-- internal/shared/ratelimit/memory.go: how often a key is allowed.
use go_chat_msa.Common.{
  ℕ, ◌+◌, ◌-◌, ◌*◌, ◌≤◌, ◌≡◌, refl, sym, subst, str_eq_refl, find-put_hit, find-put_miss,
  put-Distinct, String, Bool, true, false, Option, none, some, List, [], ◌∷◌, ltb, leb, str_eq,
  str_eq_iff, if◌then◌else◌, find, arith, Option-cases, Bool-cases, inl, inr, Distinct, find-empty,
}
use native.Mathlib.Nat.{mul-le-mul_left}
use go_chat_msa.Shared.RateLimit.{token, Bucket, Limiter, Buckets, used_at, allow, sweep}

pub data Op : Type 0 where
  allows : String → ℕ → Op
  sweeps : ℕ → Op

abbrev pub time : Op → ℕ
time (allows key now) = now
time (sweeps now) = now

abbrev pub InOrder : ℕ → List Op → Type 0
InOrder t [] = Unit
InOrder t (o ∷ os) = (t ≤ time o) × InOrder (time o) os

abbrev pub end_time : ℕ → List Op → ℕ
end_time t [] = t
end_time t (o ∷ os) = end_time (time o) os

abbrev count : Bool → ℕ
count true = 1
count false = 0

-- The buckets after a run, with how often a key was allowed.
unfoldable pub allowed_count : Limiter → String → List Op → Buckets → ℕ
allowed_count l key [] m = 0
allowed_count l key (allows k now ∷ os) m =
    let (m', b) = allow l k now m in
    let rest = allowed_count l key os m' in if str_eq k key then count b + rest else rest
allowed_count l key (sweeps now ∷ os) m = allowed_count l key os (sweep l now m)

-- What a bucket has ever used bounds the tokens taken since the start, and a key without a bucket has
-- had the time to fill one.
abbrev Bounded : Limiter → ℕ → ℕ → ℕ → Option Bucket → Type 0
Bounded l start n now none = n * token + l.rps * start ≤ l.rps * now
Bounded l start n now (some b) =
    (n * token + l.rps * start ≤ b.used + l.rps * b.last_update)
    × (b.used ≤ l.burst * token)
    × (b.last_update ≤ now)

Bounded-later :
    (l : Limiter) (start n now later : ℕ) (o : Option Bucket)
    → now ≤ later
    → Bounded l start n now o
    → Bounded l start n later o
Bounded-later l start n now later none le h = omega (arith, h, mul-le-mul_left l.rps le)
Bounded-later l start n now later (some b) le (h, u, d) = (h, u, omega arith)

kept_at : Limiter → ℕ → Option Bucket → Option Bucket
kept_at l now none = none
kept_at l now (some b) = if ltb l.ttl (now - b.last_update) then none else some b

find-sweep-none :
    (l : Limiter) (now : ℕ) (key : String) (m : Buckets)
    → find key m ≡ none
    → find key (sweep l now m) ≡ none
unfolding find sweep
find-sweep-none l now key [] h = refl
find-sweep-none l now key ((k, b) ∷ m) h = ground (arith, find-sweep-none l now key m)

find-sweep :
    (l : Limiter) (now : ℕ) (key : String) (m : Buckets)
    → Distinct m
    → find key (sweep l now m) ≡ kept_at l now (find key m)
unfolding find sweep kept_at
find-sweep l now key [] d = refl
find-sweep l now key ((k, b) ∷ m) (d, ds) = elim (Bool-cases (str_eq k key)) [
  | inl e ↦
      let same : k ≡ key = (str_eq_iff k key).0 e in
      let gone : find key (sweep l now m) ≡ none =
        find-sweep-none l now key m (subst (λ x. find x m ≡ none) same d) in
      ground (arith, e, gone)
  | inr e ↦ ground (arith, e, find-sweep l now key m ds)
]

sweep-Distinct : (l : Limiter) (now : ℕ) (m : Buckets) → Distinct m → Distinct (sweep l now m)
unfolding sweep
sweep-Distinct l now [] d = tt
sweep-Distinct l now ((k, b) ∷ m) (d, ds) = elim (Bool-cases (ltb l.ttl (now - b.last_update))) [
  | inl e ↦ rw (e, sweep) (sweep-Distinct l now m ds)
  | inr e ↦ rw (e, sweep) (find-sweep-none l now k m d, sweep-Distinct l now m ds)
]

-- A bucket that is swept had the time to fill.
Bounded-swept :
    (l : Limiter) (start n now : ℕ) (o : Option Bucket)
    → l.burst * token ≤ l.rps * l.ttl
    → Bounded l start n now o
    → Bounded l start n now (kept_at l now o)
unfolding kept_at
Bounded-swept l start n now none fills h = h
Bounded-swept l start n now (some b) fills (h, u, d) =
    elim (Bool-cases (ltb l.ttl (now - b.last_update))) [
      | inl e ↦
          let over : l.ttl + b.last_update ≤ now = ground (arith, e, d) in
          rw e (omega (arith, h, u, fills, mul-le-mul_left l.rps over))
      | inr e ↦ rw e (h, u, d)
    ]

-- The bucket of an allowed_count request, and of another key.
allow-Bounded :
    (l : Limiter) (start n now : ℕ) (key : String) (m : Buckets)
    → 1 ≤ l.burst
    → Bounded l start n now (find key m)
    → Bounded l start (n + count (allow l key now m).1) now (find key (allow l key now m).0)
unfolding allow used_at
allow-Bounded l start n now key m pos h = elim (Option-cases (find key m)) [
  | inl e ↦
      let first : Bucket = record { used = token; last_update = now } in
      let h' : n * token + l.rps * start ≤ l.rps * now = subst (λ o. Bounded l start n now o) e h in
      rw (e, allow)
        (rw (find-put_hit key key first m (str_eq_refl key))
          (omega (arith, h'), omega (arith, pos), omega arith))
  | inr (b, e) ↦
      let (h', u, d) : Bounded l start n now (some b) = subst (λ o. Bounded l start n now o) e h in
      rw (e, allow)
        (elim (Bool-cases (leb (used_at l now b + token) (l.burst * token))) [
          | inl t ↦
              let next : Bucket = record { used = used_at l now b + token; last_update = now } in
              rw t (
                rw (find-put_hit key key next m (str_eq_refl key))
                  (omega (arith, h'), ground (arith, t), omega arith))
          | inr t ↦ rw t (rw e (omega (arith, h'), u, d))
        ])
]

allow_other :
    (l : Limiter) (now : ℕ) (k key : String) (m : Buckets)
    → str_eq k key ≡ false
    → find key (allow l k now m).0 ≡ find key m
unfolding allow
allow_other l now k key m ne = elim (Option-cases (find k m)) [
  | inl e ↦ rw (e, allow) (find-put_miss k key (record { used = token; last_update = now }) m ne)
  | inr (b, e) ↦ ground (
    arith,
    e,
    ne,
    find-put_miss k key (record { used = used_at l now b + token; last_update = now }) m ne,
  )
]

allow-Distinct :
    (l : Limiter) (now : ℕ) (k : String) (m : Buckets) → Distinct m → Distinct (allow l k now m).0
unfolding allow
allow-Distinct l now k m d = elim (Option-cases (find k m)) [
  | inl e ↦ rw (e, allow) (put-Distinct k (record { used = token; last_update = now }) m d)
  | inr (b, e) ↦
      rw (e, allow)
        (elim (Bool-cases (leb (used_at l now b + token) (l.burst * token))) [
          | inl t ↦
              rw t
                (put-Distinct k (record { used = used_at l now b + token; last_update = now }) m d)
          | inr t ↦ rw t d
        ])
]

Bounded-total :
    (l : Limiter) (start n now : ℕ) (o : Option Bucket)
    → Bounded l start n now o
    → n * token + l.rps * start ≤ l.burst * token + l.rps * now
Bounded-total l start n now none h = omega (arith, h)
Bounded-total l start n now (some b) (h, u, d) = omega (arith, h, u, mul-le-mul_left l.rps d)

module _ (l : Limiter) (key : String) (start : ℕ) where
  allowed_count-Bounded :
      (n now : ℕ) (os : List Op) (m : Buckets)
      → 1 ≤ l.burst
      → l.burst * token ≤ l.rps * l.ttl
      → InOrder now os
      → Distinct m
      → Bounded l start n now (find key m)
      → (n + allowed_count l key os m) * token + l.rps * start
        ≤ l.burst * token + l.rps * end_time now os
  unfolding allowed_count
  allowed_count-Bounded n now [] m pos fills ord d h =
      omega (arith, Bounded-total l start n now (find key m) h)
  allowed_count-Bounded n now (sweeps at ∷ os) m pos fills (le, ord) d h =
      allowed_count-Bounded n at os (sweep l at m) pos fills ord (sweep-Distinct l at m d) (
        subst (λ o. Bounded l start n at o) (sym (find-sweep l at key m d))
          (Bounded-swept l start n at (find key m) fills
            (Bounded-later l start n now at (find key m) le h)))
  allowed_count-Bounded n now (allows k at ∷ os) m pos fills (le, ord) d h =
      let later = Bounded-later l start n now at (find key m) le h in
      let m' = (allow l k at m).0 in
      elim (Bool-cases (str_eq k key)) [
        | inl e ↦
            let same : k ≡ key = (str_eq_iff k key).0 e in
            let taken =
              subst
                (λ x.
                  Bounded l start (n + count (allow l x at m).1) at (find key (allow l x at m).0))
                (sym same) (allow-Bounded l start n at key m pos later) in
            let rest =
              allowed_count-Bounded (n + count (allow l k at m).1) at os m' pos fills ord
                (allow-Distinct l at k m d) taken in
            rw e (omega (arith, rest))
        | inr e ↦ rw e (
            allowed_count-Bounded n at os m' pos fills ord (allow-Distinct l at k m d)
              (subst (λ o. Bounded l start n at o) (sym (allow_other l at k key m e)) later))
      ]

  -- With a burst of at least one token that fills again within the TTL, and calls and sweeps in
  -- the order of time: from no buckets on, a key is allowed no more often than the burst and
  -- the tokens that the elapsed time gives, whatever other keys ask for.
  pub rate_bound :
      (os : List Op)
      → 1 ≤ l.burst
      → l.burst * token ≤ l.rps * l.ttl
      → InOrder start os
      → allowed_count l key os [] * token + l.rps * start
        ≤ l.burst * token + l.rps * end_time start os
  rate_bound os pos fills ord =
      let none_yet : Bounded l start 0 start (find key []) =
        subst (λ o. Bounded l start 0 start o) (sym (find-empty {V = Bucket} key)) (omega arith) in
      omega (arith, allowed_count-Bounded 0 start os [] pos fills ord tt none_yet)
