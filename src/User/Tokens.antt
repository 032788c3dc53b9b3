-- ===== src/User/Tokens.antt =====
-- internal/user/refresh_token_store.go: the refresh tokens in Redis. The Lua scripts are functions on
-- three tables, one for each prefix of a key; `at` is the time at which Redis runs a script and `now`
-- the caller's clock, in milliseconds. auth.HashToken, a SHA-256, is a parameter.
pub mod Indexed
pub mod Reuse
use go_chat_msa.Common.{
  ℕ, ◌+◌, ◌-◌, String, Bool, true, false, Option, none, some, List, [], ◌∷◌, ltb, leb, ◌==◌, str_eq,
  ◌||◌, not, if◌then◌else◌, find, put, remove,
}
use go_chat_msa.Websocket.Lease.{Net, delivered, call_lost, reply_lost}

-- A string under a key, and the time at which it expires.
pub record Entry : Type 0 where
  pub user_id : String
  pub expires_at : ℕ

-- A sorted set under a key: its members with their scores, and the time at which it expires.
pub record Index : Type 0 where
  pub members : List (String × ℕ)
  pub expires_at : ℕ

-- The keys with the prefixes "auth:rt:active:", "auth:rt:used:" and "auth:rt:user:".
pub record Tokens : Type 0 where
  pub active : List (String × Entry)
  pub used : List (String × Entry)
  pub index : List (String × Index)

-- GET, and what a sorted set reads as; a key that expired is not there.
abbrev pub live : ℕ → Option Entry → Option String
live at none = none
live at (some e) = if ltb at e.expires_at then some e.user_id else none

abbrev pub live_members : ℕ → Option Index → List (String × ℕ)
live_members at none = []
live_members at (some ix) = if ltb at ix.expires_at then ix.members else []

abbrev pub active_user : ℕ → String → Tokens → Option String
active_user at digest t = live at (find digest t.active)

abbrev pub used_user : ℕ → String → Tokens → Option String
used_user at digest t = live at (find digest t.used)

abbrev pub members_of : ℕ → String → Tokens → List (String × ℕ)
members_of at user t = live_members at (find user t.index)

-- ZREMRANGEBYSCORE from -inf.
unfoldable pub prune : ℕ → List (String × ℕ) → List (String × ℕ)
prune top [] = []
prune top ((d, score) ∷ ms) =
    let rest = prune top ms in if leb score top then rest else (d, score) ∷ rest

-- The loop of DEL over the digests of a user.
unfoldable pub delete_active : List (String × ℕ) → List (String × Entry) → List (String × Entry)
delete_active [] active = active
delete_active ((d, score) ∷ ms) active = delete_active ms (remove d active)

-- The lines that add a digest to the index of a user: the scores up to the bound go, and the key
-- expires after the TTL.
abbrev pub add_to_index : ℕ → ℕ → String → String → ℕ → ℕ → Tokens → Tokens
add_to_index at top user digest score ttl t = record t {
  index =
      put user
        (record {
          members = put digest score (prune top (members_of at user t));
          expires_at = at + ttl;
        })
        t.index;
}

-- The end of the scripts that find a token used, and the script for one user.
unfoldable pub revoke_user_lua : ℕ → String → Tokens → Tokens
revoke_user_lua at user t = record t {
  active = delete_active (members_of at user t) t.active;
  index = remove user t.index;
}

unfoldable pub issue_lua : ℕ → String → String → ℕ → ℕ → Tokens → Tokens × ℕ
issue_lua at digest user ttl expires_at t = elim (active_user at digest t) [
  | some old ↦ (t, 0)
  | none ↦ (
    add_to_index at (expires_at - ttl) user digest expires_at ttl (record t {
      active = put digest (record { user_id = user; expires_at = at + ttl }) t.active;
    }),
    1,
  )
]

abbrev pub Reply : Type 0
Reply = ℕ × String

-- What the scripts do with a token that is not active.
unfoldable pub reused_lua : ℕ → String → Tokens → Tokens × Reply
reused_lua at digest t = elim (used_user at digest t) [
  | none ↦ (t, (0, ""))
  | some user ↦ (revoke_user_lua at user t, (2, user))
]

unfoldable pub validate_lua : ℕ → String → Tokens → Tokens × Reply
validate_lua at digest t = elim (active_user at digest t) [
  | some user ↦ (t, (1, user))
  | none ↦ reused_lua at digest t
]

-- PTTL of a live key is the time left, and the script falls back on the TTL below 1.
abbrev pub remaining_ttl : ℕ → Option Entry → ℕ → ℕ
remaining_ttl at none ttl = ttl
remaining_ttl at (some e) ttl = if ltb (e.expires_at - at) 1 then ttl else e.expires_at - at

unfoldable pub rotate_lua : ℕ → String → String → ℕ → ℕ → Tokens → Tokens × Reply
rotate_lua at old new ttl now t = elim (active_user at old t) [
  | none ↦ reused_lua at old t
  | some user ↦
      let left = remaining_ttl at (find old t.active) ttl in
      let moved = record t {
        active = put new (record { user_id = user; expires_at = at + ttl }) (remove old t.active);
        used = put old (record { user_id = user; expires_at = at + left }) t.used;
      } in
      (
        record moved {
          index =
              put user
                (record {
                  members = put new (now + ttl) (remove old (prune now (members_of at user moved)));
                  expires_at = at + ttl;
                })
                moved.index;
        },
        (1, user),
      )
]

unfoldable pub revoke_lua : ℕ → String → Tokens → Tokens
revoke_lua at digest t = elim (active_user at digest t) [
  | none ↦ t
  | some user ↦ record t {
    active = remove digest t.active;
    index = elim (find user t.index) [
      | none ↦ t.index
      | some ix ↦ put user (record ix { members = remove digest ix.members }) t.index
    ];
  }
]

-- The results of the methods; every error of theirs is `failed`.
pub data Status : Type 0 where
  invalid valid reused : Status

pub data Result (A : Type 0) : Type 0 where
  ok : A → Result A
  failed : Result A

-- `parseRefreshTokenValidation` and `parseRefreshTokenRotation`, on a pair of a number and a text;
-- `valid` stands for Active and for Rotated.
unfoldable pub parse_reply : Reply → Result (Status × String)
parse_reply (code, user) =
    if code == 0
    then ok (invalid, "")
    else if code == 1
    then ok (valid, user)
    else if code == 2
    then ok (reused, user)
    else failed

-- A script over the network: the tables after it, and its answer if one comes.
abbrev pub call : {A : Type 0} → Net → (Tokens → Tokens × A) → Tokens → Tokens × Option A
call delivered script t = let (t', a) = script t in (t', some a)
call call_lost script t = (t, none)
call reply_lost script t = ((script t).0, none)

abbrev pub parsed : Option Reply → Result (Status × String)
parsed none = failed
parsed (some r) = parse_reply r

abbrev pub issued : Option ℕ → Result (Unit {0})
issued none = failed
issued (some n) = if n == 1 then ok tt else failed

abbrev pub done : Option (Unit {0}) → Result (Unit {0})
done none = failed
done (some u) = ok tt

-- `validateRefreshTokenStoreInput`.
unfoldable pub valid_input : String → String → ℕ → Bool
valid_input user token ttl = not (str_eq user "" || str_eq token "" || ttl == 0)

module _ (hash : String → String) where
  -- A TTL is a whole number of milliseconds, 0 for one that is not positive.
  unfoldable pub issue : Net → ℕ → ℕ → String → String → ℕ → Tokens → Tokens × Result (Unit {0})
  issue net at now user token ttl t =
      if valid_input user token ttl
      then (let (t', r) = call net (issue_lua at (hash token) user ttl (now + ttl)) t in
          (t', issued r))
      else (t, failed)

  unfoldable pub validate : Net → ℕ → String → Tokens → Tokens × Result (Status × String)
  validate net at token t =
      if str_eq token ""
      then (t, failed)
      else let (t', r) = call net (validate_lua at (hash token)) t in (t', parsed r)

  unfoldable pub rotate :
      Net → ℕ → ℕ → String → String → ℕ → Tokens → Tokens × Result (Status × String)
  rotate net at now old new ttl t =
      if str_eq old "" || str_eq new "" || ttl == 0
      then (t, failed)
      else let (t', r) = call net (rotate_lua at (hash old) (hash new) ttl now) t in (t', parsed r)

  unfoldable pub revoke : Net → ℕ → String → Tokens → Tokens × Result (Unit {0})
  revoke net at token t =
      if str_eq token ""
      then (t, failed)
      else let (t', r) = call net (λ x. (revoke_lua at (hash token) x, tt)) t in (t', done r)

unfoldable pub revoke_user : Net → ℕ → String → Tokens → Tokens × Result (Unit {0})
revoke_user net at user t =
    if str_eq user ""
    then (t, failed)
    else let (t', r) = call net (λ x. (revoke_user_lua at user x, tt)) t in (t', done r)
