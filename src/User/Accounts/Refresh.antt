-- ===== src/User/Accounts/Refresh.antt =====
-- internal/user/service.go: what a successful RefreshToken or VerifyUser means for the tokens.
use go_chat_msa.Common.{
  ℕ, ◌+◌, ◌<◌, ◌≡◌, ◌≢◌, refl, sym, ap, subst, ◌∙◌, String, none, some, str_eq, str_eq-false,
  str_eq_iff, str_eq_refl, find, remove, find-put_hit, find-put_miss, find-remove, Bool-cases,
  Option-cases, inl, inr, arith, ◌||◌, ◌==◌,
}
use go_chat_msa.Websocket.Lease.{Net, delivered, call_lost, reply_lost}
use go_chat_msa.User.Db.{Db, UserRow, Answer, row, no_rows, violation, failed, find_user}
use go_chat_msa.User.Db.Users
use go_chat_msa.User.Tx.{ok, alone}
use go_chat_msa.User.Tokens
use go_chat_msa.User.Tokens.{
  Tokens, Entry, Status, invalid, valid, reused, active_user, used_user, rotate, rotate_lua,
  reused_lua, issue, issue_lua, parse_reply, valid_input, validate, validate_lua, remaining_ttl,
  call,
}
use go_chat_msa.User.Accounts.{Env, refresh_token, refresh_checked, refresh_found, rotated_for}

-- A rotation that reports success moved the token: the user that had the old one has the new one.
abbrev pub Moved : ℕ → String → String → String → Tokens → Tokens → Type 0
Moved at old new user t t' =
    (active_user at old t ≡ some user)
    × (active_user at new t' ≡ some user)
    × (active_user at old t' ≡ none)
    × (used_user at old t' ≡ some user)

reused_not_valid :
    (at : ℕ) (digest user : String) (t : Tokens)
    → parse_reply (reused_lua at digest t).1 ≢ Tokens.ok (valid, user)
unfolding reused_lua parse_reply
reused_not_valid at digest user t h = elim (Option-cases (used_user at digest t)) [
  | inl n ↦ ground (arith, h, n)
  | inr (u, n) ↦ ground (arith, h, n)
]

rotate_lua_found :
    (at now ttl : ℕ) (old new user : String) (t : Tokens)
    → old ≢ new
    → 0 < ttl
    → active_user at old t ≡ some user
    → Moved at old new user t (rotate_lua at old new ttl now t).0
unfolding rotate_lua
rotate_lua_found at now ttl old new user t ne some_ttl e =
    let left = remaining_ttl at (find old t.active) ttl in
    let fresh : Entry = record { user_id = user; expires_at = at + ttl } in
    let spent : Entry = record { user_id = user; expires_at = at + left } in
    let new_there = find-put_hit new new fresh (remove old t.active) (str_eq_refl new) in
    let old_gone =
      find-put_miss new old fresh (remove old t.active) (str_eq-false new old (λ q. ne (sym q))) in
    let old_used = find-put_hit old old spent t.used (str_eq_refl old) in
    let removed = find-remove old old t.active in
    rw (e, rotate_lua)
      (
        refl,
        ground (arith, new_there),
        ground (arith, old_gone, removed, str_eq_refl old),
        ground (arith, old_used),
      )

rotate_lua-Moved :
    (at now ttl : ℕ) (old new user : String) (t : Tokens)
    → old ≢ new
    → 0 < ttl
    → parse_reply (rotate_lua at old new ttl now t).1 ≡ Tokens.ok (valid, user)
    → Moved at old new user t (rotate_lua at old new ttl now t).0
unfolding rotate_lua parse_reply
rotate_lua-Moved at now ttl old new user t ne some_ttl h =
    elim (Option-cases (active_user at old t)) [
      | inl e ↦ absurd (reused_not_valid at old user t (rw (e, rotate_lua) at h))
      | inr (u, e) ↦
          let same : u ≡ user = ground (arith, h, e) in
          rotate_lua_found at now ttl old new user t ne some_ttl (e ∙ ap some same)
    ]

module _ (hash : String → String) where
  rotate-Moved :
      (net : Net) (at now ttl : ℕ) (old new user : String) (t : Tokens)
      → hash old ≢ hash new
      → (rotate hash net at now old new ttl t).1 ≡ Tokens.ok (valid, user)
      → Moved at (hash old) (hash new) user t (rotate hash net at now old new ttl t).0
  unfolding rotate
  rotate-Moved delivered at now ttl old new user t ne h =
      elim (Bool-cases (str_eq old "" || str_eq new "" || ttl == 0)) [
        | inl b ↦ ground (arith, h, b)
        | inr b ↦
            rw (b, rotate)
              (rotate_lua-Moved at now ttl (hash old) (hash new) user t ne (ground arith)
                (rw (b, rotate) at h))
      ]
  rotate-Moved call_lost at now ttl old new user t ne h = ground arith
  rotate-Moved reply_lost at now ttl old new user t ne h = ground arith

validate_lua_valid :
    (at : ℕ) (digest user : String) (t : Tokens)
    → parse_reply (validate_lua at digest t).1 ≡ Tokens.ok (valid, user)
    → (active_user at digest t ≡ some user) × ((validate_lua at digest t).0 ≡ t)
unfolding validate_lua parse_reply
validate_lua_valid at digest user t h = elim (Option-cases (active_user at digest t)) [
  | inl e ↦ absurd (reused_not_valid at digest user t (rw (e, validate_lua) at h))
  | inr (u, e) ↦
      let same : u ≡ user = ground (arith, h, e) in rw (e, validate_lua) (ap some same, refl)
]

validate_valid :
    (hash : String → String) (net : Net) (at : ℕ) (token user : String) (t : Tokens)
    → (validate hash net at token t).1 ≡ Tokens.ok (valid, user)
    → (active_user at (hash token) t ≡ some user) × ((validate hash net at token t).0 ≡ t)
unfolding validate
validate_valid hash delivered at token user t h = elim (Bool-cases (str_eq token "")) [
  | inl b ↦ ground (arith, h, b)
  | inr b ↦ rw (b, validate) (validate_lua_valid at (hash token) user t (rw (b, validate) at h))
]
validate_valid hash call_lost at token user t h = ground arith
validate_valid hash reply_lost at token user t h = ground arith

module _ (e : Env) where
  open e use {parse, hash, sign, show, new_token, ttl, now, at, at_next, net, net_next, fault}

  rotated_for_ok :
      (user access a r : String) (x : Tokens.Result (Status × String))
      → rotated_for e user access x ≡ ok (a, r)
      → (x ≡ Tokens.ok (valid, user)) × (r ≡ new_token)
  rotated_for_ok user access a r Tokens.failed h = cc
  rotated_for_ok user access a r (Tokens.ok (invalid, u)) h = cc
  rotated_for_ok user access a r (Tokens.ok (reused, u)) h = cc
  rotated_for_ok user access a r (Tokens.ok (valid, u)) h = ground (arith, str_eq_iff u user)

  refresh_found_ok :
      (token user a r : String) (t : Tokens) (ans : Answer UserRow)
      → hash token ≢ hash new_token
      → (refresh_found e token user t ans).0 ≡ ok (a, r)
      → (u : UserRow) × (ans ≡ row u)
        × (r ≡ new_token)
        × Moved at_next (hash token) (hash new_token) user t (refresh_found e token user t ans).1
  refresh_found_ok token user a r t no_rows ne h = cc
  refresh_found_ok token user a r t violation ne h = cc
  refresh_found_ok token user a r t failed ne h = cc
  refresh_found_ok token user a r t (row u) ne h =
      elim (Option-cases (sign (show u.id) u.username)) [
        | inl n ↦ ground (arith, h, n)
        | inr (access, n) ↦
            let (x, same) =
              rotated_for_ok user access a r
                (rotate hash net_next at_next now token new_token ttl t).1
                (rw (n, refresh_found) at h) in
            (
              u,
              refl,
              same,
              rw (n, refresh_found)
                  (rotate-Moved hash net_next at_next now ttl token new_token user t ne x),
            )
      ]

  refresh_checked_ok :
      (token a r : String) (db : Db) (t : Tokens) (x : Tokens.Result (Status × String))
      → hash token ≢ hash new_token
      → (refresh_checked e token db t x).0 ≡ ok (a, r)
      → (user : String) × (id : ℕ) × (u : UserRow) × (x ≡ Tokens.ok (valid, user))
        × (parse user ≡ some id)
        × (alone fault (Users.get_user_by_id id) db ≡ row u)
        × (r ≡ new_token)
        × Moved at_next (hash token) (hash new_token) user t (refresh_checked e token db t x).1
  refresh_checked_ok token a r db t Tokens.failed ne h = cc
  refresh_checked_ok token a r db t (Tokens.ok (invalid, user)) ne h = cc
  refresh_checked_ok token a r db t (Tokens.ok (reused, user)) ne h = cc
  refresh_checked_ok token a r db t (Tokens.ok (valid, user)) ne h =
      elim (Option-cases (parse user)) [
        | inl n ↦ ground (arith, h, n)
        | inr (id, n) ↦
            let (u, found, same, moved) =
              refresh_found_ok token user a r t (alone fault (Users.get_user_by_id id) db) ne
                (rw (n, refresh_checked) at h) in
            (user, id, u, refl, n, found, same, rw (n, refresh_checked) moved)
      ]

  row_found :
      (id : ℕ) (db : Db) (u : UserRow)
      → alone fault (Users.get_user_by_id id) db ≡ row u
      → find_user id db.users ≡ some u
  unfolding Users.get_user_by_id
  row_found id db u h = elim (Option-cases (find_user id db.users)) [
    | inl n ↦ ground (arith, h, n)
    | inr (x, n) ↦ ground (arith, h, n)
  ]

  -- If RefreshToken returns a pair, for a new token with another hash: the old token was active
  -- for a user who is stored, the refresh token returned is the new one, and afterwards the new
  -- token is active for that user, the old one is not, and it is known as used by that user.
  pub refresh_token_ok :
      (token a r : String) (db : Db) (t : Tokens)
      → hash token ≢ hash new_token
      → (refresh_token e token db t).0 ≡ ok (a, r)
      → (user : String) × (id : ℕ) × (u : UserRow) × (active_user at (hash token) t ≡ some user)
        × (parse user ≡ some id)
        × (find_user id db.users ≡ some u)
        × (r ≡ new_token)
        × Moved at_next (hash token) (hash new_token) user t (refresh_token e token db t).1
  unfolding refresh_token
  refresh_token_ok token a r db t ne h =
      let checked = validate hash net at token t in
      let (user, id, u, x, parsed, found, same, moved) =
        refresh_checked_ok token a r db checked.0 checked.1 ne h in
      let (here, kept) = validate_valid hash net at token user t x in
      (
        user,
        id,
        u,
        here,
        parsed,
        row_found id db u found,
        same,
        subst
            (λ s. Moved at_next (hash token) (hash new_token) user s (refresh_token e token db t).1)
            kept moved,
      )
