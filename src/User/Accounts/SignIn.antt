-- ===== src/User/Accounts/SignIn.antt =====
-- internal/user/service.go: RefreshToken accepts the token that VerifyUser issued.
use go_chat_msa.Common.{
  ℕ, ◌+◌, ◌<◌, ◌≡◌, ◌≢◌, refl, ap, String, false, some, str_eq-false, str_eq_refl, arith, ◌==◌,
}
use go_chat_msa.Websocket.Lease.{delivered}
use go_chat_msa.User.Db.{Db, UserRow, find_user}
use go_chat_msa.User.Db.Users
use go_chat_msa.User.Tx.{ok}
use go_chat_msa.User.Tokens
use go_chat_msa.User.Tokens.{
  Tokens, Entry, Status, valid, active_user, rotate, rotate_lua, parse_reply, validate,
  validate_lua,
}
use go_chat_msa.User.Accounts.{Env, verify_user, refresh_token, refresh_found, refresh_checked}
use go_chat_msa.User.Accounts.Verify.{Held, verify_user_ok}

module _ (hash : String → String) where
  Held-live :
      (at later ttl : ℕ) (digest user : String) (t : Tokens)
      → Held at ttl digest user t
      → later < at + ttl
      → active_user later digest t ≡ some user
  Held-live at later ttl digest user t (pos, found) early = ground (arith, found, early)

  validate_ok :
      (at : ℕ) (user token : String) (t : Tokens)
      → token ≢ ""
      → active_user at (hash token) t ≡ some user
      → validate hash delivered at token t ≡ (t, Tokens.ok (valid, user))
  unfolding validate validate_lua parse_reply
  validate_ok at user token t named here =
      rw (str_eq-false token "" named, here, validate, validate_lua) refl

  rotate_ok :
      (at now ttl : ℕ) (old new user : String) (t : Tokens)
      → old ≢ ""
      → new ≢ ""
      → 0 < ttl
      → active_user at (hash old) t ≡ some user
      → (rotate hash delivered at now old new ttl t).1 ≡ Tokens.ok (valid, user)
  unfolding rotate rotate_lua parse_reply
  rotate_ok at now ttl old new user t n1 n2 pos here =
      let positive : (ttl == 0) ≡ false = ground arith in
      rw (str_eq-false old "" n1, str_eq-false new "" n2, positive, here, rotate, rotate_lua) refl

-- The servers reach Redis and the database, at times of their own; the next token is given.
abbrev pub reachable : Env → ℕ → ℕ → ℕ → String → Env
reachable e at next now new = record e {
  at = at;
  at_next = next;
  now = now;
  new_token = new;
  net = delivered;
  net_next = delivered;
  fault = λ n. false;
}

module _ (e : Env) where
  open e use {parse, show, hash, sign, ttl}

  refresh_accepts :
      (at next now id : ℕ) (token new access : String) (db : Db) (t : Tokens) (u : UserRow)
      → token ≢ ""
      → new ≢ ""
      → 0 < ttl
      → active_user at (hash token) t ≡ some (show id)
      → active_user next (hash token) t ≡ some (show id)
      → parse (show id) ≡ some id
      → find_user id db.users ≡ some u
      → sign (show u.id) u.username ≡ some access
      → (refresh_token (reachable e at next now new) token db t).0 ≡ ok (access, new)
  unfolding refresh_token Users.get_user_by_id
  refresh_accepts at next now id token new access db t u n1 n2 pos here there parsed found signed =
      rw (validate_ok hash at (show id) token t n1 here, parsed, refresh_token, refresh_checked)
        (rw
          (
            found,
            signed,
            ap (λ x. x.0) (validate_ok hash at (show id) token t n1 here),
            refresh_found,
            rotate_ok hash next now ttl token new (show id) t n1 n2 pos there,
            str_eq_refl (show id),
          )
          refl)

  -- If VerifyUser succeeds, RefreshToken accepts the refresh token that it returned and gives
  -- the next pair: when Redis and the database answer, its scripts run before the token's TTL
  -- is over, the user is still stored under the identifier, which reads back as itself, the
  -- next token is not empty, and the access token can be signed.
  pub verify_then_refresh :
      (at next now id : ℕ) (username password a r new access : String) (db : Db) (t : Tokens)
      (u : UserRow)
      → (verify_user e username password db t).0 ≡ ok (id, (a, r))
      → at < e.at + ttl
      → next < e.at + ttl
      → new ≢ ""
      → parse (show id) ≡ some id
      → find_user id db.users ≡ some u
      → sign (show u.id) u.username ≡ some access
      → (refresh_token
          (reachable e at next now new)
          r
          db
          (verify_user e username password db t).1).0
        ≡ ok (access, new)
  verify_then_refresh at next now id username password a r new access db t u h early early2 named
        parsed found signed =
      let (v, f, same, c, named_r, held) = verify_user_ok e username password db t id a r h in
      let t' = (verify_user e username password db t).1 in
      refresh_accepts at next now id r new access db t' u named_r named held.0
        (Held-live hash e.at at ttl (hash r) (show id) t' held early)
        (Held-live hash e.at next ttl (hash r) (show id) t' held early2) parsed found signed
