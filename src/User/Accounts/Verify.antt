-- ===== src/User/Accounts/Verify.antt =====
-- internal/user/service.go: what a successful VerifyUser means, and that RefreshToken then accepts the
-- token that it issued.
use go_chat_msa.Common.{
  ℕ, ◌+◌, ◌<◌, ◌≡◌, ◌≢◌, refl, sym, subst, String, true, none, some, str_eq, str_eq_refl, find,
  find-put_hit, Bool-cases, Option-cases, inl, inr, arith,
}
use go_chat_msa.Websocket.Lease.{Net, delivered, call_lost, reply_lost}
use go_chat_msa.User.Db.{Db, UserRow, Answer, row, no_rows, violation, failed, find_username}
use go_chat_msa.User.Db.Users
use go_chat_msa.User.Tx.{Result, ok, err, alone}
use go_chat_msa.User.Rooms.Managing.{Compared, matches, compared_error}
use go_chat_msa.User.Tokens
use go_chat_msa.User.Tokens.{
  Tokens, Entry, Status, invalid, valid, reused, active_user, issue, issue_lua, valid_input,
  add_to_index,
}
use go_chat_msa.User.Accounts.{Env, verify_user, verify_found, issue_token_pair, paired, with_id}

-- The token is there for the user, until its TTL is over.
abbrev pub Held : ℕ → ℕ → String → String → Tokens → Type 0
Held at ttl digest user t =
    (0 < ttl) × (find digest t.active ≡ some (record { user_id = user; expires_at = at + ttl }))

issue_lua-Held :
    (at ttl until : ℕ) (digest user : String) (t : Tokens)
    → 0 < ttl
    → (issue_lua at digest user ttl until t).1 ≡ 1
    → Held at ttl digest user (issue_lua at digest user ttl until t).0
unfolding issue_lua
issue_lua-Held at ttl until digest user t pos h = elim (Option-cases (active_user at digest t)) [
  | inl n ↦
      rw (n, issue_lua)
        (
          pos,
          find-put_hit digest digest (record { user_id = user; expires_at = at + ttl }) t.active
              (str_eq_refl digest),
        )
  | inr (u, n) ↦ ground (arith, h, n)
]

module _ (hash : String → String) where
  issue-Held :
      (net : Net) (at now ttl : ℕ) (user token : String) (t : Tokens)
      → (issue hash net at now user token ttl t).1 ≡ Tokens.ok tt
      → Held at ttl (hash token) user (issue hash net at now user token ttl t).0
  unfolding issue valid_input
  issue-Held delivered at now ttl user token t h = elim (Bool-cases (valid_input user token ttl)) [
    | inl b ↦
        rw (b, issue)
          (issue_lua-Held at ttl (now + ttl) (hash token) user t (ground (arith, b))
            (ground (arith, rw (b, issue) at h)))
    | inr b ↦ ground (arith, h, b)
  ]
  issue-Held call_lost at now ttl user token t h = ground arith
  issue-Held reply_lost at now ttl user token t h = ground arith

  named_token :
      (net : Net) (at now ttl : ℕ) (user token : String) (t : Tokens)
      → (issue hash net at now user token ttl t).1 ≡ Tokens.ok tt
      → token ≢ ""
  unfolding issue valid_input
  named_token net at now ttl user token t h same =
      let unnamed : str_eq token "" ≡ true =
        subst (λ s. str_eq s "" ≡ true) (sym same) (str_eq_refl "") in
      ground (arith, h, unnamed)

matched : (c : Compared) → compared_error c ≡ none → c ≡ matches
matched c h = ground arith

module _ (e : Env) where
  open e use {show, compare, hash, sign, new_token, ttl, now, at, net, fault}

  paired_ok :
      (access a r : String) (x : Tokens.Result (Unit {0}))
      → paired e access x ≡ ok (a, r)
      → (x ≡ Tokens.ok tt) × (new_token ≡ r)
  paired_ok access a r (Tokens.ok u) h = ground arith
  paired_ok access a r Tokens.failed h = cc

  with_id_ok :
      (n id : ℕ) (p : String × String) (x : Result (String × String))
      → with_id e n x ≡ ok (id, p)
      → (n ≡ id) × (x ≡ ok p)
  with_id_ok n id p (ok q) h = ground arith
  with_id_ok n id p (err b) h = cc

  issue_token_pair_ok :
      (u : UserRow) (t : Tokens) (a r : String)
      → (issue_token_pair e u t).0 ≡ ok (a, r)
      → (r ≢ "") × Held at ttl (hash r) (show u.id) (issue_token_pair e u t).1
  unfolding issue_token_pair
  issue_token_pair_ok u t a r h = elim (Option-cases (sign (show u.id) u.username)) [
    | inl n ↦ ground (arith, h, n)
    | inr (access, n) ↦
        let (x, same) =
          paired_ok access a r (issue hash net at now (show u.id) new_token ttl t).1
            (rw (n, issue_token_pair) at h) in
        let held = issue-Held hash net at now ttl (show u.id) new_token t x in
        rw (n, issue_token_pair)
          (subst
            (λ s.
              (s ≢ "")
              × Held at ttl (hash s) (show u.id)
                  (issue hash net at now (show u.id) new_token ttl t).0)
            same (named_token hash net at now ttl (show u.id) new_token t x, held))
  ]

  verify_found_ok :
      (password : String) (t : Tokens) (ans : Answer UserRow) (id : ℕ) (a r : String)
      → (verify_found e password t ans).0 ≡ ok (id, (a, r))
      → (u : UserRow) × (ans ≡ row u)
        × (u.id ≡ id)
        × (compare u.password_hash password ≡ matches)
        × (r ≢ "")
        × Held at ttl (hash r) (show id) (verify_found e password t ans).1
  verify_found_ok password t no_rows id a r h = cc
  verify_found_ok password t violation id a r h = cc
  verify_found_ok password t failed id a r h = cc
  verify_found_ok password t (row u) id a r h =
      elim (Option-cases (compared_error (compare u.password_hash password))) [
        | inl n ↦
            let (same, x) =
              with_id_ok u.id id (a, r) (issue_token_pair e u t).0 (rw (n, verify_found) at h) in
            let (named, held) = issue_token_pair_ok u t a r x in
            rw (n, verify_found)
              (
                u,
                refl,
                same,
                matched (compare u.password_hash password) n,
                named,
                subst (λ i. Held at ttl (hash r) (show i) (issue_token_pair e u t).1) same held,
              )
        | inr (c, n) ↦ ground (arith, h, n)
      ]

  name_found :
      (username : String) (db : Db) (u : UserRow)
      → alone fault (Users.get_user_by_username username) db ≡ row u
      → find_username username db.users ≡ some u
  unfolding Users.get_user_by_username
  name_found username db u h = elim (Option-cases (find_username username db.users)) [
    | inl n ↦ ground (arith, h, n)
    | inr (x, n) ↦ ground (arith, h, n)
  ]

  -- If VerifyUser returns an identifier and a pair, the user of that name is stored under that
  -- identifier, the password compared as equal to the stored hash, the refresh token is not
  -- empty, and it is active for that user with the full TTL, which is positive.
  pub verify_user_ok :
      (username password : String) (db : Db) (t : Tokens) (id : ℕ) (a r : String)
      → (verify_user e username password db t).0 ≡ ok (id, (a, r))
      → (u : UserRow) × (find_username username db.users ≡ some u)
        × (u.id ≡ id)
        × (compare u.password_hash password ≡ matches)
        × (r ≢ "")
        × Held at ttl (hash r) (show id) (verify_user e username password db t).1
  unfolding verify_user
  verify_user_ok username password db t id a r h =
      let (u, found, same, compared, named, held) =
        verify_found_ok password t (alone fault (Users.get_user_by_username username) db) id a r
          h in
      (u, name_found username db u found, same, compared, named, held)
