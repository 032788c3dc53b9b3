-- ===== src/User/Accounts.antt =====
-- internal/user/service.go: CreateUser, VerifyUser, RefreshToken, RevokeToken and BatchGetUsers over
-- the tables of users and the store of refresh tokens.
pub mod Refresh
pub mod Verify
pub mod SignIn
use go_chat_msa.Common.{
  ℕ, String, Bool, true, false, not, Option, none, some, List, [], ◌∷◌, map, str_eq, if◌then◌else◌,
}
use go_chat_msa.Grpc.{
  Code, Error, status, internal, invalid_argument, already_exists, resource_exhausted, unavailable,
  unauthenticated,
}
use go_chat_msa.Websocket.Lease.{Net}
use go_chat_msa.User.Db.{Db, UserRow, Answer, row, no_rows, violation, failed}
use go_chat_msa.User.Db.Users
use go_chat_msa.User.Tx.{Result, ok, err, alone}
use go_chat_msa.User.Validation.{Limits, validate_username, validate_password}
use go_chat_msa.User.Rooms.Managing.{Compared, matches, compared_error}
use go_chat_msa.User.Tokens
use go_chat_msa.User.Tokens.{Tokens, Status, invalid, valid, reused}

-- What HashPassword of the hasher's pool answers.
pub data Hashed : Type 0 where
  hashed : String → Hashed
  queue_full closed broken : Hashed

-- What the methods get from outside. Redis runs the first script at `at`, the second at `at_next`,
-- while the server's clock shows `now`; `fault` says whether the first statement on users fails.
pub record Env : Type 0 where
  pub limits : Limits
  pub parse : String → Option ℕ  -- uuid.Parse
  pub show : ℕ → String  -- UUID.String
  pub new_user : Option (ℕ × ℕ)  -- uuid.NewV7 with its time
  pub hash_password : String → Hashed
  pub compare : String → String → Compared  -- a hash and a password
  pub hash : String → String  -- auth.HashToken
  pub sign : String → String → Option String  -- auth.GenerateJWT
  pub new_token : String  -- uuid.NewString
  pub ttl : ℕ
  pub now : ℕ
  pub at : ℕ
  pub at_next : ℕ
  pub net : Net
  pub net_next : Net
  pub fault : ℕ → Bool

abbrev pub hashed_error : Hashed → Code
hashed_error (hashed h) = internal
hashed_error queue_full = resource_exhausted
hashed_error closed = unavailable
hashed_error broken = internal

abbrev created : Answer UserRow → Result ℕ
created (row u) = ok u.id
created violation = err (status already_exists)
created no_rows = err (status internal)
created failed = err (status internal)

module _ (e : Env) where
  open e use {
    limits, parse, show, new_user, hash_password, compare, hash, sign, new_token, ttl, now, at,
    at_next, net, net_next, fault,
  }

  abbrev insert_user : String → String → ℕ × ℕ → Db → Result ℕ × Db
  insert_user username h (id, created_at) db =
      if fault 0
      then (err (status internal), db)
      else let (a, db') =
          Users.create_user
            (record { id = id; username = username; password_hash = h; created_at = created_at })
            db in
        (created a, db')

  unfoldable pub create_user : String → String → Db → Result ℕ × Db
  create_user username password db =
      if not (validate_username limits username)
      then (err (status invalid_argument), db)
      else if not (validate_password limits password)
      then (err (status invalid_argument), db)
      else elim (hash_password password) [
        | hashed h ↦ elim new_user [
          | none ↦ (err (status internal), db)
          | some made ↦ insert_user username h made db
        ]
        | queue_full ↦ (err (status resource_exhausted), db)
        | closed ↦ (err (status unavailable), db)
        | broken ↦ (err (status internal), db)
      ]

  abbrev pub Pair : Type 0
  Pair = String × String

  abbrev pub paired : String → Tokens.Result (Unit {0}) → Result Pair
  paired access (Tokens.ok u) = ok (access, new_token)
  paired access Tokens.failed = err (status internal)

  -- `issueTokenPair`.
  unfoldable pub issue_token_pair : UserRow → Tokens → Result Pair × Tokens
  issue_token_pair u t = elim (sign (show u.id) u.username) [
    | none ↦ (err (status internal), t)
    | some access ↦
        let (t', r) = Tokens.issue hash net at now (show u.id) new_token ttl t in
        (paired access r, t')
  ]

  abbrev pub with_id : ℕ → Result Pair → Result (ℕ × Pair)
  with_id id (ok p) = ok (id, p)
  with_id id (err x) = err x

  abbrev pub verify_found : String → Tokens → Answer UserRow → Result (ℕ × Pair) × Tokens
  verify_found password t no_rows = (err (status unauthenticated), t)
  verify_found password t violation = (err (status internal), t)
  verify_found password t failed = (err (status internal), t)
  verify_found password t (row u) = elim (compared_error (compare u.password_hash password)) [
    | some c ↦ (err (status c), t)
    | none ↦ let (r, t') = issue_token_pair u t in (with_id u.id r, t')
  ]

  unfoldable pub verify_user : String → String → Db → Tokens → Result (ℕ × Pair) × Tokens
  verify_user username password db t =
      verify_found password t (alone fault (Users.get_user_by_username username) db)

  -- The answer of `Rotate` for the user that `Validate` found.
  abbrev pub rotated_for : String → String → Tokens.Result (Status × String) → Result Pair
  rotated_for user access Tokens.failed = err (status internal)
  rotated_for user access (Tokens.ok (invalid, u)) = err (status unauthenticated)
  rotated_for user access (Tokens.ok (reused, u)) = err (status unauthenticated)
  rotated_for user access (Tokens.ok (valid, u)) =
      if str_eq u user then ok (access, new_token) else err (status internal)

  -- RefreshToken, once the token is valid and its user was looked up.
  abbrev pub refresh_found : String → String → Tokens → Answer UserRow → Result Pair × Tokens
  refresh_found token user t no_rows =
      (err (status unauthenticated), (Tokens.revoke_user net_next at_next user t).0)
  refresh_found token user t violation = (err (status internal), t)
  refresh_found token user t failed = (err (status internal), t)
  refresh_found token user t (row u) = elim (sign (show u.id) u.username) [
    | none ↦ (err (status internal), t)
    | some access ↦
        let (t', r) = Tokens.rotate hash net_next at_next now token new_token ttl t in
        (rotated_for user access r, t')
  ]

  abbrev pub refresh_checked :
      String → Db → Tokens → Tokens.Result (Status × String) → Result Pair × Tokens
  refresh_checked token db t Tokens.failed = (err (status internal), t)
  refresh_checked token db t (Tokens.ok (invalid, user)) = (err (status unauthenticated), t)
  refresh_checked token db t (Tokens.ok (reused, user)) = (err (status unauthenticated), t)
  refresh_checked token db t (Tokens.ok (valid, user)) = elim (parse user) [
    | none ↦ (err (status internal), t)
    | some id ↦ refresh_found token user t (alone fault (Users.get_user_by_id id) db)
  ]

  unfoldable pub refresh_token : String → Db → Tokens → Result Pair × Tokens
  refresh_token token db t =
      let (t', r) = Tokens.validate hash net at token t in refresh_checked token db t' r

  unfoldable pub revoke_token : String → Tokens → Result (Unit {0}) × Tokens
  revoke_token token t =
      let (t', r) = Tokens.revoke hash net at token t in
      (elim r [ Tokens.ok u ↦ ok tt | Tokens.failed ↦ err (status internal) ], t')

  -- The loop that parses the identifiers.
  unfoldable pub parse_all : List String → Option (List ℕ)
  parse_all [] = some []
  parse_all (s ∷ ss) = elim (parse s) [
    | none ↦ none
    | some i ↦ elim (parse_all ss) [ none ↦ none | some is ↦ some (i ∷ is) ]
  ]

  abbrev listed : Answer (List UserRow) → Result (List (ℕ × String × ℕ))
  listed (row us) = ok (map (λ u. (u.id, u.username, u.created_at)) us)
  listed no_rows = err (status internal)
  listed violation = err (status internal)
  listed failed = err (status internal)

  unfoldable pub batch_get_users : List String → Db → Result (List (ℕ × String × ℕ))
  batch_get_users [] db = ok []
  batch_get_users (s ∷ ss) db = elim (parse_all (s ∷ ss)) [
    | none ↦ err (status invalid_argument)
    | some ids ↦ listed (alone fault (Users.get_users_by_ids ids) db)
  ]
