-- ===== src/Examples/Tokens.antt =====
-- Two signed-in sessions of one user, and a token that is rotated and used again.
use go_chat_msa.Common.{
  ℕ, ◌≡◌, ◌≢◌, refl, String, Option, none, some, false, List, [], ◌∷◌, find, put, remove, str_ne,
  arith, str_eq, if◌then◌else◌,
}
use go_chat_msa.Websocket.Lease.{delivered}
use go_chat_msa.User.Db.{Db, UserRow, find_user, find_username}
use go_chat_msa.User.Tx.{ok}
use go_chat_msa.User.Db.Users
use go_chat_msa.User.Rooms.Managing.{matches}
use go_chat_msa.User.Tokens.{
  Tokens, Entry, active_user, used_user, valid, reused, validate, rotate, issue,
}
use go_chat_msa.User.Tokens
use go_chat_msa.User.Tokens.Reuse.{
  Op, issues, rotates, apply, apply_all, no_tokens, reuse_revokes_all, rotated_once,
}
use go_chat_msa.User.Accounts.{Env, hashed, refresh_token, verify_user, issue_token_pair}
use go_chat_msa.User.Accounts.Refresh.{Moved, refresh_token_ok}
use go_chat_msa.User.Accounts.Verify.{Held, verify_user_ok}
use go_chat_msa.User.Accounts.SignIn.{reachable, verify_then_refresh}

abbrev parse : String → Option ℕ
parse s = if str_eq s "1" then some 1 else none

abbrev same : String → String
same s = s

-- Two tokens of the user 1, the first of which is rotated.
abbrev session : List Op
session =
    issues delivered 10 "1" "a" ∷ issues delivered 20 "1" "b" ∷ rotates delivered 30 "a" "c" ∷ []

reuse_revokes_all_example :
    let t = apply_all same 100 session no_tokens in
    let (t1, seen) = validate same delivered 40 "a" t in
    let (t2, turned) = rotate same delivered 40 40 "a" "d" 100 t in
    (seen ≡ Tokens.ok (reused, "1"))
    × (turned ≡ Tokens.ok (reused, "1"))
    × (active_user 40 "b" t1 ≢ some "1")
    × (active_user 40 "b" t2 ≢ some "1")
unfolding apply_all apply Tokens.issue Tokens.rotate Tokens.issue_lua Tokens.rotate_lua Tokens.prune
    Tokens.valid_input Tokens.revoke_user_lua Tokens.reused_lua find put remove
reuse_revokes_all_example =
    reuse_revokes_all same 100 session 40 "1" "a" "d" "b"
      (ground arith, (ground arith, (ground arith, tt))) (ground arith) (str_ne "a" "" refl)
      (str_ne "d" "" refl) (ground arith) refl refl

abbrev entry : Entry
entry = record { user_id = "1"; expires_at = 110 }

abbrev one_token : Tokens
one_token = record { active = ("a", entry) ∷ []; used = []; index = [] }

rotated_once_example :
    let (t1, turned) = rotate same delivered 30 30 "a" "b" 100 one_token in
    (turned ≡ Tokens.ok (valid, "1"))
    × ((validate same delivered 40 "b" t1).1 ≡ Tokens.ok (valid, "1"))
    × ((validate same delivered 40 "a" t1).1 ≡ Tokens.ok (reused, "1"))
    × ((rotate same delivered 40 40 "a" "c" 100 t1).1 ≡ Tokens.ok (reused, "1"))
unfolding find
rotated_once_example =
    rotated_once same 100 30 40 "a" "b" "c" entry one_token (str_ne "a" "" refl)
      (str_ne "b" "" refl) (str_ne "c" "" refl) (str_ne "a" "b" refl) (ground arith) refl
      (ground arith) (ground arith) (ground arith) (ground arith)

abbrev ann : UserRow
ann = record { id = 1; username = "ann"; password_hash = "h"; created_at = 0 }

abbrev db : Db
db = record { users = ann ∷ []; rooms = []; members = [] }

abbrev show : ℕ → String
show n = "1"

abbrev sign : String → String → Option String
sign s name = some "jwt"

abbrev env : Env
env = record {
  limits = record {
    min_username_length = 2;
    max_username_length = 10;
    min_password_length = 2;
    max_password_length = 10;
  };
  parse = parse;
  show = show;
  new_user = none;
  hash_password = λ s. hashed s;
  compare = λ h p. matches;
  hash = same;
  sign = sign;
  new_token = "b";
  ttl = 100;
  now = 31;
  at = 30;
  at_next = 32;
  net = delivered;
  net_next = delivered;
  fault = λ n. false;
}

refresh_token_ok_example :
    (user : String) × (id : ℕ) × (u : UserRow) × (active_user 30 "a" one_token ≡ some user)
    × (parse user ≡ some id)
    × (find_user id db.users ≡ some u)
    × (env.new_token ≡ "b")
    × Moved 32 "a" "b" user one_token (refresh_token env "a" db one_token).1
unfolding refresh_token find find_user Tokens.validate Tokens.validate_lua Tokens.rotate
    Tokens.rotate_lua Users.get_user_by_id Tokens.parse_reply
refresh_token_ok_example =
    refresh_token_ok env "a" "jwt" "b" db one_token (str_ne "a" "b" refl) refl

verify_then_refresh_example :
    (refresh_token (reachable env 50 51 51 "c") "b" db (verify_user env "ann" "p" db no_tokens).1).0
    ≡ ok ("jwt", "c")
unfolding verify_user issue_token_pair find find_username find_user Users.get_user_by_username
    Tokens.valid_input Tokens.issue Tokens.issue_lua
verify_then_refresh_example =
    verify_then_refresh env 50 51 51 1 "ann" "p" "jwt" "b" "c" "jwt" db no_tokens ann refl
      (ground arith) (ground arith) (str_ne "c" "" refl) refl refl refl

verify_user_ok_example :
    (u : UserRow) × (find_username "ann" db.users ≡ some u)
    × (u.id ≡ 1)
    × (env.compare u.password_hash "p" ≡ matches)
    × (◌≢◌ {A = String} "b" "")
    × Held 30 100 "b" "1" (verify_user env "ann" "p" db no_tokens).1
unfolding verify_user issue_token_pair find find_username Users.get_user_by_username
    Tokens.valid_input Tokens.issue Tokens.issue_lua
verify_user_ok_example = verify_user_ok env "ann" "p" db no_tokens 1 "jwt" "b" refl
