-- ===== src/User/Db/Users.antt =====
-- internal/user/db/user.sql.go: the statements on users that no room method runs.
use go_chat_msa.Common.{
  ℕ, String, Bool, ◌||◌, List, [], ◌∷◌, ◌++◌, ◌==◌, if◌then◌else◌, is_some, keep,
}
use go_chat_msa.User.Db.{Db, UserRow, Answer, row, violation, row_or_none, find_user, find_username}

-- CreateUser; the primary key and the user name are checked, both with the code 23505.
unfoldable pub create_user : UserRow → Db → Answer UserRow × Db
create_user u db =
    if is_some (find_user u.id db.users) || is_some (find_username u.username db.users)
    then (violation, db)
    else (row u, record db { users = db.users ++ u ∷ [] })

-- GetUserByUsername.
unfoldable pub get_user_by_username : String → Db → Answer UserRow × Db
get_user_by_username name db = (row_or_none (find_username name db.users), db)

abbrev pub any_of : ℕ → List ℕ → Bool
any_of i [] = Bool.false
any_of i (j ∷ js) = j == i || any_of i js

-- GetUsersByIDs, with ANY.
unfoldable pub get_users_by_ids : List ℕ → Db → Answer (List UserRow) × Db
get_users_by_ids ids db = (row (keep (λ u. any_of u.id ids) db.users), db)

-- GetUserByID.
unfoldable pub get_user_by_id : ℕ → Db → Answer UserRow × Db
get_user_by_id id db = (row_or_none (find_user id db.users), db)
