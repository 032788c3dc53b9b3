-- ===== src/Examples/Accounts.antt =====
-- Two users and a room for two, with statements that fail or do not.
use go_chat_msa.Common.{
  ℕ, refl, String, Option, none, some, true, false, List, [], ◌∷◌, ◌==◌, str_eq, if◌then◌else◌,
}
use go_chat_msa.User.Db.{Db, UserRow, find_room, count_members}
use go_chat_msa.User.Rooms.{Env}
use go_chat_msa.User.Rooms.Requests.{Request, create, join, leave, serve_all, serve_all-Fit}
use go_chat_msa.User.Rooms.Capacity.{Fit}

-- Identifiers are digits.
abbrev parse : String → Option ℕ
parse s =
    if str_eq s "1"
    then some 1
    else if str_eq s "2"
    then some 2
    else if str_eq s "9"
    then some 9
    else none

abbrev env : Env
env = record {
  parse = parse;
  new_id = some (9, 100);
  now = 200;
  fault = λ n. false;
  begins = true;
  commits = true;
  max_name_length = 50;
  max_capacity = 100;
}

-- The second statement of each transaction fails.
abbrev broken : Env
broken = record env { fault = λ n. n == 1 }

abbrev ann : UserRow
ann = record { id = 1; username = "ann"; password_hash = ""; created_at = 0 }

abbrev bob : UserRow
bob = record { id = 2; username = "bob"; password_hash = ""; created_at = 0 }

abbrev db : Db
db = record { users = ann ∷ bob ∷ []; rooms = []; members = [] }

db-Fit : Fit db
unfolding find_room count_members
db-Fit i = refl

abbrev requests : List (Env × Request)
requests =
    (broken, create "room" "1" 2)
    ∷ (env, create "room" "1" 2)
    ∷ (env, join "9" "2")
    ∷ (env, leave "9" "1")
    ∷ []

serve_all-Fit_example : Fit (serve_all requests db)
serve_all-Fit_example = serve_all-Fit requests db db-Fit
