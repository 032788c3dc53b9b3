-- ===== src/User/Db.antt =====
-- internal/user/db/room.sql.go and user.sql.go: the SQL statements as functions on tables, with the
-- keys and the cascades that db/migrations/postgres declares. A UUID is a number; times are numbers.
pub mod Users
pub mod Lists
use go_chat_msa.Common.{
  ℕ, suc, String, Bool, true, false, not, ◌&&◌, ◌||◌, Option, none, some, List, [], ◌∷◌, ◌++◌, map,
  ◌==◌, ltb, str_eq, if◌then◌else◌, keep, is_some,
}

pub record UserRow : Type 0 where
  pub id : ℕ
  pub username : String
  pub password_hash : String
  pub created_at : ℕ

pub record RoomRow : Type 0 where
  pub id : ℕ
  pub name : String
  pub manager_id : Option ℕ
  pub capacity : ℕ  -- int32
  pub created_at : ℕ

pub record MemberRow : Type 0 where
  pub user_id : ℕ
  pub room_id : ℕ
  pub joined_at : ℕ

pub record Db : Type 0 where
  pub users : List UserRow
  pub rooms : List RoomRow
  pub members : List MemberRow

-- What a statement gives: a row, pgx.ErrNoRows, the violation of a constraint, or another error.
pub data Answer (A : Type 0) : Type 0 where
  row : A → Answer A
  no_rows violation failed : Answer A

abbrev pub row_or_none : {A : Type 0} → Option A → Answer A
row_or_none none = no_rows
row_or_none (some a) = row a

unfoldable pub find_user : ℕ → List UserRow → Option UserRow
find_user i [] = none
find_user i (u ∷ us) = if u.id == i then some u else find_user i us

unfoldable pub find_username : String → List UserRow → Option UserRow
find_username n [] = none
find_username n (u ∷ us) = if str_eq u.username n then some u else find_username n us

unfoldable pub find_room : ℕ → List RoomRow → Option RoomRow
find_room i [] = none
find_room i (r ∷ rs) = if r.id == i then some r else find_room i rs

abbrev pub is_member : ℕ → ℕ → MemberRow → Bool
is_member room user m = m.room_id == room && m.user_id == user

unfoldable pub find_member : ℕ → ℕ → List MemberRow → Option MemberRow
find_member room user [] = none
find_member room user (m ∷ ms) = if is_member room user m then some m else find_member room user ms

unfoldable pub count_members : ℕ → List MemberRow → ℕ
count_members room [] = 0
count_members room (m ∷ ms) =
    let rest = count_members room ms in if m.room_id == room then suc rest else rest

abbrev pub manager_exists : Option ℕ → List UserRow → Bool
manager_exists none us = true
manager_exists (some u) us = is_some (find_user u us)

-- CreateRoom; the primary key is checked, and the manager must be a user.
unfoldable pub create_room : RoomRow → Db → Answer RoomRow × Db
create_room r db =
    if is_some (find_room r.id db.rooms) || not (manager_exists r.manager_id db.users)
    then (violation, db)
    else (row r, record db { rooms = db.rooms ++ r ∷ [] })

-- CreateRoomMember, with ON CONFLICT DO NOTHING.
unfoldable pub create_room_member : MemberRow → Db → Answer (Unit {0}) × Db
create_room_member m db =
    if is_some (find_member m.room_id m.user_id db.members)
    then (row tt, db)
    else if is_some (find_user m.user_id db.users) && is_some (find_room m.room_id db.rooms)
    then (row tt, record db { members = db.members ++ m ∷ [] })
    else (violation, db)

abbrev pub managed_by : ℕ → Option ℕ → Bool
managed_by u none = false
managed_by u (some v) = v == u

-- DeleteRoom; the members of a deleted room go with it.
unfoldable pub delete_room : ℕ → Option ℕ → Db → Answer ℕ × Db
delete_room id manager db = elim manager [
  | none ↦ (no_rows, db)
  | some u ↦ elim (find_room id db.rooms) [
    | none ↦ (no_rows, db)
    | some r ↦
        if managed_by u r.manager_id
        then (
          row id,
          record db {
            rooms = keep (λ x. not (x.id == id)) db.rooms;
            members = keep (λ m. not (m.room_id == id)) db.members;
          },
        )
        else (no_rows, db)
  ]
]

-- DeleteRoomMember.
unfoldable pub delete_room_member : ℕ → ℕ → Db → Answer (Unit {0}) × Db
delete_room_member room user db =
    (row tt, record db { members = keep (λ m. not (is_member room user m)) db.members })

-- ExistsRoomMember, with its join on the room.
unfoldable pub exists_room_member : ℕ → ℕ → Db → Answer Bool × Db
exists_room_member room user db =
    (row (is_some (find_room room db.rooms) && is_some (find_member room user db.members)), db)

-- GetMemberJoinedAt.
unfoldable pub get_member_joined_at : ℕ → ℕ → Db → Answer ℕ × Db
get_member_joined_at room user db = elim (find_room room db.rooms) [
  | none ↦ (no_rows, db)
  | some r ↦ elim (find_member room user db.members) [
    | none ↦ (no_rows, db)
    | some m ↦ (row m.joined_at, db)
  ]
]

abbrev pub older : MemberRow → Option MemberRow → Option MemberRow
older m none = some m
older m (some n) = if ltb n.joined_at m.joined_at then some n else some m

-- The member of a room that joined first; among equal times the statement leaves it open, and
-- the first row is taken.
unfoldable pub oldest : ℕ → List MemberRow → Option MemberRow
oldest room [] = none
oldest room (m ∷ ms) = let rest = oldest room ms in if m.room_id == room then older m rest else rest

abbrev pub member_or_none : Option MemberRow → Answer ℕ
member_or_none none = no_rows
member_or_none (some m) = row m.user_id

unfoldable pub get_oldest_room_member : ℕ → Db → Answer ℕ × Db
get_oldest_room_member room db = (member_or_none (oldest room db.members), db)

-- GetRoomForUpdate; the lock that it takes is the serialization of transactions on one room.
unfoldable pub get_room_for_update : ℕ → Db → Answer RoomRow × Db
get_room_for_update id db = (row_or_none (find_room id db.rooms), db)

-- GetRoomMemberCount.
unfoldable pub get_room_member_count : ℕ → Db → Answer ℕ × Db
get_room_member_count id db = (row (count_members id db.members), db)

-- ListJoinedRoomIDsForUpdate.
unfoldable pub joined_rooms : ℕ → List MemberRow → List ℕ
joined_rooms user [] = []
joined_rooms user (m ∷ ms) =
    let rest = joined_rooms user ms in if m.user_id == user then m.room_id ∷ rest else rest

unfoldable pub list_joined_room_ids_for_update : ℕ → Db → Answer (List ℕ) × Db
list_joined_room_ids_for_update user db =
    (row (keep (λ i. is_some (find_room i db.rooms)) (joined_rooms user db.members)), db)

abbrev pub change_room : (RoomRow → Bool) → (RoomRow → RoomRow) → List RoomRow → List RoomRow
change_room p f = map (λ r. if p r then f r else r)

-- UpdateRoom.
unfoldable pub update_room : ℕ → String → ℕ → ℕ → Db → Answer ℕ × Db
update_room id name capacity manager db = elim (find_room id db.rooms) [
  | none ↦ (no_rows, db)
  | some r ↦
      if managed_by manager r.manager_id
      then (
        row id,
        record db {
          rooms =
              change_room (λ x. x.id == id) (λ x. record x { name = name; capacity = capacity })
                db.rooms;
        },
      )
      else (no_rows, db)
]

-- UpdateRoomManager.
unfoldable pub update_room_manager : ℕ → ℕ → Db → Answer (Unit {0}) × Db
update_room_manager id user db = (
  row tt,
  record db {
    rooms = change_room (λ x. x.id == id) (λ x. record x { manager_id = some user }) db.rooms;
  },
)

-- DeleteUser: the memberships go with the user, and the rooms that the user managed lose their
-- manager.
unfoldable pub delete_user : ℕ → Db → Answer ℕ × Db
delete_user id db = elim (find_user id db.users) [
  | none ↦ (no_rows, db)
  | some u ↦ (
    row id,
    record db {
      users = keep (λ x. not (x.id == id)) db.users;
      members = keep (λ m. not (m.user_id == id)) db.members;
      rooms =
          change_room (λ r. managed_by id r.manager_id) (λ r. record r { manager_id = none })
            db.rooms;
    },
  )
]
