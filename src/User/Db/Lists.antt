-- ===== src/User/Db/Lists.antt =====
-- internal/user/db/room.sql.go: the statements that list and search. Rows of the same time, whose order
-- SQL leaves open, keep the order of their table; ILIKE is a parameter.
use go_chat_msa.Common.{
  ℕ, zero, suc, ◌≡◌, refl, ◌∙◌, ap, String, Bool, false, ◌&&◌, ◌||◌, Option, none, some, List, [],
  ◌∷◌, ltb, slt_32, ◌==◌, ==_iff, length, take, keep, if◌then◌else◌, is_some, Bool-cases,
  Option-cases, inl, inr, arith,
}
use go_chat_msa.User.Db.{
  Db, RoomRow, MemberRow, UserRow, Answer, row, failed, find_room, find_user, find_member,
  count_members,
}

pub record ListRoomMembersRow : Type 0 where
  pub id : ℕ
  pub username : String
  pub joined_at : ℕ

pub record ListJoinedRoomsRow : Type 0 where
  pub room : RoomRow
  pub joined_at : ℕ
  pub member_count : ℕ

pub record SearchRoomsRow : Type 0 where
  pub room : RoomRow
  pub total_count : ℕ
  pub member_count : ℕ

-- ORDER BY, with whether a row comes strictly before another.
unfoldable pub insert_row : {A : Type 0} → (A → A → Bool) → A → List A → List A
insert_row before x [] = x ∷ []
insert_row before x (y ∷ ys) =
    let rest = insert_row before x ys in if before y x then y ∷ rest else x ∷ y ∷ ys

unfoldable pub order_by : {A : Type 0} → (A → A → Bool) → List A → List A
order_by before [] = []
order_by before (x ∷ xs) = insert_row before x (order_by before xs)

abbrev pub earlier : ListRoomMembersRow → ListRoomMembersRow → Bool
earlier x y = ltb x.joined_at y.joined_at

abbrev later : ListJoinedRoomsRow → ListJoinedRoomsRow → Bool
later x y = ltb y.joined_at x.joined_at

abbrev newer : RoomRow → RoomRow → Bool
newer x y = ltb y.created_at x.created_at

abbrev pub with_member :
    MemberRow → Option UserRow → List ListRoomMembersRow → List ListRoomMembersRow
with_member m none rest = rest
with_member m (some u) rest =
    record { id = u.id; username = u.username; joined_at = m.joined_at } ∷ rest

-- The join of the members of a room with the users.
unfoldable pub members_of_room : ℕ → List UserRow → List MemberRow → List ListRoomMembersRow
members_of_room room us [] = []
members_of_room room us (m ∷ ms) =
    let rest = members_of_room room us ms in
    if m.room_id == room then with_member m (find_user m.user_id us) rest else rest

-- ListRoomMembers, with its join on the room.
unfoldable pub list_room_members : ℕ → Db → Answer (List ListRoomMembersRow) × Db
list_room_members room db = (
  row (
      if is_some (find_room room db.rooms)
      then order_by earlier (members_of_room room db.users db.members)
      else []),
  db,
)

abbrev with_room :
    List MemberRow → MemberRow → Option RoomRow → List ListJoinedRoomsRow → List ListJoinedRoomsRow
with_room all m none rest = rest
with_room all m (some r) rest =
    record { room = r; joined_at = m.joined_at; member_count = count_members r.id all } ∷ rest

unfoldable rooms_of_user :
    ℕ → List RoomRow → List MemberRow → List MemberRow → List ListJoinedRoomsRow
rooms_of_user user rs all [] = []
rooms_of_user user rs all (m ∷ ms) =
    let rest = rooms_of_user user rs all ms in
    if m.user_id == user then with_room all m (find_room m.room_id rs) rest else rest

-- ListJoinedRooms.
unfoldable pub list_joined_rooms : ℕ → Db → Answer (List ListJoinedRoomsRow) × Db
unfolding rooms_of_user
list_joined_rooms user db =
    (row (order_by later (rooms_of_user user db.rooms db.members db.members)), db)

abbrev skip : {A : Type 0} → ℕ → List A → List A
skip zero xs = xs
skip (suc n) [] = []
skip (suc n) (x ∷ xs) = skip n xs

abbrev search_row : ℕ → List MemberRow → RoomRow → SearchRoomsRow
search_row total ms r = record {
  room = r;
  total_count = total;
  member_count = count_members r.id ms;
}

abbrev search_rows : ℕ → List MemberRow → List RoomRow → List SearchRoomsRow
search_rows total ms [] = []
search_rows total ms (r ∷ rs) = search_row total ms r ∷ search_rows total ms rs

-- SearchRooms, with whether a name matches; a negative limit or offset is an error.
unfoldable pub search_rooms : (String → Bool) → ℕ → ℕ → Db → Answer (List SearchRoomsRow) × Db
search_rooms matches limit offset db =
    let found = keep (λ r. matches r.name) db.rooms in
    if slt_32 limit 0 || slt_32 offset 0 then (failed, db) else (
      row (search_rows (length found) db.members (take limit (skip offset (order_by newer found)))),
      db,
    )

-- Whether a user is among the rows.
unfoldable pub listed : ℕ → List ListRoomMembersRow → Bool
listed v [] = false
listed v (x ∷ xs) = x.id == v || listed v xs

listed-insert_row :
    (v : ℕ) (x : ListRoomMembersRow) (xs : List ListRoomMembersRow)
    → listed v (insert_row earlier x xs) ≡ (x.id == v || listed v xs)
unfolding listed insert_row
listed-insert_row v x [] = refl
listed-insert_row v x (y ∷ ys) = ground (arith, listed-insert_row v x ys)

pub listed-order_by :
    (v : ℕ) (xs : List ListRoomMembersRow) → listed v (order_by earlier xs) ≡ listed v xs
unfolding listed order_by
listed-order_by v [] = refl
listed-order_by v (x ∷ xs) =
    listed-insert_row v x (order_by earlier xs) ∙ ground (arith, listed-order_by v xs)

find_user_id : (i : ℕ) (us : List UserRow) (u : UserRow) → find_user i us ≡ some u → u.id ≡ i
unfolding find_user
find_user_id i [] u h = absurd (ground (arith, h))
find_user_id i (x ∷ xs) u h = elim (Bool-cases (x.id == i)) [
  | inl e ↦ ground (arith, rw (e, find_user) at h, (==_iff x.id i).0 e)
  | inr e ↦ find_user_id i xs u (rw (e, find_user) at h)
]

pub listed-members_of_room :
    (room v : ℕ) (us : List UserRow) (ms : List MemberRow)
    → listed v (members_of_room room us ms)
      ≡ (is_some (find_member room v ms) && is_some (find_user v us))
unfolding listed members_of_room find_member
listed-members_of_room room v us [] = refl
listed-members_of_room room v us (m ∷ ms) =
    let ih = listed-members_of_room room v us ms in
    elim (Bool-cases (m.room_id == room)) [
      | inr e ↦ rw (e, members_of_room, find_member) ih
      | inl e ↦ elim (Bool-cases (m.user_id == v)) [
        | inl w ↦
            let same : find_user m.user_id us ≡ find_user v us =
              ap (λ i. find_user i us) ((==_iff m.user_id v).0 w) in
            elim (Option-cases (find_user v us)) [
              | inl n ↦ rw (e, w, same, n, members_of_room, find_member) (ground (arith, ih, n))
              | inr (u, n) ↦
                  rw (e, w, same, n, members_of_room, find_member)
                    (ground (arith, ==_iff u.id v, find_user_id v us u n))
            ]
        | inr w ↦ elim (Option-cases (find_user m.user_id us)) [
          | inl n ↦ rw (e, w, n, members_of_room, find_member) ih
          | inr (u, n) ↦
              rw (e, w, n, members_of_room, find_member)
                (ground
                  (arith, ih, w, ==_iff u.id v, ==_iff m.user_id v, find_user_id m.user_id us u n))
        ]
      ]
    ]
