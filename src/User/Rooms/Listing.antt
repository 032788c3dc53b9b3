-- ===== src/User/Rooms/Listing.antt =====
-- internal/user/service.go and internal/user/mapper.go: ListJoinedRooms, ListRoomMembers and SearchRooms.
-- UUID.String and ILIKE are parameters.
use go_chat_msa.Common.{
  ℕ, String, Bool, Option, none, some, List, [], ◌∷◌, if◌then◌else◌, slt_32, sle_32, int_32,
}
use go_chat_msa.Grpc.{status, internal, invalid_argument}
use go_chat_msa.User.Db.{Db, RoomRow}
use go_chat_msa.User.Db.Lists
use go_chat_msa.User.Db.Lists.{ListRoomMembersRow, ListJoinedRoomsRow, SearchRoomsRow}
use go_chat_msa.User.Tx.{Result, ok, err, alone}
use go_chat_msa.User.Rooms.{Env}
use go_chat_msa.User.Rooms.Joining.{answer}

-- The messages of the service.
pub record Room : Type 0 where
  pub id : String
  pub name : String
  pub manager_id : String
  pub capacity : ℕ
  pub member_count : ℕ

pub record UserRoom : Type 0 where
  pub room : Room
  pub joined_at : ℕ

pub record RoomMember : Type 0 where
  pub user_id : String
  pub username : String
  pub joined_at : ℕ

pub record SearchRoomsResponse : Type 0 where
  pub rooms : List Room
  pub total_count : ℕ

module _ (text : ℕ → String) where
  -- The text of a UUID that may be NULL.
  abbrev manager_text : Option ℕ → String
  manager_text none = ""
  manager_text (some id) = text id

  unfoldable pub room_message : RoomRow → ℕ → Room
  room_message r count = record {
    id = text r.id;
    name = r.name;
    manager_id = manager_text r.manager_id;
    capacity = r.capacity;
    member_count = int_32 count;
  }

  unfoldable pub user_rooms_from_rows : List ListJoinedRoomsRow → List UserRoom
  user_rooms_from_rows [] = []
  user_rooms_from_rows (r ∷ rs) =
      record { room = room_message r.room r.member_count; joined_at = r.joined_at }
      ∷ user_rooms_from_rows rs

  unfoldable pub room_members_from_rows : List ListRoomMembersRow → List RoomMember
  room_members_from_rows [] = []
  room_members_from_rows (r ∷ rs) =
      record { user_id = text r.id; username = r.username; joined_at = r.joined_at }
      ∷ room_members_from_rows rs

  unfoldable pub rooms_from_search_rows : List SearchRoomsRow → List Room
  rooms_from_search_rows [] = []
  rooms_from_search_rows (r ∷ rs) = room_message r.room r.member_count ∷ rooms_from_search_rows rs

  -- TotalCount of the first row.
  abbrev total_of : List SearchRoomsRow → ℕ
  total_of [] = 0
  total_of (r ∷ rs) = int_32 r.total_count

  module _ (e : Env) where
    open e use {parse, fault}

    unfoldable pub list_joined_rooms : String → Db → Result (List UserRoom)
    list_joined_rooms user_id db = elim (parse user_id) [
      | none ↦ err (status invalid_argument)
      | some user ↦
          answer internal internal (λ rows. ok (user_rooms_from_rows rows))
            (alone fault (Lists.list_joined_rooms user) db)
    ]

    unfoldable pub list_room_members : String → Db → Result (List RoomMember)
    list_room_members room_id db = elim (parse room_id) [
      | none ↦ err (status invalid_argument)
      | some room ↦
          answer internal internal (λ rows. ok (room_members_from_rows rows))
            (alone fault (Lists.list_room_members room) db)
    ]

    -- The limits of the configuration, and ILIKE of a query and a name.
    unfoldable pub search_rooms :
        ℕ → ℕ → (String → String → Bool) → String → ℕ → ℕ → Db → Result SearchRoomsResponse
    search_rooms max_limit default_limit ilike query limit offset db =
        if slt_32 max_limit limit
        then err (status invalid_argument)
        else answer internal internal
            (λ rows.
              ok (record { rooms = rooms_from_search_rows rows; total_count = total_of rows }))
            (alone fault
              (Lists.search_rooms (ilike query) (if sle_32 limit 0 then default_limit else limit)
                offset)
              db)
