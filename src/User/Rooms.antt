-- ===== src/User/Rooms.antt =====
-- internal/user/service.go: the methods on rooms. Identifiers are parsed by uuid.Parse, which is a
-- parameter; each method returns the error of its response and the database after it.
pub mod Joining
pub mod Listing
pub mod Managing
pub mod Capacity
pub mod Kept
pub mod Requests
use go_chat_msa.Common.{
  ℕ, ◌+◌, String, Bool, true, false, not, ◌&&◌, ◌||◌, Option, none, some, List, [], ◌∷◌, ◌==◌,
  if◌then◌else◌, slt_32, int_32,
}
use go_chat_msa.Grpc.{
  Error, Code, status, other, internal, not_found, invalid_argument, failed_precondition,
  permission_denied,
}
use go_chat_msa.User.Db
use go_chat_msa.User.Db.{Db, RoomRow, MemberRow, managed_by}
use go_chat_msa.User.Tx.{
  Tx, Result, ok, err, M, ◌>>=◌, ◌>>◌, pure, fail, query, expect, run_in_tx, bad,
}
use go_chat_msa.User.Validation.{validate_room_name, validate_capacity}

-- What a request gets from outside: uuid.Parse, uuid.NewV7 with its time, the clock, and which
-- calls of the database fail.
pub record Env : Type 0 where
  pub parse : String → Option ℕ
  pub new_id : Option (ℕ × ℕ)
  pub now : ℕ
  pub fault : ℕ → Bool
  pub begins : Bool
  pub commits : Bool
  pub max_name_length : ℕ
  pub max_capacity : ℕ

abbrev pub Reply : Type 0
Reply = Result (Unit {0}) × Db

module _ (e : Env) where
  open e use {parse, new_id, now, fault, begins, commits, max_name_length, max_capacity}

  unfoldable pub create_room_tx : RoomRow → ℕ → M ℕ
  create_room_tx r manager = do
    made ← query fault (Db.create_room r)
    room ← expect (status internal) (status internal) made
    joined ← query fault (
        Db.create_room_member
          (record { user_id = manager; room_id = room.id; joined_at = r.created_at }))
    expect (status internal) (status internal) joined
    pure room.id

  unfoldable pub create_room : String → String → ℕ → Db → Result ℕ × Db
  create_room name manager_id capacity db =
      if not (validate_room_name max_name_length name)
      then bad invalid_argument db
      else elim (parse manager_id) [
        | none ↦ bad invalid_argument db
        | some manager ↦ elim new_id [
          | none ↦ bad internal db
          | some (id, created_at) ↦
              if not (validate_capacity max_capacity capacity)
              then bad invalid_argument db
              else run_in_tx begins commits
                  (create_room_tx
                    (record {
                      id = id;
                      name = name;
                      manager_id = some manager;
                      capacity = capacity;
                      created_at = created_at;
                    })
                    manager)
                  db
        ]
      ]
