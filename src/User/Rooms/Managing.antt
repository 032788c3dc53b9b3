-- ===== src/User/Rooms/Managing.antt =====
-- internal/user/service.go: UpdateRoom, DeleteRoom and DeleteUser. The answers of the password
-- hasher and of RefreshTokenStore.RevokeUser are inputs of DeleteUser.
use go_chat_msa.Common.{
  ℕ, String, Bool, not, Option, none, some, List, [], ◌∷◌, if◌then◌else◌, slt_32, int_32,
}
use go_chat_msa.Grpc.{
  Code, status, internal, not_found, invalid_argument, failed_precondition, permission_denied,
  resource_exhausted, unavailable, unauthenticated,
}
use go_chat_msa.User.Db
use go_chat_msa.User.Db.Users.{get_user_by_id}
use go_chat_msa.User.Db.{Db, UserRow, RoomRow, Answer, row, no_rows, violation, failed, managed_by}
use go_chat_msa.User.Tx.{Result, M, ◌>>=◌, ◌>>◌, pure, fail, query, expect, run_in_tx, bad}
use go_chat_msa.User.Validation.{validate_room_name, validate_capacity}
use go_chat_msa.User.Rooms.{Env}
use go_chat_msa.User.Rooms.Joining.{leave_room_tx}

-- What ComparePassword of the hasher's pool answers.
pub data Compared : Type 0 where
  matches queue_full closed mismatched broken : Compared

abbrev pub compared_error : Compared → Option Code
compared_error matches = none
compared_error queue_full = some resource_exhausted
compared_error closed = some unavailable
compared_error mismatched = some unauthenticated
compared_error broken = some internal

module _ (e : Env) where
  open e use {parse, fault, begins, commits, max_name_length, max_capacity}

  unfoldable pub update_room_tx : ℕ → ℕ → String → ℕ → M (Unit {0})
  update_room_tx room requester name capacity = do
    found ← query fault (Db.get_room_for_update room)
    r ← expect (status not_found) (status internal) found
    if not (managed_by requester r.manager_id) then fail (status permission_denied) else do
      counted ← query fault (Db.get_room_member_count room)
      n ← expect (status internal) (status internal) counted
      if slt_32 capacity (int_32 n) then fail (status failed_precondition) else do
        updated ← query fault (Db.update_room room name capacity requester)
        done ← expect (status internal) (status internal) updated
        pure tt

  unfoldable pub update_room : String → String → String → ℕ → Db → Result (Unit {0}) × Db
  update_room id requester_id name capacity db = elim (parse id) [
    | none ↦ bad invalid_argument db
    | some room ↦ elim (parse requester_id) [
      | none ↦ bad invalid_argument db
      | some requester ↦
          if not (validate_room_name max_name_length name)
          then bad invalid_argument db
          else if not (validate_capacity max_capacity capacity)
          then bad invalid_argument db
          else run_in_tx begins commits (update_room_tx room requester name capacity) db
    ]
  ]

  unfoldable pub delete_room_tx : ℕ → ℕ → M (Unit {0})
  delete_room_tx room requester = do
    found ← query fault (Db.get_room_for_update room)
    r ← expect (status not_found) (status internal) found
    if not (managed_by requester r.manager_id) then fail (status permission_denied) else do
      gone ← query fault (Db.delete_room room (some requester))
      done ← expect (status internal) (status internal) gone
      pure tt

  unfoldable pub delete_room : String → String → Db → Result (Unit {0}) × Db
  delete_room room_id requester_id db = elim (parse room_id) [
    | none ↦ bad invalid_argument db
    | some room ↦ elim (parse requester_id) [
      | none ↦ bad invalid_argument db
      | some requester ↦ run_in_tx begins commits (delete_room_tx room requester) db
    ]
  ]

  -- The loop over the rooms that the user is in.
  unfoldable pub leave_all : ℕ → List ℕ → M (Unit {0})
  leave_all user [] = pure tt
  leave_all user (room ∷ rooms) = leave_room_tx e room user >> leave_all user rooms

  -- The rooms that the user left.
  unfoldable pub delete_user_tx : ℕ → M (List ℕ)
  delete_user_tx user = do
    listed ← query fault (Db.list_joined_room_ids_for_update user)
    rooms ← expect (status internal) (status internal) listed
    leave_all user rooms
    deleted ← query fault (Db.delete_user user)
    done ← expect (status not_found) (status internal) deleted
    pure rooms

  abbrev pub delete_checked :
      ℕ → (UserRow → Compared) → Bool → Answer UserRow → Db → Result (List ℕ) × Db
  delete_checked user compare revoked (row u) db = elim (compared_error (compare u)) [
    | some c ↦ bad c db
    | none ↦ if revoked then run_in_tx begins commits (delete_user_tx user) db else bad internal db
  ]
  delete_checked user compare revoked no_rows db = bad not_found db
  delete_checked user compare revoked violation db = bad internal db
  delete_checked user compare revoked failed db = bad internal db

  -- `reads` says whether GetUserByID gets an answer, and `revoked` whether the tokens were revoked;
  -- the statements of the transaction are counted from 0.
  unfoldable pub delete_user :
      String → (UserRow → Compared) → Bool → Bool → Db → Result (List ℕ) × Db
  delete_user user_id compare reads revoked db = elim (parse user_id) [
    | none ↦ bad invalid_argument db
    | some user ↦
        delete_checked user compare revoked (if reads then (get_user_by_id user db).0 else failed)
          db
  ]
