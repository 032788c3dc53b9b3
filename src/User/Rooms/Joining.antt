-- ===== src/User/Rooms/Joining.antt =====
-- internal/user/service.go: membership. GetMemberJoinedAt, VerifyRoomMember, JoinRoom, LeaveRoom.
use go_chat_msa.Common.{ℕ, String, not, Option, none, some, if◌then◌else◌, sle_32, int_32}
use go_chat_msa.Grpc.{
  Code, status, other, internal, not_found, invalid_argument, failed_precondition,
}
use go_chat_msa.User.Db
use go_chat_msa.User.Db.{
  Db, RoomRow, MemberRow, Answer, row, no_rows, violation, failed, managed_by,
}
use go_chat_msa.User.Tx.{
  Result, ok, err, M, ◌>>=◌, ◌>>◌, pure, fail, query, expect, run_in_tx, alone, bad,
}
use go_chat_msa.User.Rooms.{Env}

-- The conversion of an error at the end of JoinRoom: one with a status is kept.
abbrev pub join_error : {A : Type 0} → Result A × Db → Result A × Db
join_error (ok a, db) = (ok a, db)
join_error (err (status c), db) = (err (status c), db)
join_error (err other, db) = (err (status internal), db)

-- The answer of one statement outside a transaction.
abbrev pub answer : {A B : Type 0} → Code → Code → (A → Result B) → Answer A → Result B
answer missing broken f (row a) = f a
answer missing broken f no_rows = err (status missing)
answer missing broken f violation = err (status broken)
answer missing broken f failed = err (status broken)

module _ (e : Env) where
  open e use {parse, now, fault, begins, commits}

  unfoldable pub get_member_joined_at : String → String → Db → Result ℕ
  get_member_joined_at room_id user_id db = elim (parse room_id) [
    | none ↦ err (status invalid_argument)
    | some room ↦ elim (parse user_id) [
      | none ↦ err (status invalid_argument)
      | some user ↦
          answer not_found internal (λ t. ok t) (alone fault (Db.get_member_joined_at room user) db)
    ]
  ]

  unfoldable pub verify_room_member : String → String → Db → Result (Unit {0})
  verify_room_member room_id user_id db = elim (parse room_id) [
    | none ↦ err (status invalid_argument)
    | some room ↦ elim (parse user_id) [
      | none ↦ err (status invalid_argument)
      | some user ↦
          answer internal internal (λ exists. if exists then ok tt else err (status not_found))
            (alone fault (Db.exists_room_member room user) db)
    ]
  ]

  -- The end of JoinRoom's transaction, once the room is found and the user is no member.
  unfoldable pub join_if_room : ℕ → ℕ → RoomRow → M (Unit {0})
  join_if_room room user r = do
    counted ← query fault (Db.get_room_member_count room)
    n ← expect other other counted
    if sle_32 r.capacity (int_32 n) then fail (status failed_precondition) else do
      joined ←
          query fault
            (Db.create_room_member (record { user_id = user; room_id = room; joined_at = now }))
      expect other other joined

  unfoldable pub join_room_tx : ℕ → ℕ → M (Unit {0})
  join_room_tx room user = do
    found ← query fault (Db.get_room_for_update room)
    r ← expect (status not_found) other found
    asked ← query fault (Db.exists_room_member room user)
    exists ← expect other other asked
    if exists then pure tt else join_if_room room user r

  unfoldable pub join_room : String → String → Db → Result (Unit {0}) × Db
  join_room room_id user_id db = elim (parse user_id) [
    | none ↦ bad invalid_argument db
    | some user ↦ elim (parse room_id) [
      | none ↦ bad invalid_argument db
      | some room ↦ join_error (run_in_tx begins commits (join_room_tx room user) db)
    ]
  ]

  -- What a manager leaves behind: the room goes to the member that joined first, or away.
  unfoldable pub hand_over : ℕ → Option ℕ → Answer ℕ → M (Unit {0})
  hand_over room manager (row next) = do
    set ← query fault (Db.update_room_manager room next)
    expect (status internal) (status internal) set
  hand_over room manager no_rows = do
    gone ← query fault (Db.delete_room room manager)
    done ← expect (status internal) (status internal) gone
    pure tt
  hand_over room manager violation = fail (status internal)
  hand_over room manager failed = fail (status internal)

  unfoldable pub leave_room_tx : ℕ → ℕ → M (Unit {0})
  leave_room_tx room user = do
    found ← query fault (Db.get_room_for_update room)
    r ← expect (status not_found) (status internal) found
    left ← query fault (Db.delete_room_member room user)
    expect (status internal) (status internal) left
    if not (managed_by user r.manager_id) then pure tt else do
      next ← query fault (Db.get_oldest_room_member room)
      hand_over room r.manager_id next

  unfoldable pub leave_room : String → String → Db → Result (Unit {0}) × Db
  leave_room room_id user_id db = elim (parse room_id) [
    | none ↦ bad invalid_argument db
    | some room ↦ elim (parse user_id) [
      | none ↦ bad invalid_argument db
      | some user ↦ run_in_tx begins commits (leave_room_tx room user) db
    ]
  ]
