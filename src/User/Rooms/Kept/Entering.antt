-- ===== src/User/Rooms/Kept/Entering.antt =====
-- internal/user/service.go: the transactions that create or resize a room or let a member in, and
-- the capacity of the rooms.
use go_chat_msa.Common.{
  ℕ, ◌+◌, ◌≤◌, ◌<◌, ◌≡◌, subst, String, not, ◌||◌, some, [], ◌∷◌, ◌++◌, is_some, Bool-cases,
  Option-cases, inl, inr, arith, int_32, sle_32, slt_32,
}
use go_chat_msa.User.Db
use go_chat_msa.User.Db.{
  Db, UserRow, RoomRow, MemberRow, Answer, row, no_rows, violation, failed, managed_by, find_room,
  count_members,
}
use go_chat_msa.User.Tx.{Tx}
use go_chat_msa.User.Rooms.{Env, create_room_tx}
use go_chat_msa.User.Rooms.Joining.{join_if_room, join_room_tx}
use go_chat_msa.User.Rooms.Managing.{update_room_tx}
use go_chat_msa.User.Rooms.Capacity.{Fits, Fit, Post}
use go_chat_msa.User.Rooms.Capacity.Statements.{
  create_room_member-Fit, created-Fit, update_room-Fit,
}
use go_chat_msa.User.Rooms.Kept.{Kept, gone, done, not_less, room_left}

module _ (e : Env) where
  open e use {parse, new_id, now, fault, begins, commits, max_name_length, max_capacity}

  pub create_room_tx-Fit :
      (r : RoomRow) (user : ℕ) (tx : Tx)
      → 1 ≤ r.capacity
      → r.capacity < 2147483648
      → Fit tx.db
      → Post Kept (create_room_tx e r user tx)
  unfolding create_room_tx Db.create_room
  create_room_tx-Fit r user tx some_room small fit = elim (Bool-cases (fault tx.calls)) [
    | inl b ↦ rw (b) tt
    | inr b ↦
        elim (Bool-cases (
          is_some (find_room r.id tx.db.rooms)
          || not (Db.manager_exists r.manager_id tx.db.users))) [
            | inl g ↦ rw (b, g, Db.create_room) tt
            | inr g ↦ elim (Bool-cases (fault (tx.calls + 1))) [
              | inl c ↦ rw (b, g, Db.create_room, c) tt
              | inr c ↦
                  let made : Fit (record tx.db { rooms = tx.db.rooms ++ r ∷ [] })
                      × (find_room r.id (tx.db.rooms ++ r ∷ []) ≡ some r)
                      × (count_members r.id tx.db.members ≡ 0) =
                    created-Fit r tx.db fit small g in
                  rw (b, g, Db.create_room, c)
                    (gone _ _ r.id (Db.create_room_member _ _) _
                      (create_room_member-Fit _ _ r made.0 made.1 (omega (arith, made.2))))
            ]
          ]
  ]

  pub update_room_tx-Fit :
      (room requester : ℕ) (name : String) (capacity : ℕ) (tx : Tx)
      → capacity < 2147483648
      → Fit tx.db
      → Post Kept (update_room_tx e room requester name capacity tx)
  unfolding update_room_tx Db.get_room_for_update Db.get_room_member_count
  update_room_tx-Fit room user name capacity tx small fit = elim (Bool-cases (fault tx.calls)) [
    | inl b ↦ rw (b) tt
    | inr b ↦ elim (Option-cases (find_room room tx.db.rooms)) [
      | inl f ↦ rw (b, f) tt
      | inr (r, f) ↦ elim (Bool-cases (not (managed_by user r.manager_id))) [
        | inl m ↦ rw (b, f, m) tt
        | inr m ↦ elim (Bool-cases (fault (tx.calls + 1))) [
          | inl c ↦ rw (b, f, m, c) tt
          | inr c ↦
              elim (Bool-cases (slt_32 capacity (int_32 (count_members room tx.db.members)))) [
                | inl o ↦ rw (b, f, m, c, o) tt
                | inr o ↦ elim (Bool-cases (fault (tx.calls + 1 + 1))) [
                  | inl d ↦ rw (b, f, m, c, o, d) tt
                  | inr d ↦
                      rw (b, f, m, c, o, d)
                        (gone _ _ tt (Db.update_room room name capacity user tx.db) _ (
                          update_room-Fit room name capacity user tx.db fit
                            (not_less _ _ r o (subst (Fits _) f (fit room)) small) small))
                ]
              ]
        ]
      ]
    ]
  ]

  join_if_room-Fit :
      (room user : ℕ) (r : RoomRow) (tx : Tx)
      → find_room room tx.db.rooms ≡ some r
      → Fit tx.db
      → Post Kept (join_if_room e room user r tx)
  unfolding join_if_room Db.get_room_member_count
  join_if_room-Fit room user r tx f fit = elim (Bool-cases (fault tx.calls)) [
    | inl b ↦ rw (b) tt
    | inr b ↦ elim (Bool-cases (sle_32 r.capacity (int_32 (count_members room tx.db.members)))) [
      | inl o ↦ rw (b, o) tt
      | inr o ↦ elim (Bool-cases (fault (tx.calls + 1))) [
        | inl c ↦ rw (b, o, c) tt
        | inr c ↦
            rw (b, o, c)
              (done (Db.create_room_member _ _) _ (
                create_room_member-Fit _ _ r fit f (room_left _ r o (subst (Fits _) f (fit room)))))
      ]
    ]
  ]

  pub join_room_tx-Fit :
      (room user : ℕ) (tx : Tx) → Fit tx.db → Post Kept (join_room_tx e room user tx)
  unfolding join_room_tx Db.get_room_for_update Db.exists_room_member
  join_room_tx-Fit room user tx fit = elim (Bool-cases (fault tx.calls)) [
    | inl b ↦ rw (b) tt
    | inr b ↦ elim (Option-cases (find_room room tx.db.rooms)) [
      | inl f ↦ rw (b, f) tt
      | inr (r, f) ↦ elim (Bool-cases (fault (tx.calls + 1))) [
        | inl c ↦ rw (b, f, c) tt
        | inr c ↦ elim (Bool-cases (is_some (Db.find_member room user tx.db.members))) [
          | inl x ↦ rw (b, f, c, f, x) fit
          | inr x ↦ rw (b, f, c, f, x) (join_if_room-Fit room user r _ f fit)
        ]
      ]
    ]
  ]
