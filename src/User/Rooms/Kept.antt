-- ===== src/User/Rooms/Kept.antt =====
-- The transactions of internal/user/service.go on rooms and members, and the capacity of the rooms.
pub mod Entering
use go_chat_msa.Common.{
  ℕ, ◌+◌, ◌≤◌, ◌<◌, ◌≡◌, subst, String, false, not, ◌||◌, Option, some, List, [], ◌∷◌, ◌++◌,
  is_some, Bool-cases, Option-cases, inl, inr, arith, int_32, sle_32, slt_32,
}
use go_chat_msa.Grpc.{Error, status, other, not_found, internal}
use go_chat_msa.User.Db
use go_chat_msa.User.Db.{
  Db, UserRow, RoomRow, MemberRow, Answer, row, no_rows, violation, failed, managed_by, find_room,
  count_members,
}
use go_chat_msa.User.Tx.{Tx, ◌>>=◌, pure, query, expect}
use go_chat_msa.User.Rooms.{Env, create_room_tx}
use go_chat_msa.User.Rooms.Joining.{join_if_room, join_room_tx, hand_over, leave_room_tx}
use go_chat_msa.User.Rooms.Managing.{update_room_tx, delete_room_tx, leave_all, delete_user_tx}
use go_chat_msa.User.Rooms.Capacity.{Fits, Fit, Post, after-then}
use go_chat_msa.User.Rooms.Capacity.Statements.{
  delete_room_member-Fit, update_room_manager-Fit, delete_room-Fit, delete_user-Fit,
  create_room_member-Fit, created-Fit, update_room-Fit,
}

abbrev pub Kept : {A : Type 0} → A → Db → Type 0
Kept a db = Fit db

pub gone :
    {A B : Type 0} (missing broken : Error) (b : B) (x : Answer A × Db) (n : ℕ)
    → Fit x.1
    → Post Kept ((expect missing broken x.0 >>= (λ a. pure b)) (record { db = x.1; calls = n }))
gone missing broken b (row a, db) n fit = fit
gone missing broken b (no_rows, db) n fit = tt
gone missing broken b (violation, db) n fit = tt
gone missing broken b (failed, db) n fit = tt

pub done :
    (x : Answer (Unit {0}) × Db) (n : ℕ)
    → Fit x.1
    → Post Kept (expect other other x.0 (record { db = x.1; calls = n }))
done (row a, db) n fit = fit
done (no_rows, db) n fit = tt
done (violation, db) n fit = tt
done (failed, db) n fit = tt

pub not_less :
    (n capacity : ℕ) (r : RoomRow)
    → slt_32 capacity (int_32 n) ≡ false
    → Fits n (some r)
    → capacity < 2147483648
    → n ≤ capacity
not_less n capacity r o h small = ground arith

pub room_left :
    (n : ℕ) (r : RoomRow) → sle_32 r.capacity (int_32 n) ≡ false → Fits n (some r) → n < r.capacity
room_left n r o h = ground arith

module _ (e : Env) where
  open e use {parse, new_id, now, fault, begins, commits, max_name_length, max_capacity}

  pub hand_over-Fit :
      (room : ℕ) (manager : Option ℕ) (a : Answer ℕ) (tx : Tx)
      → Fit tx.db
      → Post Kept (hand_over e room manager a tx)
  unfolding hand_over Db.update_room_manager
  hand_over-Fit room manager (row next) tx fit = elim (Bool-cases (fault tx.calls)) [
    | inl b ↦ rw (b) tt
    | inr b ↦ rw (b) (update_room_manager-Fit room next tx.db fit)
  ]
  hand_over-Fit room manager no_rows tx fit = elim (Bool-cases (fault tx.calls)) [
    | inl b ↦ rw (b) tt
    | inr b ↦ rw (b) (
        gone _ _ tt (Db.delete_room room manager tx.db) (tx.calls + 1)
          (delete_room-Fit room manager tx.db fit))
  ]
  hand_over-Fit room manager violation tx fit = tt
  hand_over-Fit room manager failed tx fit = tt

  pub leave_room_tx-Fit :
      (room user : ℕ) (tx : Tx) → Fit tx.db → Post Kept (leave_room_tx e room user tx)
  unfolding leave_room_tx Db.get_room_for_update Db.delete_room_member Db.get_oldest_room_member
  leave_room_tx-Fit room user tx fit = elim (Bool-cases (fault tx.calls)) [
    | inl b ↦ rw (b) tt
    | inr b ↦ elim (Option-cases (find_room room tx.db.rooms)) [
      | inl f ↦ rw (b, f) tt
      | inr (r, f) ↦ elim (Bool-cases (fault (tx.calls + 1))) [
        | inl c ↦ rw (b, f, c) tt
        | inr c ↦ elim (Bool-cases (not (managed_by user r.manager_id))) [
          | inl m ↦ rw (b, f, c, m) (delete_room_member-Fit room user tx.db fit)
          | inr m ↦ elim (Bool-cases (fault (tx.calls + 1 + 1))) [
            | inl g ↦
                rw (b, f, c, m, g)
                  (hand_over-Fit room r.manager_id failed _
                    (delete_room_member-Fit room user tx.db fit))
            | inr g ↦
                rw (b, f, c, m, g)
                  (hand_over-Fit room r.manager_id _ _ (delete_room_member-Fit room user tx.db fit))
          ]
        ]
      ]
    ]
  ]

  pub leave_all-Fit :
      (user : ℕ) (rooms : List ℕ) (tx : Tx) → Fit tx.db → Post Kept (leave_all e user rooms tx)
  unfolding leave_all
  leave_all-Fit user [] tx fit = fit
  leave_all-Fit user (room ∷ rooms) tx fit =
      after-then (leave_room_tx e room user tx) (λ a. leave_all e user rooms) Kept Kept
        (leave_room_tx-Fit room user tx fit) (λ a tx2 fit2. leave_all-Fit user rooms tx2 fit2)

  pub deleted-Fit :
      (user : ℕ) (rooms : List ℕ) (tx : Tx)
      → Fit tx.db
      → Post Kept (
          (query fault (Db.delete_user user) >>= λ deleted.
          expect (status not_found) (status internal) deleted >>= λ done. pure rooms)
            tx)
  deleted-Fit user rooms tx fit = elim (Bool-cases (fault tx.calls)) [
    | inl b ↦ rw (b) tt
    | inr b ↦
        rw (b) (
          gone _ _ rooms (Db.delete_user user tx.db) (tx.calls + 1)
            (delete_user-Fit user tx.db fit))
  ]

  pub delete_user_tx-Fit : (user : ℕ) (tx : Tx) → Fit tx.db → Post Kept (delete_user_tx e user tx)
  unfolding delete_user_tx Db.list_joined_room_ids_for_update
  delete_user_tx-Fit user tx fit = elim (Bool-cases (fault tx.calls)) [
    | inl b ↦ rw (b) tt
    | inr b ↦ rw (b) (
        after-then (leave_all e user _ _) _ Kept Kept (leave_all-Fit user _ _ fit)
          (λ a tx2 fit2. deleted-Fit user _ tx2 fit2))
  ]

  pub delete_room_tx-Fit :
      (room requester : ℕ) (tx : Tx) → Fit tx.db → Post Kept (delete_room_tx e room requester tx)
  unfolding delete_room_tx Db.get_room_for_update
  delete_room_tx-Fit room user tx fit = elim (Bool-cases (fault tx.calls)) [
    | inl b ↦ rw (b) tt
    | inr b ↦ elim (Option-cases (find_room room tx.db.rooms)) [
      | inl f ↦ rw (b, f) tt
      | inr (r, f) ↦ elim (Bool-cases (not (managed_by user r.manager_id))) [
        | inl m ↦ rw (b, f, m) tt
        | inr m ↦ elim (Bool-cases (fault (tx.calls + 1))) [
          | inl c ↦ rw (b, f, m, c) tt
          | inr c ↦
              rw (b, f, m, c)
                (gone _ _ tt (Db.delete_room room (some user) tx.db) _
                  (delete_room-Fit room (some user) tx.db fit))
        ]
      ]
    ]
  ]
