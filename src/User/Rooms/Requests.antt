-- ===== src/User/Rooms/Requests.antt =====
-- Sequences of requests to the methods of internal/user/service.go that change rooms or members,
-- one after another, each with its own circumstances.
use go_chat_msa.Common.{
  ℕ, ◌≤◌, ◌<◌, ◌≡◌, Bool, String, true, false, not, List, [], ◌∷◌, Bool-cases, Option-cases, inl,
  inr, arith, int_32,
}
use go_chat_msa.Grpc.{status, other}
use go_chat_msa.User.Db.{Db, UserRow, Answer, row, no_rows, violation, failed}
use go_chat_msa.User.Tx.{Result, ok, err, run_in_tx}
use go_chat_msa.User.Validation.{validate_capacity, validate_room_name}
use go_chat_msa.User.Rooms.{Env, create_room}
use go_chat_msa.User.Rooms.Joining.{join_room, leave_room, join_error, join_room_tx}
use go_chat_msa.User.Rooms.Managing.{
  update_room, delete_room, delete_user, Compared, compared_error, delete_checked,
}
use go_chat_msa.User.Rooms.Capacity.{Fit, run_in_tx-Fit}
use go_chat_msa.User.Rooms.Kept.{leave_room_tx-Fit, delete_room_tx-Fit, delete_user_tx-Fit}
use go_chat_msa.User.Rooms.Kept.Entering.{create_room_tx-Fit, update_room_tx-Fit, join_room_tx-Fit}

-- The requests that change the rooms; the texts are the identifiers and names of the messages, and
-- a capacity is an int32.
pub data Request : Type 0 where
  create : String → String → ℕ → Request
  join leave : String → String → Request
  update : String → String → String → ℕ → Request
  delete : String → String → Request
  remove_user : String → (UserRow → Compared) → Bool → Bool → Request

unfoldable pub serve : Env → Request → Db → Db
serve e (create name manager capacity) db = (create_room e name manager (int_32 capacity) db).1
serve e (join room user) db = (join_room e room user db).1
serve e (leave room user) db = (leave_room e room user db).1
serve e (update id requester name capacity) db =
    (update_room e id requester name (int_32 capacity) db).1
serve e (delete room requester) db = (delete_room e room requester db).1
serve e (remove_user user compare reads revoked) db =
    (delete_user e user compare reads revoked db).1

unfoldable pub serve_all : List (Env × Request) → Db → Db
serve_all [] db = db
serve_all ((e, r) ∷ rs) db = serve_all rs (serve e r db)

valid_capacity :
    (max capacity : ℕ)
    → not (validate_capacity max (int_32 capacity)) ≡ false
    → (1 ≤ int_32 capacity) × (int_32 capacity < 2147483648)
unfolding validate_capacity
valid_capacity max capacity h = (ground arith, ground arith)

join_error-Fit : {A : Type 0} (x : Result A × Db) → Fit x.1 → Fit (join_error x).1
join_error-Fit (ok a, db) fit = fit
join_error-Fit (err (status c), db) fit = fit
join_error-Fit (err other, db) fit = fit

module _ (e : Env) (db : Db) (fit : Fit db) where
  open e use {parse, new_id, fault, begins, commits, max_name_length, max_capacity}

  create_room-Fit :
      (name manager : String) (capacity : ℕ)
      → Fit (create_room e name manager (int_32 capacity) db).1
  unfolding create_room
  create_room-Fit name manager_id capacity =
      elim (Bool-cases (not (validate_room_name max_name_length name))) [
        | inl a ↦ rw (a, create_room) fit
        | inr a ↦ elim (Option-cases (parse manager_id)) [
          | inl b ↦ rw (a, b, create_room) fit
          | inr (manager, b) ↦ elim (Option-cases new_id) [
            | inl c ↦ rw (a, b, c, create_room) fit
            | inr ((id, at), c) ↦
                elim (Bool-cases (not (validate_capacity max_capacity (int_32 capacity)))) [
                  | inl d ↦ rw (a, b, c, d, create_room) fit
                  | inr d ↦
                      let valid = valid_capacity max_capacity capacity d in
                      rw (a, b, c, d, create_room)
                        (run_in_tx-Fit begins commits _ db
                          (λ n. create_room_tx-Fit e _ manager _ valid.0 valid.1 fit) fit)
                ]
          ]
        ]
      ]

  join_room-Fit : (room user : String) → Fit (join_room e room user db).1
  unfolding join_room
  join_room-Fit room_id user_id = elim (Option-cases (parse user_id)) [
    | inl a ↦ rw (a, join_room) fit
    | inr (user, a) ↦ elim (Option-cases (parse room_id)) [
      | inl b ↦ rw (a, b, join_room) fit
      | inr (room, b) ↦
          rw (a, b, join_room)
            (join_error-Fit (run_in_tx begins commits (join_room_tx e room user) db) (
              run_in_tx-Fit begins commits (join_room_tx e room user) db
                (λ n. join_room_tx-Fit e room user _ fit) fit))
    ]
  ]

  leave_room-Fit : (room user : String) → Fit (leave_room e room user db).1
  unfolding leave_room
  leave_room-Fit room_id user_id = elim (Option-cases (parse room_id)) [
    | inl a ↦ rw (a, leave_room) fit
    | inr (room, a) ↦ elim (Option-cases (parse user_id)) [
      | inl b ↦ rw (a, b, leave_room) fit
      | inr (user, b) ↦
          rw (a, b, leave_room)
            (run_in_tx-Fit begins commits _ db (λ n. leave_room_tx-Fit e room user _ fit) fit)
    ]
  ]

  update_room-Fit :
      (id requester name : String) (capacity : ℕ)
      → Fit (update_room e id requester name (int_32 capacity) db).1
  unfolding update_room
  update_room-Fit id requester_id name capacity = elim (Option-cases (parse id)) [
    | inl a ↦ rw (a, update_room) fit
    | inr (room, a) ↦ elim (Option-cases (parse requester_id)) [
      | inl b ↦ rw (a, b, update_room) fit
      | inr (user, b) ↦ elim (Bool-cases (not (validate_room_name max_name_length name))) [
        | inl c ↦ rw (a, b, c, update_room) fit
        | inr c ↦ elim (Bool-cases (not (validate_capacity max_capacity (int_32 capacity)))) [
          | inl d ↦ rw (a, b, c, d, update_room) fit
          | inr d ↦
              let valid = valid_capacity max_capacity capacity d in
              rw (a, b, c, d, update_room)
                (run_in_tx-Fit begins commits _ db
                  (λ n. update_room_tx-Fit e room user name _ _ valid.1 fit) fit)
        ]
      ]
    ]
  ]

  delete_room-Fit : (room requester : String) → Fit (delete_room e room requester db).1
  unfolding delete_room
  delete_room-Fit room_id requester_id = elim (Option-cases (parse room_id)) [
    | inl a ↦ rw (a, delete_room) fit
    | inr (room, a) ↦ elim (Option-cases (parse requester_id)) [
      | inl b ↦ rw (a, b, delete_room) fit
      | inr (user, b) ↦
          rw (a, b, delete_room)
            (run_in_tx-Fit begins commits _ db (λ n. delete_room_tx-Fit e room user _ fit) fit)
    ]
  ]

  delete_checked-Fit :
      (user : ℕ) (compare : UserRow → Compared) (revoked : Bool) (a : Answer UserRow)
      → Fit (delete_checked e user compare revoked a db).1
  delete_checked-Fit user compare false (row u) = elim (Option-cases (compared_error (compare u))) [
    | inl c ↦ rw (c, delete_checked) fit
    | inr (code, c) ↦ rw (c, delete_checked) fit
  ]
  delete_checked-Fit user compare true (row u) = elim (Option-cases (compared_error (compare u))) [
    | inl c ↦
        rw (c, delete_checked)
          (run_in_tx-Fit begins commits _ db (λ n. delete_user_tx-Fit e user _ fit) fit)
    | inr (code, c) ↦ rw (c, delete_checked) fit
  ]
  delete_checked-Fit user compare revoked no_rows = fit
  delete_checked-Fit user compare revoked violation = fit
  delete_checked-Fit user compare revoked failed = fit

  delete_user-Fit :
      (user : String) (compare : UserRow → Compared) (reads revoked : Bool)
      → Fit (delete_user e user compare reads revoked db).1
  unfolding delete_user
  delete_user-Fit user_id compare reads revoked = elim (Option-cases (parse user_id)) [
    | inl a ↦ rw (a, delete_user) fit
    | inr (user, a) ↦ rw (a, delete_user) (delete_checked-Fit user compare revoked _)
  ]

  serve-Fit : (r : Request) → Fit (serve e r db)
  unfolding serve
  serve-Fit (create name manager capacity) = create_room-Fit name manager capacity
  serve-Fit (join room user) = join_room-Fit room user
  serve-Fit (leave room user) = leave_room-Fit room user
  serve-Fit (update id requester name capacity) = update_room-Fit id requester name capacity
  serve-Fit (delete room requester) = delete_room-Fit room requester
  serve-Fit (remove_user user compare reads revoked) = delete_user-Fit user compare reads revoked

-- Whatever requests arrive in a row, whatever identifiers parse, and whatever statements and
-- transactions fail: if at the start every room has at most `capacity` members with a capacity
-- below 2 ^ 31, and rooms that do not exist have no members, then the same holds at the end.
pub serve_all-Fit : (rs : List (Env × Request)) (db : Db) → Fit db → Fit (serve_all rs db)
unfolding serve_all
serve_all-Fit [] db fit = fit
serve_all-Fit ((e, r) ∷ rs) db fit = serve_all-Fit rs (serve e r db) (serve-Fit e db fit r)
