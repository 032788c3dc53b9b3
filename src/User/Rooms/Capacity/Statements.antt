-- ===== src/User/Rooms/Capacity/Statements.antt =====
-- internal/user/db: the statements, and the capacity of the rooms.
use go_chat_msa.Common.{
  ℕ, suc, ◌≤◌, ◌<◌, ◌≡◌, refl, sym, subst, String, Bool, true, false, not, ◌&&◌, ◌||◌, Option, none,
  some, List, [], ◌∷◌, ◌++◌, ◌==◌, if◌then◌else◌, keep, is_some, Bool-cases, Option-cases, inl, inr,
  ◌⊎◌, arith,
}
use go_chat_msa.User.Db
use go_chat_msa.User.Db.{
  Db, UserRow, RoomRow, MemberRow, Answer, row, no_rows, violation, failed, managed_by, find_room,
  find_user, count_members, change_room,
}
use go_chat_msa.User.Rooms.Capacity.{
  Fits, Fit, find_room-append, find_room-new, count_members-append, count_members-keep,
  count_members-without, find_room-without, find_room-other, alter, find_room-change_room,
}

Fits-le : (m n : ℕ) (o : Option RoomRow) → m ≤ n → Fits n o → Fits m o
Fits-le m n none le h = omega (arith, h)
Fits-le m n (some r) le h = (omega (arith, h.0), h.1)

Fits-alter :
    (n : ℕ) (p : RoomRow → Bool) (f : RoomRow → RoomRow) (o : Option RoomRow)
    → ((r : RoomRow) → (f r).capacity ≡ r.capacity)
    → Fits n o
    → Fits n (alter p f o)
Fits-alter n p f none same h = h
Fits-alter n p f (some r) same h = ground (arith, same r)

pub delete_room_member-Fit :
    (room user : ℕ) (db : Db) → Fit db → Fit (Db.delete_room_member room user db).1
unfolding Db.delete_room_member
delete_room_member-Fit room user db fit i =
    Fits-le _ _ (find_room i db.rooms) (count_members-keep i _ db.members) (fit i)

pub update_room_manager-Fit :
    (room user : ℕ) (db : Db) → Fit db → Fit (Db.update_room_manager room user db).1
unfolding Db.update_room_manager
update_room_manager-Fit room user db fit i =
    subst (Fits (count_members i db.members))
      (sym (
        find_room-change_room i (λ x. x.id == room) (λ x. record x { manager_id = some user })
          (λ r. refl) db.rooms))
      (Fits-alter _ (λ x. x.id == room) (λ x. record x { manager_id = some user })
        (find_room i db.rooms) (λ r. refl) (fit i))

without-Fits :
    (room i : ℕ) (db : Db)
    → Fit db
    → (i ≡ room) ⊎ ((i == room) ≡ false)
    → Fits
        (count_members i (keep (λ m. not (m.room_id == room)) db.members))
        (find_room i (keep (λ x. not (x.id == room)) db.rooms))
without-Fits room i db fit (inl e) =
    rw (e, find_room-without room db.rooms) (count_members-without room db.members)
without-Fits room i db fit (inr e) =
    rw (find_room-other i room db.rooms e)
      (Fits-le _ _ (find_room i db.rooms) (count_members-keep i _ db.members) (fit i))

pub delete_room-Fit :
    (room : ℕ) (manager : Option ℕ) (db : Db) → Fit db → Fit (Db.delete_room room manager db).1
unfolding Db.delete_room
delete_room-Fit room none db fit = fit
delete_room-Fit room (some u) db fit = elim (Option-cases (find_room room db.rooms)) [
  | inl e ↦ rw (e, Db.delete_room) fit
  | inr (r, e) ↦ elim (Bool-cases (managed_by u r.manager_id)) [
    | inl b ↦ rw (e, b, Db.delete_room) (λ i. without-Fits room i db fit (ground arith))
    | inr b ↦ rw (e, b, Db.delete_room) fit
  ]
]

pub delete_user-Fit : (user : ℕ) (db : Db) → Fit db → Fit (Db.delete_user user db).1
unfolding Db.delete_user
delete_user-Fit user db fit = elim (Option-cases (find_user user db.users)) [
  | inl e ↦ rw (e, Db.delete_user) fit
  | inr (u, e) ↦
      rw (e, Db.delete_user)
        λ i.
          subst (Fits _)
            (sym (
              find_room-change_room i (λ r. managed_by user r.manager_id)
                (λ r. record r { manager_id = none }) (λ r. refl) db.rooms))
            (Fits-alter _ (λ r. managed_by user r.manager_id) (λ r. record r { manager_id = none })
              (find_room i db.rooms) (λ r. refl)
              (Fits-le _ _ (find_room i db.rooms) (count_members-keep i _ db.members) (fit i)))
]

-- A member more.
joined-Fits :
    (i room n : ℕ) (o : Option RoomRow) (r : RoomRow)
    → Fits n o
    → ((room == i) ≡ true → (o ≡ some r) × (n < r.capacity))
    → Fits (if room == i then suc n else n) o
joined-Fits i room n none r h c = elim (Bool-cases (room == i)) [
  | inl e ↦ ground (arith, c e)
  | inr e ↦ rw (e) h
]
joined-Fits i room n (some x) r h c = elim (Bool-cases (room == i)) [
  | inl e ↦ ground (arith, c e)
  | inr e ↦ rw (e) h
]

pub create_room_member-Fit :
    (m : MemberRow) (db : Db) (r : RoomRow)
    → Fit db
    → find_room m.room_id db.rooms ≡ some r
    → count_members m.room_id db.members < r.capacity
    → Fit (Db.create_room_member m db).1
unfolding Db.create_room_member
create_room_member-Fit m db r fit found room =
    elim (Bool-cases (is_some (Db.find_member m.room_id m.user_id db.members))) [
      | inl e ↦ rw (e) fit
      | inr e ↦
          elim (Bool-cases
            (is_some (find_user m.user_id db.users) && is_some (find_room m.room_id db.rooms))) [
              | inr g ↦ rw (e, g) fit
              | inl g ↦
                  rw (e, g)
                    λ i. rw (count_members-append i m db.members) (
                      joined-Fits i m.room_id (count_members i db.members) (find_room i db.rooms) r
                        (fit i) λ same. ground (arith, same))
            ]
    ]

new-Fits :
    (i : ℕ) (r : RoomRow) (db : Db)
    → Fits (count_members i db.members) (find_room i db.rooms)
    → (find_room i db.rooms ≡ none) ⊎ ((x : RoomRow) × (find_room i db.rooms ≡ some x))
    → r.capacity < 2147483648
    → Fits (count_members i db.members) (find_room i (db.rooms ++ r ∷ []))
new-Fits i r db fit (inr (x, e)) small =
    rw (find_room-append i r x db.rooms e) (subst (Fits _) e fit)
new-Fits i r db fit (inl e) small =
    rw (find_room-new i r db.rooms e) ground (arith, subst (Fits _) e fit)

-- The room that CreateRoom adds is found, and still has no member.
pub created-Fit :
    (r : RoomRow) (db : Db)
    → Fit db
    → r.capacity < 2147483648
    → (is_some (find_room r.id db.rooms) || not (Db.manager_exists r.manager_id db.users)) ≡ false
    → Fit (record db { rooms = db.rooms ++ r ∷ [] })
      × (find_room r.id (db.rooms ++ r ∷ []) ≡ some r)
      × (count_members r.id db.members ≡ 0)
created-Fit r db fit small free = elim (Option-cases (find_room r.id db.rooms)) [
  | inl e ↦ (
    (λ i. new-Fits i r db (fit i) (Option-cases (find_room i db.rooms)) small),
    ground (arith, find_room-new r.id r db.rooms e),
    subst (Fits _) e (fit r.id),
  )
  | inr (x, e) ↦ ground (arith, e)
]

resized-Fits :
    (i room : ℕ) (name : String) (capacity : ℕ) (db : Db) (o : Option RoomRow)
    → find_room i db.rooms ≡ o
    → (i ≡ room) ⊎ ((i == room) ≡ false)
    → Fits (count_members i db.members) o
    → count_members room db.members ≤ capacity
    → capacity < 2147483648
    → ((r : RoomRow) → find_room i db.rooms ≡ some r → r.id ≡ i)
    → Fits
        (count_members i db.members)
        (alter (λ x. x.id == room) (λ x. record x { name = name; capacity = capacity }) o)
resized-Fits i room name capacity db none e d h le small known = h
resized-Fits i room name capacity db (some r) e (inl d) h le small known = ground (arith, known r e)
resized-Fits i room name capacity db (some r) e (inr d) h le small known = ground (arith, known r e)

find_room-id : (i : ℕ) (r : RoomRow) (rs : List RoomRow) → find_room i rs ≡ some r → r.id ≡ i
unfolding find_room
find_room-id i r [] h = ground arith
find_room-id i r (x ∷ rs) h = ground (arith, find_room-id i r rs)

pub update_room-Fit :
    (room : ℕ) (name : String) (capacity manager : ℕ) (db : Db)
    → Fit db
    → count_members room db.members ≤ capacity
    → capacity < 2147483648
    → Fit (Db.update_room room name capacity manager db).1
unfolding Db.update_room
update_room-Fit room name capacity manager db fit le small =
    elim (Option-cases (find_room room db.rooms)) [
      | inl e ↦ rw (e, Db.update_room) fit
      | inr (r, e) ↦ elim (Bool-cases (managed_by manager r.manager_id)) [
        | inr b ↦ rw (e, b, Db.update_room) fit
        | inl b ↦
            rw (e, b, Db.update_room)
              λ i.
                rw
                  (find_room-change_room i (λ x. x.id == room)
                    (λ x. record x { name = name; capacity = capacity }) (λ r. refl) db.rooms)
                  (resized-Fits i room name capacity db _ refl (ground arith) (fit i) le small
                    (λ r. find_room-id i r db.rooms))
      ]
    ]
