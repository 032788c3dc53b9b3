-- ===== src/ApiGateway/Reading/Members.antt =====
-- internal/apigateway/handler_room.go with internal/user/service.go: the members of a room, for a member.
use go_chat_msa.Common.{
  ℕ, ◌≡◌, refl, ◌∙◌, sym, ◌&&◌, String, some, List, [], ◌∷◌, is_some, Bool-cases, Option-cases, inl,
  inr, arith, if◌then◌else◌,
}
use go_chat_msa.User.Db.{Db, find_room, find_member, find_user}
use go_chat_msa.User.Db.Lists
use go_chat_msa.User.Db.Lists.{
  ListRoomMembersRow, earlier, listed, order_by, members_of_room, listed-order_by,
  listed-members_of_room,
}
use go_chat_msa.User.Tx.{Result, ok, err}
use go_chat_msa.User.Rooms.{Env}
use go_chat_msa.User.Rooms.Joining
use go_chat_msa.User.Rooms.Listing
use go_chat_msa.User.Rooms.Listing.{room_members_from_rows}
use go_chat_msa.Shared.Http.{Response, problem, json, bare, relayed, switching}
use go_chat_msa.Shared.Middleware.{Request, get_user_id}
use go_chat_msa.ApiGateway.{Input, Log, Clients, Config, Payload, RoomMember}
use go_chat_msa.ApiGateway.Rooms
use go_chat_msa.ApiGateway.Reading.{calling_by, with_user_by}
use go_chat_msa.Websocket.Front.Served.{MemberOf, verify_room_member-MemberOf}

-- A claim on the members of a response, if it lists members.
abbrev pub Listed : (List RoomMember → Type 0) → Response Payload → Type 0
Listed P (problem s) = Unit
Listed P (json s (Payload.members ms)) = P ms
Listed P (json s _) = Unit
Listed P (bare s) = Unit
Listed P (relayed s) = Unit
Listed P switching = Unit

-- The user of the request is a member of the room.
abbrev pub ByMember : Env → Db → Request Input → Type 0
ByMember e db req =
    (user_id : String) × (get_user_id req ≡ some user_id) × MemberOf e req.input.room_id user_id db

-- The members of the service as the gateway shows them, with time.RFC3339.
abbrev pub shown_members : (ℕ → String) → List Listing.RoomMember → List RoomMember
shown_members format [] = []
shown_members format (m ∷ ms) =
    record { user_id = m.user_id; username = m.username; joined_at = format m.joined_at }
    ∷ shown_members format ms

abbrev pub shown_answer : (ℕ → String) → Result (List Listing.RoomMember) → Result (List RoomMember)
shown_answer format (ok ms) = ok (shown_members format ms)
shown_answer format (err e) = err e

-- Rows with exactly the users of the database that are members of the room.
abbrev pub Exactly : Db → ℕ → List ListRoomMembersRow → Type 0
Exactly db room rows =
    (v : ℕ)
    → listed v rows ≡ (
        is_some (find_room room db.rooms)
        && (is_some (find_member room v db.members) && is_some (find_user v db.users)))

module _ (text format : ℕ → String) (e : Env) (db : Db) where
  -- The members shown are those of the room.
  abbrev pub OfRoom : String → List RoomMember → Type 0
  OfRoom room_id ms =
      (room : ℕ) × (rows : List ListRoomMembersRow) × (e.parse room_id ≡ some room)
      × (ms ≡ shown_members format (room_members_from_rows text rows))
      × Exactly db room rows

  rows_exact :
      (room : ℕ)
      → Exactly db room (
          if is_some (find_room room db.rooms)
          then order_by earlier (members_of_room room db.users db.members)
          else [])
  unfolding listed
  rows_exact room v = elim (Bool-cases (is_some (find_room room db.rooms))) [
    | inl r ↦ rw r (
        listed-order_by v (members_of_room room db.users db.members)
        ∙ listed-members_of_room room v db.users db.members)
    | inr r ↦ rw r refl
  ]

  list_room_members-OfRoom :
      (room_id : String) (ms : List RoomMember)
      → shown_answer format (Listing.list_room_members text e room_id db) ≡ ok ms
      → OfRoom room_id ms
  unfolding Listing.list_room_members Lists.list_room_members
  list_room_members-OfRoom room_id ms got = elim (Option-cases (e.parse room_id)) [
    | inl p ↦ absurd (ground (arith, rw (p, Listing.list_room_members) at got))
    | inr (room, p) ↦ elim (Bool-cases (e.fault 0)) [
      | inl f ↦ absurd (ground (arith, rw (p, f, Listing.list_room_members) at got))
      | inr f ↦ (
        room,
        _,
        p,
        sym (ground (arith, rw (p, f, Listing.list_room_members) at got)),
        rows_exact room,
      )
    ]
  ]

-- With the user service over its database: when GET /rooms/{id}/members answers with members, the
-- user of the request is a member of the room, and the members are the rows of a list in which a
-- user stands exactly if the room, the user and its membership of the room are in the database.
pub members_for_members :
    (cfg : Config) (cl : Clients) (text format : ℕ → String) (e : Env) (db : Db)
    (req : Request Input) (log : Log)
    → let clients = record cl {
      verify_room_member = λ room_id user_id. Joining.verify_room_member e room_id user_id db;
      list_room_members =
          λ room_id. shown_answer format (Listing.list_room_members text e room_id db);
    } in
      Listed
        (λ ms. ByMember e db req × OfRoom text format e db req.input.room_id ms)
        (Rooms.handle_list_room_members cfg clients req log).1
unfolding Rooms.handle_list_room_members
members_for_members cfg cl text format e db req log =
    let P : List RoomMember → Type 0 =
      λ ms. ByMember e db req × OfRoom text format e db req.input.room_id ms in
    with_user_by (Listed P) (λ s. tt) req _ log
      λ u is_user.
        calling_by (Listed P) (λ s. tt) _ _ _ log
          λ t verified.
            calling_by (Listed P) (λ s. tt) _ _ _ _
              λ ms got. (
                (u, is_user, verify_room_member-MemberOf e req.input.room_id u db verified),
                list_room_members-OfRoom text format e db req.input.room_id ms got,
              )
