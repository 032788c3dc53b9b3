-- ===== src/Websocket/SequenceFloor.antt =====
-- internal/websocket/roomseq/redis.go and internal/websocket/hub/sequence_floor.go: the lowest
-- sequence number that a new owner of a room may start from. An int64 is its bit pattern. Lua's
-- `tonumber`, which gives a double, is a parameter: `tonumber n` is the double for the digits of n.
use Prim.Native.String.{◌++◌ as text_append}
use go_chat_msa.Common.{
  ℕ, ◌≤◌, ◌<◌, ◌≡◌, refl, String, Bool, true, false, Option, none, some, List, [], ◌∷◌, ltb, sle_64,
  min_64, if◌then◌else◌, find, put, arith, find-put, str_eq_iff, str_eq_refl, leb, Bool-cases, inl,
  inr,
}
use go_chat_msa.Websocket.Lease.{Net, delivered, call_lost, reply_lost}

-- What a key holds: the digits of a number, or a text that neither Lua nor ParseInt reads as one.
pub data Value : Type 0 where
  number : ℕ → Value
  junk : Value

abbrev pub Keys : Type 0
Keys = List (String × Value)

pub data Error : Type 0 where
  unreachable malformed base_failed : Error

pub data Result : Type 0 where
  ok : ℕ → Result
  err : Error → Result

-- The greatest number up to which a double is exact, 2 ^ 53.
abbrev pub double_limit : ℕ
double_limit = 9007199254740992

-- Rounding to a double keeps the order, and is exact up to the limit.
abbrev pub IsTonumber : (ℕ → ℕ) → Type 0
IsTonumber tonumber =
    ((a b : ℕ) → a ≤ b → tonumber a ≤ tonumber b) × ((n : ℕ) → n ≤ double_limit → tonumber n ≡ n)

module _ (tonumber : ℕ → ℕ) where
  -- `setMaxLua`; the flag says whether the script ran to its end.
  unfoldable pub set_max_lua : String → ℕ → Keys → Keys × Bool
  set_max_lua k seq db = elim (find k db) [
    | none ↦ (put k (number seq) db, true)
    | some junk ↦ (db, false)
    | some (number current) ↦
        (if ltb (tonumber current) (tonumber seq) then put k (number seq) db else db, true)
  ]

  -- `SetMax`, with whether it succeeded. A number that is not positive is not stored.
  unfoldable pub set_max : String → Net → String → ℕ → Keys → Keys × Bool
  set_max prefix net room_id seq db =
      if sle_64 seq 0
      then (db, true)
      else let (db', ran) = set_max_lua (text_append prefix room_id) seq db in
        elim net [ delivered ↦ (db', ran) | call_lost ↦ (db, false) | reply_lost ↦ (db', false) ]

  -- Calls of `SetMax` by any servers, on any rooms.
  unfoldable pub set_all : String → List (Net × String × ℕ) → Keys → Keys
  set_all prefix [] db = db
  set_all prefix ((net, room, seq) ∷ calls) db =
      set_all prefix calls (set_max prefix net room seq db).0

-- `Get`; ParseInt refuses a number of more than 63 bits.
unfoldable pub get : String → Net → String → Keys → Result
get prefix delivered room_id db = elim (find (text_append prefix room_id) db) [
  | none ↦ ok 0
  | some (number n) ↦ if ltb n min_64 then ok n else err malformed
  | some junk ↦ err malformed
]
get prefix call_lost room_id db = err unreachable
get prefix reply_lost room_id db = err unreachable

-- `sequenceFloorMessageStore.GetLastSequenceNumber`, from what the store and the floor answered:
-- the greater of the two as signed numbers.
unfoldable pub last_sequence_number : Result → Result → Result
last_sequence_number (err e) floor = err e
last_sequence_number (ok seq) (err e) = err e
last_sequence_number (ok seq) (ok floor) = ok (if sle_64 seq floor then floor else seq)

-- The number under a key, 0 for none.
abbrev pub floor_of : Option Value → ℕ
floor_of none = 0
floor_of (some junk) = 0
floor_of (some (number n)) = n

last_of_both :
    (stored first : ℕ) (r : Result)
    → last_sequence_number (ok stored) r ≡ ok first
    → (n : ℕ) × (r ≡ ok n) × (first ≡ (if sle_64 stored n then n else stored))
unfolding last_sequence_number
last_of_both stored first (ok n) h = (n, refl, ground (arith, h))
last_of_both stored first (err e) h = cc

get_floor :
    (prefix : String) (net : Net) (room : String) (db : Keys) (n : ℕ)
    → get prefix net room db ≡ ok n
    → (n ≡ floor_of (find (text_append prefix room) db)) × (n < min_64)
unfolding get
get_floor prefix delivered room db n h = ground arith
get_floor prefix call_lost room db n h = cc
get_floor prefix reply_lost room db n h = cc

module _ (tonumber : ℕ → ℕ) (law : IsTonumber tonumber) where
  -- A number that the script writes over is not above the new one.
  raised : (current seq : ℕ) → ltb (tonumber current) (tonumber seq) ≡ true → current ≤ seq
  raised current seq h = elim (Bool-cases (leb current seq)) [
    | inl b ↦ ground (arith, b)
    | inr b ↦ absurd (ground (arith, b, h, law.0 seq current (ground (arith, b))))
  ]

  -- A number that the script leaves is not below a given one within the limit.
  kept :
      (current seq : ℕ)
      → seq ≤ double_limit
      → ltb (tonumber current) (tonumber seq) ≡ false
      → seq ≤ current
  kept current seq le h = elim (Bool-cases (leb seq current)) [
    | inl b ↦ ground (arith, b)
    | inr b ↦ absurd (ground (arith, b, h, law.1 seq le, law.1 current (ground (arith, b, le))))
  ]

  set_max_lua_rises :
      (k k' : String) (seq : ℕ) (db : Keys)
      → floor_of (find k db) ≤ floor_of (find k (set_max_lua tonumber k' seq db).0)
  unfolding set_max_lua
  set_max_lua_rises k k' seq db =
      ground
        (arith, raised (floor_of (find k' db)) seq, str_eq_iff k' k, find-put k' k (number seq) db)

  set_max_rises :
      (prefix : String) (net : Net) (room k : String) (seq : ℕ) (db : Keys)
      → floor_of (find k db) ≤ floor_of (find k (set_max tonumber prefix net room seq db).0)
  unfolding set_max
  set_max_rises prefix net room k seq db =
      ground (arith, set_max_lua_rises k (text_append prefix room) seq db)

  set_all_rises :
      (prefix k : String) (calls : List (Net × String × ℕ)) (db : Keys)
      → floor_of (find k db) ≤ floor_of (find k (set_all tonumber prefix calls db))
  unfolding set_all
  set_all_rises prefix k [] db = omega arith
  set_all_rises prefix k ((net, room, seq) ∷ calls) db = omega (
    arith,
    set_max_rises prefix net room k seq db,
    set_all_rises prefix k calls (set_max tonumber prefix net room seq db).0,
  )

  set_max_reaches :
      (prefix : String) (net : Net) (room : String) (seq : ℕ) (db : Keys)
      → sle_64 seq 0 ≡ false
      → seq ≤ double_limit
      → (set_max tonumber prefix net room seq db).1 ≡ true
      → seq ≤ floor_of (find (text_append prefix room) (set_max tonumber prefix net room seq db).0)
  unfolding set_max set_max_lua
  set_max_reaches prefix net room seq db pos le h =
      let k = text_append prefix room in
      ground
        (arith, kept (floor_of (find k db)) seq le, str_eq_refl k, find-put k k (number seq) db)

  -- If SetMax succeeded with a positive number up to 2 ^ 53 for a room, then after any further
  -- calls of SetMax on any rooms, delivered or not, a new owner that reads a first number gets the
  -- greater of the number stored and a floor that is not below it.
  pub recorded_floor_holds :
      (prefix : String) (net net' : Net) (room : String) (seq stored first : ℕ)
      (calls : List (Net × String × ℕ)) (db : Keys)
      → sle_64 seq 0 ≡ false
      → seq ≤ double_limit
      → (set_max tonumber prefix net room seq db).1 ≡ true
      → last_sequence_number (ok stored) (
          get prefix net' room
            (set_all tonumber prefix calls (set_max tonumber prefix net room seq db).0))
        ≡ ok first
      → (n : ℕ) × (seq ≤ n) × (n < min_64) × (first ≡ (if sle_64 stored n then n else stored))
  recorded_floor_holds prefix net net' room seq stored first calls db pos le h e =
      let db1 = (set_max tonumber prefix net room seq db).0 in
      let db2 = set_all tonumber prefix calls db1 in
      let (n, got, greater) = last_of_both stored first (get prefix net' room db2) e in
      let (same, small) = get_floor prefix net' room db2 n got in
      (
        n,
        omega (
          arith,
          set_max_reaches prefix net room seq db pos le h,
          set_all_rises prefix (text_append prefix room) calls db1,
          same,
        ),
        small,
        greater,
      )
