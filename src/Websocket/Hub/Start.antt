-- ===== src/Websocket/Hub/Start.antt =====
-- hub.go: `initializeSequence`, and the numbers of a hub that takes a room over, from the floor that
-- internal/websocket/roomseq keeps to the tasks that the hub queues.
use go_chat_msa.Common.{
  ℕ, ◌+◌, ◌<◌, ◌≤◌, ◌≡◌, true, false, not, Option, none, some, List, [], ◌∷◌, ◌++◌, String, arith,
  length, All, mod_64, min_64, sle_64, slt_64, if◌then◌else◌,
}
use go_chat_msa.Websocket.Message.{Message}
use go_chat_msa.Websocket.Lease.{Net}
use go_chat_msa.Websocket.SequenceFloor
use go_chat_msa.Websocket.SequenceFloor.{
  Keys, Result, Error, IsTonumber, double_limit, ok, err, set_max, set_all, last_sequence_number,
  recorded_floor_holds,
}
use go_chat_msa.Websocket.Hub.{Hub, Lru, Persist, PersistTask, Env}
use go_chat_msa.Websocket.Hub.Broadcast.{needs_persist}
use go_chat_msa.Websocket.Hub.Sequence.{
  handle_all, handle_all-Gapless, handle_all_count, CountsFrom,
}

-- The answer is that of the store's GetLastSequenceNumber; the error is ErrRoomSequenceUnavailable
-- around the given one.
unfoldable pub initialize_sequence : {C : Type 0} → Result → Hub C → Hub C × Option Error
initialize_sequence answer h =
    if not h.has_store
    then (h, none)
    else elim answer [ ok n ↦ (record h { last_sequence = n }, none) | err e ↦ (h, some e) ]

-- A store that is set and no error: the hub starts from the answer.
initialized :
    {C : Type 0} (answer : Result) (h h1 : Hub C)
    → h.has_store ≡ true
    → initialize_sequence answer h ≡ (h1, none)
    → (answer ≡ ok h1.last_sequence) × (h1.has_store ≡ true)
unfolding initialize_sequence
initialized (ok n) h h1 s e = ground arith
initialized (err x) h h1 s e = ground arith

-- Numbered above two others, as signed numbers.
abbrev pub Above : ℕ → ℕ → PersistTask → Type 0
Above a b t = (slt_64 a t.msg.sequence_number ≡ true) × (slt_64 b t.msg.sequence_number ≡ true)

number-Above :
    (seq stored n number : ℕ)
    → sle_64 seq 0 ≡ false
    → seq ≤ n
    → n < min_64
    → (if sle_64 stored n then n else stored) < number
    → number < min_64
    → (slt_64 seq number ≡ true) × (slt_64 stored number ≡ true)
number-Above seq stored n number pos le small above bound = (ground arith, ground arith)

CountsFrom-Above :
    (seq stored n first : ℕ) (ts : List PersistTask)
    → sle_64 seq 0 ≡ false
    → seq ≤ n
    → n < min_64
    → (if sle_64 stored n then n else stored) ≤ first
    → first + length ts < min_64
    → CountsFrom first ts
    → All (Above seq stored) ts
CountsFrom-Above seq stored n first [] pos le small above bound c = tt
CountsFrom-Above seq stored n first (t ∷ ts) pos le small above bound (c, cs) = (
  number-Above seq stored n t.msg.sequence_number pos le small (omega arith) (omega arith),
  CountsFrom-Above seq stored n (first + 1) ts pos le small (omega arith) (omega arith) cs,
)

module _ {C : Type 0} (lru : Lru C) where
  -- If SetMax succeeded for a room with a positive number up to 2 ^ 53, Lua's `tonumber` keeps
  -- the order of numbers and is exact up to 2 ^ 53, and after any further calls of SetMax a hub
  -- with a store and a persistence channel starts without an error from the greater of the
  -- floor and the number stored: as long as its counter and the count of its messages are
  -- together below 2 ^ 63, every task that it queues, whatever messages it handles, has a
  -- number above the one given to SetMax and above the one stored, as signed numbers.
  pub takeover_rises :
      (tonumber : ℕ → ℕ) (prefix : String) (net net' : Net) (room : String) (seq stored : ℕ)
      (calls : List (Net × String × ℕ)) (db : Keys) (h h1 : Hub C) (p : Persist)
      (ms : List (Env × Message))
      → IsTonumber tonumber
      → sle_64 seq 0 ≡ false
      → seq ≤ double_limit
      → (set_max tonumber prefix net room seq db).1 ≡ true
      → needs_persist h p ≡ true
      → initialize_sequence
          (last_sequence_number (ok stored) (
            SequenceFloor.get prefix net' room
              (set_all tonumber prefix calls (set_max tonumber prefix net room seq db).0)))
          h
        ≡ (h1, none)
      → h1.last_sequence + length ms < min_64
      → (ts : List PersistTask) × ((handle_all lru ms h1 p).1.queue ≡ p.queue ++ ts)
        × All (Above seq stored) ts
  takeover_rises tonumber prefix net net' room seq stored calls db h h1 p ms law pos exact set n
        start small =
      let stores : h.has_store ≡ true = ground arith in
      let (answered, still) = initialized _ h h1 stores start in
      let (floor, above, bound, first) =
        recorded_floor_holds tonumber law prefix net net' room seq stored h1.last_sequence calls db
          pos exact set answered in
      let persists : needs_persist h1 p ≡ true = ground arith in
      let wide : h1.last_sequence + length ms < mod_64 = omega arith in
      let (ts, added, counts, last) = handle_all-Gapless lru ms h1 p persists wide in
      let counted = handle_all_count lru ms h1 p persists wide in
      (
        ts,
        added,
        CountsFrom-Above seq stored floor h1.last_sequence ts pos above bound (omega arith)
            (omega arith) counts,
      )
