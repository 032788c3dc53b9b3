-- ===== src/User/Tx.antt =====
-- The database as the service's methods reach it: `runInTx` of cmd/user-service/main.go, and calls
-- that may fail at any point. `fault` says of each call, by its number, whether it fails before it
-- takes effect.
use go_chat_msa.Common.{ℕ, ◌+◌, ◌≡◌, Bool, if◌then◌else◌, arith}
use go_chat_msa.Grpc.{Error, Code, status, other}
use go_chat_msa.User.Db.{Db, Answer, row, no_rows, violation, failed}

pub record Tx : Type 0 where
  pub db : Db
  pub calls : ℕ

pub data Result (A : Type 0) : Type 0 where
  ok : A → Result A
  err : Error → Result A

abbrev pub M : Type 0 → Type 0
M A = Tx → Result A × Tx

-- A method that returns an error and changes nothing.
abbrev pub bad : {A : Type 0} → Code → Db → Result A × Db
bad c db = (err (status c), db)

abbrev pub after : {A B : Type 0} → Result A → (A → M B) → M B
after (ok a) f tx = f a tx
after (err e) f tx = (err e, tx)

infixl 5 ◌>>=◌ ◌>>◌
abbrev pub ◌>>=◌ : {A B : Type 0} → M A → (A → M B) → M B
◌>>=◌ m f tx = after (m tx).0 f (m tx).1

abbrev pub ◌>>◌ : {B : Type 0} → M (Unit {0}) → M B → M B
m >> k = m >>= λ _. k

abbrev pub pure : {A : Type 0} → A → M A
pure a tx = (ok a, tx)

abbrev pub fail : {A : Type 0} → Error → M A
fail e tx = (err e, tx)

-- One statement.
abbrev pub query : {A : Type 0} → (ℕ → Bool) → (Db → Answer A × Db) → M (Answer A)
query fault q tx =
    if fault tx.calls
    then (ok failed, record tx { calls = tx.calls + 1 })
    else (ok (q tx.db).0, record { db = (q tx.db).1; calls = tx.calls + 1 })

-- One statement that reads, outside a transaction.
abbrev pub alone : {A : Type 0} → (ℕ → Bool) → (Db → Answer A × Db) → Db → Answer A
alone fault q db = if fault 0 then failed else (q db).0

-- The row, or the errors for pgx.ErrNoRows and for anything else.
abbrev pub expect : {A : Type 0} → Error → Error → Answer A → M A
expect missing broken (row a) = pure a
expect missing broken no_rows = fail missing
expect missing broken violation = fail broken
expect missing broken failed = fail broken

-- `runInTx`, given whether Begin and Commit succeed: an error rolls back.
abbrev pub commit : {A : Type 0} → Bool → Db → Result A × Tx → Result A × Db
commit commits db (err e, tx) = (err e, db)
commit commits db (ok a, tx) = if commits then (ok a, tx.db) else (err other, db)

unfoldable pub run_in_tx : {A : Type 0} → Bool → Bool → M A → Db → Result A × Db
run_in_tx begins commits body db =
    if begins then commit commits db (body (record { db = db; calls = 0 })) else (err other, db)

-- A transaction that returns an error leaves the database as it was, whichever of its statements,
-- its begin or its commit failed.
run_in_tx_atomic :
    {A : Type 0} (begins commits : Bool) (body : M A) (db : Db) {e : Error}
    → (run_in_tx begins commits body db).0 ≡ err e
    → (run_in_tx begins commits body db).1 ≡ db
unfolding run_in_tx
run_in_tx_atomic begins commits body db h = ground arith
