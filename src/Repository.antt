-- ===== src/Repository.antt =====
-- The deposits in PostgreSQL: server/internal/db/postgres.go over the tables of
-- server/internal/db/migrations/001_init.sql. `B` is the type of the column `data`.
pub mod Outcomes
pub mod View
use xmiete.Prelude.{String, Option, none, some, List, [], ◌∷◌, ◌++◌, ◌==◌, any, if◌then◌else◌}
use xmiete.Calendar.{Time}
use xmiete.Models.{LifecycleState, requested, HistoryEntry, Deposit}
use xmiete.Host.{
  Codec, ok, not_found, failed, panicked, Io, ◌>>=◌, ◌>>◌, uuid_new, time_now, statement, modify,
  pure, gets, throw, or_else, transaction,
}

pub record DepositRow (B : Type 0) : Type 0 where
  pub id : String
  pub lifecycle_state : LifecycleState
  pub raw : B

pub record HistoryRow : Type 0 where
  pub deposit_id : String
  pub state : LifecycleState
  pub timestamp : Time
  pub actor : String
  pub comment : String
  pub signature : String

pub record Db (B : Type 0) : Type 0 where
  pub deposits : List (DepositRow B)
  pub deposit_history : List HistoryRow

module _ {B : Type 0} where
  -- SELECT data FROM deposits WHERE id = $1
  unfoldable pub select_data : String → List (DepositRow B) → Option B
  select_data id [] = none
  select_data id (row ∷ rows) = if row.id == id then some row.raw else select_data id rows

  -- UPDATE deposits SET lifecycle_state = $1, data = $2 WHERE id = $3
  unfoldable pub update_rows :
      LifecycleState → B → String → List (DepositRow B) → List (DepositRow B)
  update_rows state raw id [] = []
  update_rows state raw id (row ∷ rows) =
      (if row.id == id then record row { lifecycle_state = state; raw = raw } else row)
      ∷ update_rows state raw id rows

  -- INSERT INTO deposits; the column `id` is the primary key.
  abbrev insert_deposit : DepositRow B → Io (Db B) (Unit {0})
  insert_deposit row = do
    statement
    gets (λ db. if any (λ r. r.id == row.id) db.deposits then failed else ok tt)
    modify (λ db. record db { deposits = db.deposits ++ row ∷ [] })

  -- INSERT INTO deposit_history
  abbrev insert_history : HistoryRow → Io (Db B) (Unit {0})
  insert_history row = do
    statement
    modify (λ db. record db { deposit_history = db.deposit_history ++ row ∷ [] })

-- The audit row of an entry.
abbrev pub history_row : String → HistoryEntry → HistoryRow
history_row id e = record {
  deposit_id = id;
  state = e.state;
  timestamp = e.timestamp;
  actor = e.actor;
  comment = e.comment;
  signature = e.signature;
}

module _ {A B : Type 0} (json : Codec (Deposit A) B) where
  unfoldable pub create : Deposit A → Io (Db B) (Deposit A)
  create d = do
    id ← uuid_new
    now ← time_now
    let entry : HistoryEntry = record {
      state = requested;
      timestamp = now;
      actor = "TENANT";
      comment = "";
      signature = "";
    }
    let data' = record d.deposit { lifecycle_state = requested; history = entry ∷ [] }
    let d' = record d { id = id; deposit = data'; meta = record d.meta { timestamp = now } }
    raw ← throw (or_else failed (json.marshal d'))
    insert_deposit (record { id = id; lifecycle_state = requested; raw = raw })
    insert_history (history_row id entry)
    pure d'

  unfoldable pub get_by_id : String → Io (Db B) (Deposit A)
  unfolding select_data
  get_by_id id = do
    statement
    raw ← gets (λ db. or_else not_found (select_data id db.deposits))
    throw (or_else failed (json.unmarshal raw))

  -- `patch` gives `none` where the closure dereferences nil; a nil patch is `some`.
  unfoldable pub update_state :
      String
      → LifecycleState
      → HistoryEntry
      → (Deposit A → Option (Deposit A))
      → Io (Db B) (Deposit A)
  unfolding select_data update_rows
  update_state id new_state entry patch = transaction do
    statement
    raw ← gets (λ db. or_else not_found (select_data id db.deposits))
    d ← throw (or_else failed (json.unmarshal raw))
    d' ← throw (or_else panicked (patch d))
    now ← time_now
    let stamped = record entry { timestamp = now }
    let data' = record d'.deposit {
      lifecycle_state = new_state;
      history = d'.deposit.history ++ stamped ∷ [];
    }
    let updated = record d' { deposit = data' }
    raw' ← throw (or_else failed (json.marshal updated))
    statement
    modify (λ db. record db { deposits = update_rows new_state raw' id db.deposits })
    insert_history (history_row id stamped)
    pure updated
