-- ===== src/State/Sqlite.antt =====
-- state/sqlite_store.go: the methods of SQLiteStore. The database is a parameter, with a function for
-- each statement that the methods run; `none` is an error of the driver. time.Format and time.Parse
-- are parameters too. A time is the number of nanoseconds since the zero time; its zone is UTC, and it
-- is before the year 10000.
use agentfactory_gateway.Common.{
  ℕ, String, Bool, false, ◌≡◌, Option, none, some, List, [], ◌∷◌, if◌then◌else◌, ltb, ◌==◌, ◌-◌,
  ◌%◌,
}
use agentfactory_gateway.State.Json.{TaskRecord, stamped}

-- a row of task_records
pub record Row : Type 0 where
  pub task_id : String
  pub channel_id : String
  pub slack_ts : String
  pub user_id : String
  pub prompt : String
  pub status : String
  pub updated_at : String

pub record Database : Type 1 where
  pub Db : Type 0
  -- INSERT OR REPLACE
  pub replace : Row → Db → Option Db
  -- WHERE task_id = ?; no row is `some none`
  pub select_by_id : String → Db → Option (Option Row)
  -- WHERE status = 'running'; a row that cannot be scanned is `none`
  pub select_running : Db → Option (List (Option Row))
  -- COUNT(*) WHERE channel_id = ? AND (status = 'running' OR status = 'paused')
  pub count_active : String → Db → Option ℕ
  -- WHERE channel_id = ? ORDER BY updated_at DESC LIMIT 1
  pub select_latest : String → Db → Option (Option Row)
  -- time.Format and time.Parse with a layout
  pub format : String → ℕ → String
  pub parse : String → String → ℕ

abbrev pub iso8601 : String
iso8601 = "2006-01-02T15:04:05Z"

-- The time without its part below a second.
abbrev pub to_second : ℕ → ℕ
to_second t = t - t % 1000000000

-- A row that was written is read back in place of an older one of the same id, and the other rows
-- stay; a time that was written with the layout of date and time to the second is read back to the second.
pub record IsLawful (D : Database) : Type 0 where
  pub select-replace :
      (r : Row) (d e : D.Db) (id : String)
      → D.replace r d ≡ some e
      → D.select_by_id id e ≡ (if r.task_id == id then some (some r) else D.select_by_id id d)
  pub parse-format :
      (t : ℕ) → D.parse "2006-01-02T15:04:05Z" (D.format "2006-01-02T15:04:05Z" t) ≡ to_second t

module _ (D : Database) where
  unfoldable pub row_of : TaskRecord → Row
  row_of rec = record {
    task_id = rec.task_id;
    channel_id = rec.channel_id;
    slack_ts = rec.slack_ts;
    user_id = rec.user_id;
    prompt = rec.prompt;
    status = rec.status;
    updated_at = D.format iso8601 rec.updated_at;
  }

  unfoldable pub record_of : Row → TaskRecord
  record_of row = record {
    task_id = row.task_id;
    channel_id = row.channel_id;
    slack_ts = row.slack_ts;
    user_id = row.user_id;
    prompt = row.prompt;
    status = row.status;
    updated_at = D.parse iso8601 row.updated_at;
  }

  -- none is the error "set record"
  unfoldable pub set : ℕ → TaskRecord → D.Db → Option D.Db
  set now rec db = D.replace (row_of (stamped now rec)) db

  -- the row of a QueryRow that finds one
  unfoldable pub found : Option (Option Row) → Option TaskRecord
  unfolding record_of
  found none = none
  found (some none) = none
  found (some (some row)) = some (record_of row)

  unfoldable pub get : String → D.Db → Option TaskRecord
  get task_id db = found (D.select_by_id task_id db)

  -- the loop over rows.Next
  unfoldable pub scan_rows : List (Option Row) → List TaskRecord
  unfolding record_of
  scan_rows [] = []
  scan_rows (none ∷ rows) = scan_rows rows
  scan_rows (some row ∷ rows) = record_of row ∷ scan_rows rows

  unfoldable pub list_active : D.Db → List TaskRecord
  list_active db = elim (D.select_running db) [ none ↦ [] | some rows ↦ scan_rows rows ]

  unfoldable pub has_active_task : String → D.Db → Bool
  has_active_task channel db = elim (D.count_active channel db) [ none ↦ false | some n ↦ ltb 0 n ]

  unfoldable pub get_by_channel : String → D.Db → Option TaskRecord
  get_by_channel channel db = found (D.select_latest channel db)
