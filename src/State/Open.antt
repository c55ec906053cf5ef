-- ===== src/State/Open.antt =====
-- state/sqlite_store.go: NewSQLiteStore, checkpointLoop and Close. The driver is the function that answers
-- to a statement with an error or none; the calls are listed in order. The text of CREATE TABLE has one
-- space for each run of white space.
use agentfactory_gateway.Common.{
  ℕ, String, Bool, true, false, ◌≡◌, refl, inl, inr, Option, none, some, List, [], ◌∷◌, ◌++◌, sym,
  ◌∙◌, Option-cases, All, ◌↔◌,
}
use agentfactory_gateway.Common.Text.{◌<>◌}

pub data DbCall : Type 0 where
  open_db : String → DbCall
  exec : String → DbCall
  -- the limits of the pool; the last is a number of minutes
  set_max_open_conns set_max_idle_conns set_conn_max_lifetime : ℕ → DbCall
  start_checkpoints stop_checkpoints close_db : DbCall

abbrev pub pragmas : List String
pragmas =
    "PRAGMA busy_timeout = 5000;" ∷ "PRAGMA synchronous = NORMAL;"
    ∷ "PRAGMA wal_autocheckpoint = 1000;" ∷ []

abbrev pub create_table : String
create_table =
    "CREATE TABLE IF NOT EXISTS task_records (task_id TEXT PRIMARY KEY, channel_id TEXT, slack_ts TEXT, user_id TEXT, prompt TEXT, status TEXT, updated_at TEXT)"

abbrev pub indexes : List String
indexes =
    "CREATE INDEX IF NOT EXISTS idx_task_status ON task_records(status)"
    ∷ "CREATE INDEX IF NOT EXISTS idx_task_channel ON task_records(channel_id)"
    ∷ "CREATE INDEX IF NOT EXISTS idx_task_channel_status ON task_records(channel_id, status)" ∷ []

-- A statement with the text that is put before its error.
abbrev pub Statement : Type 0
Statement = String × String

abbrev pub named : (String → String) → List String → List Statement
named label [] = []
named label (s ∷ ss) = (s, label s) ∷ named label ss

-- The statements of the set-up, in order.
abbrev pub setup : List Statement
setup =
    ("PRAGMA journal_mode=WAL", "set WAL mode: ")
    ∷ (named (λ p. "exec " <> p <> ": ") pragmas
        ++ (create_table, "create table: ") ∷ named (λ i. "create index: ") indexes)

abbrev pub pool_limits : List DbCall
pool_limits = set_max_open_conns 1 ∷ set_max_idle_conns 2 ∷ set_conn_max_lifetime 5 ∷ []

-- NewSQLiteStore after the statements
unfoldable pub new_store_of : String → List DbCall × Option String → List DbCall × Option String
new_store_of path (calls, some e) = (open_db path ∷ pool_limits ++ calls, some e)
new_store_of path (calls, none) =
    (open_db path ∷ pool_limits ++ calls ++ start_checkpoints ∷ [], none)

module _ (answer : String → Option String) where
  -- if _, err := db.Exec(s); err != nil { db.Close(); return nil, ... }
  unfoldable pub run_statements : List Statement → List DbCall × Option String
  run_statements [] = ([], none)
  run_statements ((s, label) ∷ rest) = elim (answer s) [
    | some e ↦ (exec s ∷ close_db ∷ [], some (label <> e))
    | none ↦ let (calls, err) = run_statements rest in (exec s ∷ calls, err)
  ]

  unfoldable pub new_sqlite_store : String → Option String → List DbCall × Option String
  unfolding run_statements new_store_of
  new_sqlite_store path open_error = elim open_error [
    | some e ↦ (open_db path ∷ [], some ("open sqlite: " <> e))
    | none ↦ new_store_of path (run_statements setup)
  ]

-- Close of a store that NewSQLiteStore has made
unfoldable pub close : List DbCall
close = stop_checkpoints ∷ close_db ∷ []

-- What checkpointLoop waits for: a tick, or the end of its context, after which it returns.
pub data Wake : Type 0 where
  tick cancelled : Wake

unfoldable pub checkpoint_loop : List Wake → List DbCall
checkpoint_loop [] = []
checkpoint_loop (cancelled ∷ wakes) = []
checkpoint_loop (tick ∷ wakes) = exec "PRAGMA wal_checkpoint(PASSIVE)" ∷ checkpoint_loop wakes

abbrev pub closes : List DbCall → Bool
closes [] = false
closes (close_db ∷ calls) = true
closes (_ ∷ calls) = closes calls

abbrev pub checkpoints : List DbCall → Bool
checkpoints [] = false
checkpoints (start_checkpoints ∷ calls) = true
checkpoints (_ ∷ calls) = checkpoints calls

-- With an error the database is closed and no loop is started; without one the loop is started and the
-- database is open.
abbrev pub IsTidy : List DbCall × Option String → Type 0
IsTidy (calls, none) = (closes calls ≡ false) × (checkpoints calls ≡ true)
IsTidy (calls, some e) = (closes calls ≡ true) × (checkpoints calls ≡ false)

-- The same of a part of the set-up, which starts no loop.
abbrev IsPart : List DbCall × Option String → Type 0
IsPart (calls, none) =
    (closes calls ≡ false)
    × (closes (calls ++ start_checkpoints ∷ []) ≡ false)
    × (checkpoints (calls ++ start_checkpoints ∷ []) ≡ true)
IsPart (calls, some e) = (closes calls ≡ true) × (checkpoints calls ≡ false)

-- Every statement is accepted.
abbrev pub IsAccepted : (String → Option String) → List Statement → Type 0
IsAccepted answer ss = All (λ s. answer s.0 ≡ none) ss

exec-IsPart : (s : String) (r : List DbCall × Option String) → IsPart r → IsPart (exec s ∷ r.0, r.1)
exec-IsPart s (calls, none) h = h
exec-IsPart s (calls, some e) h = h

run_statements-IsPart :
    (answer : String → Option String) (ss : List Statement) → IsPart (run_statements answer ss)
unfolding run_statements
run_statements-IsPart answer [] = (refl, refl, refl)
run_statements-IsPart answer ((s, label) ∷ ss) = elim (Option-cases (answer s)) [
  | inl fine ↦
      rw (fine, run_statements)
        (exec-IsPart s (run_statements answer ss) (run_statements-IsPart answer ss))
  | inr (e, bad) ↦ rw (bad, run_statements) (refl, refl)
]

run_statements_iff :
    (answer : String → Option String) (ss : List Statement)
    → ((run_statements answer ss).1 ≡ none) ↔ IsAccepted answer ss
unfolding run_statements
run_statements_iff answer [] = (λ h. tt, λ h. refl)
run_statements_iff answer ((s, label) ∷ ss) = elim (Option-cases (answer s)) [
  | inl fine ↦
      let (there, back) = run_statements_iff answer ss in
      rw (fine, run_statements) (λ h. (refl, there h), λ h. back h.1)
  | inr (e, bad) ↦ rw (bad, run_statements) (λ h. cc, λ h. cc (h.0))
]

with_checkpoints :
    (path : String) (r : List DbCall × Option String) → IsPart r → IsTidy (new_store_of path r)
unfolding new_store_of
with_checkpoints path (calls, none) h = (h.1, h.2)
with_checkpoints path (calls, some e) h = h

error_same : (path : String) (r : List DbCall × Option String) → (new_store_of path r).1 ≡ r.1
unfolding new_store_of
error_same path (calls, none) = refl
error_same path (calls, some e) = refl

-- NewSQLiteStore of a database that can be opened succeeds exactly when the driver accepts each of its
-- statements. Where it fails, it has closed the database and has started no loop of checkpoints; where it
-- succeeds, the database is open and the loop is started.
pub new_sqlite_store-IsTidy :
    (answer : String → Option String) (path : String)
    → (((new_sqlite_store answer path none).1 ≡ none) ↔ IsAccepted answer setup)
      × IsTidy (new_sqlite_store answer path none)
unfolding new_sqlite_store new_store_of
new_sqlite_store-IsTidy answer path =
    let (there, back) = run_statements_iff answer setup in
    let same = error_same path (run_statements answer setup) in
    (
      (λ h. there (sym same ∙ h), λ h. same ∙ back h),
      with_checkpoints path (run_statements answer setup) (run_statements-IsPart answer setup),
    )
