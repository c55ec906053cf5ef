-- ===== src/State/Stores.antt =====
-- state/: both stores behind the interface StateManager, and what a Set keeps in each.
use agentfactory_gateway.Common.{
  ℕ, String, ◌≡◌, ◌≢◌, ◌⊎◌, ◌∙◌, inl, inr, refl, ap, Option, none, some, if◌then◌else◌, ◌==◌,
  str_dec, arith, Option-cases, eq_self,
}
use agentfactory_gateway.Common.Dict.{Dict, lookup, insert, values, lookup-insert}
use agentfactory_gateway.State.Json
use agentfactory_gateway.State.Json.{TaskRecord, merge, stamped}
use agentfactory_gateway.State.Manager.{StateManager, HasStatus, IsLawful}
use agentfactory_gateway.State.Sqlite
use agentfactory_gateway.State.Sqlite.{Database, to_second, record_of, row_of, found}

-- JSONStateManager; `save` is the error of saveLocked, if any, for the records to be written.
abbrev pub json_manager : (Dict TaskRecord → Option String) → StateManager
json_manager save = record {
  State = Dict TaskRecord;
  set = λ now rec s. (Json.set now rec s, save (Json.set now rec s));
  get = Json.get;
  list_active = λ s. Json.list_active (values s);
  has_active_task = λ c s. Json.has_active_task c (values s);
  get_by_channel = λ c s. Json.get_by_channel c (values s);
}

-- the result of Set: a failed statement changes nothing
unfoldable pub set_result {ℓ} : {Db : Type ℓ} → Db → Option Db → Db × Option String
set_result db none = (db, some "set record")
set_result db (some db') = (db', none)

abbrev pub sqlite_manager : Database → StateManager
sqlite_manager D = record {
  State = D.Db;
  set = λ now rec s. set_result s (Sqlite.set D now rec s);
  get = Sqlite.get D;
  list_active = Sqlite.list_active D;
  has_active_task = Sqlite.has_active_task D;
  get_by_channel = Sqlite.get_by_channel D;
}

-- The record that JSONStateManager.Set stores.
unfoldable pub stored_record : ℕ → TaskRecord → Option TaskRecord → TaskRecord
stored_record now rec none = stamped now rec
stored_record now rec (some old) = merge now rec old

pub json_set_lem :
    (now : ℕ) (rec : TaskRecord) (s : Dict TaskRecord)
    → Json.set now rec s ≡ insert rec.task_id (stored_record now rec (lookup rec.task_id s)) s
unfolding Json.set stored_record
json_set_lem now rec s = elim (Option-cases (lookup rec.task_id s)) [
  | inl e ↦ rw (e, Json.set, stored_record) refl
  | inr (old, e) ↦ rw (e, Json.set, stored_record) refl
]

json_get-set :
    (now : ℕ) (rec : TaskRecord) (s : Dict TaskRecord) (id : String)
    → Json.get id (Json.set now rec s) ≡ (
        if rec.task_id == id
        then some (stored_record now rec (lookup rec.task_id s))
        else Json.get id s)
unfolding Json.get
json_get-set now rec s id =
    rw json_set_lem (lookup-insert id rec.task_id (stored_record now rec (lookup rec.task_id s)) s)

stored_record-status :
    (now : ℕ) (rec : TaskRecord) (old : Option TaskRecord)
    → rec.status ≢ ""
    → (stored_record now rec old).status ≡ rec.status
unfolding stored_record merge stamped
stored_record-status now rec none h = ground arith
stored_record-status now rec (some old) h = ground arith

pub json_HasStatus :
    (save : Dict TaskRecord → Option String) (now : ℕ) (rec : TaskRecord) (s : Dict TaskRecord)
    → rec.status ≢ ""
    → HasStatus (json_manager save) (Json.set now rec s) rec.task_id rec.status
json_HasStatus save now rec s h = (
  stored_record now rec (lookup rec.task_id s),
  json_get-set now rec s rec.task_id ∙ rw (eq_self rec.task_id) refl,
  stored_record-status now rec (lookup rec.task_id s) h,
)

-- JSONStateManager, whether or not its file can be written, meets the laws of the interface.
pub json_manager-IsLawful : (save : Dict TaskRecord → Option String) → IsLawful (json_manager save)
json_manager-IsLawful save = record {
  get-set = λ now rec s h _. json_HasStatus save now rec s h;
  get-set_failed = λ now rec s h. inr (json_HasStatus save now rec s h);
  get-set_other = λ now rec s id other. json_get-set now rec s id ∙ ground arith;
}

module _ (D : Database) (L : Sqlite.IsLawful D) where
  -- The record that comes back after a Set that gives no error.
  abbrev pub came_back : ℕ → TaskRecord → TaskRecord
  came_back now rec = record (stamped now rec) {
    updated_at = to_second (stamped now rec).updated_at;
  }

  stamped_id : (now : ℕ) (rec : TaskRecord) → (stamped now rec).task_id ≡ rec.task_id
  unfolding stamped
  stamped_id now rec = ground arith

  read_back :
      (r : TaskRecord) (db db' : D.Db) (id : String)
      → D.replace (row_of D r) db ≡ some db'
      → Sqlite.get D id db' ≡ (
          if r.task_id == id
          then some (record r { updated_at = to_second r.updated_at })
          else Sqlite.get D id db)
  unfolding Sqlite.get row_of record_of found
  read_back r db db' id e =
      ap (found D) (L.select-replace (row_of D r) db db' id e) ∙ elim (str_dec r.task_id id) [
        | yes h ↦ ground (arith, L.parse-format r.updated_at)
        | no h ↦ ground arith
      ]

  -- After a Set without an error of a record whose time is in UTC, Get of the record's id gives the
  -- record that was passed, with the time of the call for a zero time, without the part below a second; it gives nothing of the record that was stored
  -- before under that id, and what it gave for another id it gives still.
  pub sqlite_get-set :
      (now : ℕ) (rec : TaskRecord) (db db' : D.Db) (id : String)
      → Sqlite.set D now rec db ≡ some db'
      → Sqlite.get D id db'
        ≡ (if rec.task_id == id then some (came_back now rec) else Sqlite.get D id db)
  unfolding Sqlite.set
  sqlite_get-set now rec db db' id e =
      read_back (stamped now rec) db db' id e
      ∙ ap (λ (t : String). if t == id then some (came_back now rec) else Sqlite.get D id db)
          (stamped_id now rec)

  -- The two stores do not implement one behaviour: where both hold a record with a prompt, a Set of
  -- the same id without a prompt, as recovery and the event handlers make it, leaves them with
  -- different records: JSONStateManager has the prompt and SQLiteStore has the empty one.
  pub stores-Disagree :
      (now : ℕ) (rec old : TaskRecord) (s : Dict TaskRecord) (db db' : D.Db)
      → Json.get rec.task_id s ≡ some old
      → Sqlite.get D rec.task_id db ≡ some old
      → old.prompt ≢ ""
      → rec.prompt ≡ ""
      → Sqlite.set D now rec db ≡ some db'
      → (j : TaskRecord) × (q : TaskRecord) × (Json.get rec.task_id (Json.set now rec s) ≡ some j)
        × (Sqlite.get D rec.task_id db' ≡ some q)
        × (j.prompt ≡ old.prompt)
        × (q.prompt ≡ "")
        × (j.prompt ≢ q.prompt)
  unfolding stamped merge stored_record Json.get
  stores-Disagree now rec old s db db' in_json in_sqlite full blank e = (
    merge now rec old,
    came_back now rec,
    json_get-set now rec s rec.task_id
        ∙ rw (eq_self rec.task_id) (rw (in_json, stored_record) refl),
    sqlite_get-set now rec db db' rec.task_id e ∙ rw (eq_self rec.task_id) refl,
    ground arith,
    ground arith,
    ground arith,
  )

  sqlite_set_status :
      (now : ℕ) (rec : TaskRecord) (db : D.Db) (o : Option D.Db)
      → Sqlite.set D now rec db ≡ o
      → rec.status ≢ ""
      → (set_result db o).1 ≡ none
      → HasStatus (sqlite_manager D) (set_result db o).0 rec.task_id rec.status
  unfolding set_result stamped
  sqlite_set_status now rec db none e h ok = absurd (ground arith)
  sqlite_set_status now rec db (some db') e h ok = (
    came_back now rec,
    sqlite_get-set now rec db db' rec.task_id e ∙ rw (eq_self rec.task_id) refl,
    ground arith,
  )

  sqlite_set_other :
      (now : ℕ) (rec : TaskRecord) (db : D.Db) (o : Option D.Db) (id : String)
      → Sqlite.set D now rec db ≡ o
      → id ≢ rec.task_id
      → Sqlite.get D id (set_result db o).0 ≡ Sqlite.get D id db
  unfolding set_result
  sqlite_set_other now rec db none id e other = refl
  sqlite_set_other now rec db (some db') id e other =
      sqlite_get-set now rec db db' id e ∙ ground arith

  sqlite_set_failed :
      (now : ℕ) (rec : TaskRecord) (db : D.Db) (o : Option D.Db)
      → Sqlite.set D now rec db ≡ o
      → rec.status ≢ ""
      → (Sqlite.get D rec.task_id (set_result db o).0 ≡ Sqlite.get D rec.task_id db)
        ⊎ HasStatus (sqlite_manager D) (set_result db o).0 rec.task_id rec.status
  unfolding set_result
  sqlite_set_failed now rec db none e h = inl refl
  sqlite_set_failed now rec db (some db') e h =
      inr (sqlite_set_status now rec db (some db') e h refl)

  -- SQLiteStore, whichever statements the database refuses, meets the laws of the interface.
  pub sqlite_manager-IsLawful : IsLawful (sqlite_manager D)
  sqlite_manager-IsLawful = record {
    get-set = λ now rec s h ok. sqlite_set_status now rec s (Sqlite.set D now rec s) refl h ok;
    get-set_failed = λ now rec s h. sqlite_set_failed now rec s (Sqlite.set D now rec s) refl h;
    get-set_other =
        λ now rec s id other. sqlite_set_other now rec s (Sqlite.set D now rec s) id refl other;
  }
