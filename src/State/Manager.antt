-- ===== src/State/Manager.antt =====
-- state/interface.go: the interface StateManager, and its laws: what its clients rely on of the status
-- that a Set stores and Get gives. Set answers the new state and an error; `now` is what time.Now
-- returns.
use agentfactory_gateway.Common.{ℕ, String, Bool, ◌≡◌, ◌≢◌, ◌⊎◌, Option, none, some, List}
use agentfactory_gateway.State.Json.{TaskRecord}
use agentfactory_gateway.State.Laws.{In}

pub record StateManager : Type 1 where
  pub State : Type 0
  pub set : ℕ → TaskRecord → State → State × Option String
  pub get : String → State → Option TaskRecord
  pub list_active : State → List TaskRecord
  pub has_active_task : String → State → Bool
  pub get_by_channel : String → State → Option TaskRecord

-- The record stored under an id has the status.
abbrev pub HasStatus : (M : StateManager) → M.State → String → String → Type 0
HasStatus M s id status = (r : TaskRecord) × (M.get id s ≡ some r) × (r.status ≡ status)

-- After a Set with a status, without an error, the record has that status; a failed one leaves the
-- record alone or gives it that status; other records stay.
pub record IsLawful (M : StateManager) : Type 0 where
  pub get-set :
      (now : ℕ) (rec : TaskRecord) (s : M.State)
      → rec.status ≢ ""
      → (M.set now rec s).1 ≡ none
      → HasStatus M (M.set now rec s).0 rec.task_id rec.status
  pub get-set_failed :
      (now : ℕ) (rec : TaskRecord) (s : M.State)
      → rec.status ≢ ""
      → (M.get rec.task_id (M.set now rec s).0 ≡ M.get rec.task_id s)
        ⊎ HasStatus M (M.set now rec s).0 rec.task_id rec.status
  pub get-set_other :
      (now : ℕ) (rec : TaskRecord) (s : M.State) (id : String)
      → id ≢ rec.task_id
      → M.get id (M.set now rec s).0 ≡ M.get id s

-- ListActive lists every record that is stored as running.
abbrev pub ListsRunning : (M : StateManager) → M.State → Type 0
ListsRunning M s =
    (id : String)
    → HasStatus M s id "running"
    → (r : TaskRecord) × In r (M.list_active s) × (r.task_id ≡ id)
