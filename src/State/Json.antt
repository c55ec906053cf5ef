-- ===== src/State/Json.antt =====
-- state/state_manager.go: the in-memory records of JSONStateManager. The file that a Set writes is in
-- State/File: the map is changed whether or not the write succeeds. A loop over the map visits its
-- entries in an order that is an argument, `visited`. A time is a number, 0 for the zero time.
use agentfactory_gateway.Common.{
  ℕ, String, Bool, false, ◌&&◌, ◌||◌, Option, none, some, List, [], ◌∷◌, if◌then◌else◌, is_zero,
  ltb, ◌==◌,
}
use agentfactory_gateway.Common.Dict.{Dict, lookup, insert}

pub record TaskRecord : Type 0 where
  pub task_id : String
  pub channel_id : String
  pub slack_ts : String
  pub user_id : String
  pub prompt : String
  pub status : String
  pub updated_at : ℕ

-- if new != "" { old = new }
abbrev pub keep_or : String → String → String
keep_or new old = if new == "" then old else new

-- The merge of an incoming record into a stored one.
unfoldable pub merge : ℕ → TaskRecord → TaskRecord → TaskRecord
merge now rec existing = record existing {
  channel_id = keep_or rec.channel_id existing.channel_id;
  slack_ts = keep_or rec.slack_ts existing.slack_ts;
  user_id = keep_or rec.user_id existing.user_id;
  prompt = keep_or rec.prompt existing.prompt;
  status = keep_or rec.status existing.status;
  updated_at = now;
}

-- if rec.UpdatedAt.IsZero() { rec.UpdatedAt = time.Now() }
unfoldable pub stamped : ℕ → TaskRecord → TaskRecord
stamped now rec = if is_zero rec.updated_at then record rec { updated_at = now } else rec

unfoldable pub set : ℕ → TaskRecord → Dict TaskRecord → Dict TaskRecord
set now rec records = elim (lookup rec.task_id records) [
  | some existing ↦ insert rec.task_id (merge now rec existing) records
  | none ↦ insert rec.task_id (stamped now rec) records
]

unfoldable pub get : String → Dict TaskRecord → Option TaskRecord
get id records = lookup id records

unfoldable pub list_active : List TaskRecord → List TaskRecord
list_active [] = []
list_active (r ∷ visited) =
    let rest = list_active visited in if r.status == "running" then r ∷ rest else rest

unfoldable pub has_active_task : String → List TaskRecord → Bool
has_active_task c [] = false
has_active_task c (r ∷ visited) =
    (r.channel_id == c && (r.status == "running" || r.status == "paused"))
    || has_active_task c visited

-- The body of the loop of GetByChannel.
unfoldable pub newer : Option TaskRecord → TaskRecord → Option TaskRecord
newer none r = some r
newer (some latest) r = if ltb latest.updated_at r.updated_at then some r else some latest

unfoldable pub latest_in : String → Option TaskRecord → List TaskRecord → Option TaskRecord
unfolding newer
latest_in c latest [] = latest
latest_in c latest (r ∷ visited) =
    latest_in c (if r.channel_id == c then newer latest r else latest) visited

unfoldable pub get_by_channel : String → List TaskRecord → Option TaskRecord
unfolding latest_in
get_by_channel c visited = latest_in c none visited
