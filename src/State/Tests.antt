-- ===== src/State/Tests.antt =====
-- Runs of the records of state/state_manager.go.
use agentfactory_gateway.Common.{
  String, none, ◌≡◌, refl, ◌≢◌, some, [], ◌∷◌, str_dec, text_ne, if◌then◌else◌, ◌==◌,
}
use agentfactory_gateway.Common.Dict.{Dict, lookup, insert}
use agentfactory_gateway.Common.Text.{decimal, read}
use agentfactory_gateway.State.Manager.{IsLawful, HasStatus}
use agentfactory_gateway.State.Memory.{memory, memory-IsLawful}
use agentfactory_gateway.State.Sqlite
use agentfactory_gateway.State.Sqlite.{Row, row_of, record_of, found}
use agentfactory_gateway.State.Stores.{
  json_manager, sqlite_manager, came_back, sqlite_get-set, stores-Disagree, json_manager-IsLawful,
  sqlite_manager-IsLawful,
}
use agentfactory_gateway.State.Json.{stamped, TaskRecord, merge, set, get, get_by_channel}
use agentfactory_gateway.State.Listing.{IsFiled, IsExact, json_manager-IsExact}
use agentfactory_gateway.State.Laws.{Newest, get_by_channel-Newest}

abbrev old : TaskRecord
old = record {
  task_id = "t1";
  channel_id = "c1";
  slack_ts = "1.0";
  user_id = "u1";
  prompt = "do it";
  status = "running";
  updated_at = 4;
}

-- What recovery writes.
abbrev update : TaskRecord
update = record old { user_id = ""; prompt = ""; status = "done"; updated_at = 0 }

abbrev stored : Dict TaskRecord
stored = ("t1", old) ∷ []

merged : get "t1" (set 9 update stored) ≡ some (record old { status = "done"; updated_at = 9 })
unfolding get set merge lookup insert str_dec
merged = refl

get_by_channel-Newest_example :
    Newest "c1" (old ∷ update ∷ []) (get_by_channel "c1" (old ∷ update ∷ []))
get_by_channel-Newest_example = get_by_channel-Newest "c1" (old ∷ update ∷ [])

abbrev row : Row
row = record {
  task_id = "t1";
  channel_id = "c1";
  slack_ts = "1.0";
  user_id = "u1";
  prompt = "do it";
  status = "running";
  updated_at = "4";
}

abbrev table : Dict Row
table = ("t1", row) ∷ []

-- The table after the Set of `update`.
abbrev table_after : Dict Row
table_after =
    ("t1", record row { user_id = ""; prompt = ""; status = "done"; updated_at = "0" }) ∷ []

written : Sqlite.set memory 9 update table ≡ some table_after
unfolding Sqlite.set row_of stamped insert str_dec decimal
written = refl

sqlite_get-set_example : Sqlite.get memory "t1" table_after ≡ (
    if "t1" == "t1"
    then some (came_back memory memory-IsLawful 9 update)
    else Sqlite.get memory "t1" table)
sqlite_get-set_example =
    sqlite_get-set memory memory-IsLawful 9 update table table_after "t1" written

read_old : Sqlite.get memory "t1" table ≡ some old
unfolding Sqlite.get found record_of lookup str_dec read
read_old = refl

stores-Disagree_example :
    (j : TaskRecord) × (q : TaskRecord) × (get "t1" (set 9 update stored) ≡ some j)
    × (Sqlite.get memory "t1" table_after ≡ some q)
    × (j.prompt ≡ "do it")
    × (q.prompt ≡ "")
    × (j.prompt ≢ q.prompt)
unfolding get lookup str_dec
stores-Disagree_example =
    stores-Disagree memory memory-IsLawful 9 update old stored table table_after refl read_old
      (text_ne "do it" "" refl) refl written

full_disk : IsLawful (json_manager (λ records. some "disk full"))
full_disk = json_manager-IsLawful (λ records. some "disk full")

memory_store : IsLawful (sqlite_manager memory)
memory_store = sqlite_manager-IsLawful memory memory-IsLawful

json_manager-IsExact_example :
    IsFiled (set 9 update stored)
    × IsExact (json_manager (λ records. none)) (set 9 update stored)
    × (update.status ≢ ""
        → HasStatus (json_manager (λ records. none)) (set 9 update stored) "t1" update.status)
    × ((id : String) → id ≢ "t1" → get id (set 9 update stored) ≡ get id stored)
unfolding lookup
json_manager-IsExact_example =
    json_manager-IsExact (λ records. none) 9 update stored ((refl, tt), (refl, tt))
