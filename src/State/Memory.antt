-- ===== src/State/Memory.antt =====
-- A database in memory with the laws that state/sqlite_store.go relies on.
use agentfactory_gateway.Common.{
  String, Bool, ◌&&◌, ◌||◌, ◌≡◌, Option, none, some, List, [], ◌∷◌, map, length, if◌then◌else◌,
  ◌==◌, ltb, arith,
}
use agentfactory_gateway.Common.Dict.{Dict, lookup, insert, values, lookup-insert}
use agentfactory_gateway.Common.Text.{decimal, read, read-decimal}
use agentfactory_gateway.State.Sqlite.{Row, Database, IsLawful, to_second}

pub keep : (Row → Bool) → List Row → List Row
keep p [] = []
keep p (r ∷ rows) = let rest = keep p rows in if p r then r ∷ rest else rest

pub latest : Option Row → List Row → Option Row
latest best [] = best
latest none (r ∷ rows) = latest (some r) rows
latest (some b) (r ∷ rows) =
    latest (some (if ltb (read b.updated_at) (read r.updated_at) then r else b)) rows

-- The statements, none of which fails.
abbrev pub memory : Database
memory = record {
  Db = Dict Row;
  replace = λ r d. some (insert r.task_id r d);
  select_by_id = λ id d. some (lookup id d);
  select_running = λ d. some (map (λ r. some r) (keep (λ r. r.status == "running") (values d)));
  count_active = λ c d. some (
      length (
        keep (λ r. r.channel_id == c && (r.status == "running" || r.status == "paused"))
          (values d)));
  select_latest = λ c d. some (latest none (keep (λ r. r.channel_id == c) (values d)));
  format = λ layout t. decimal (to_second t);
  parse = λ layout text. read text;
}

replaced :
    (r : Row) (d e : Dict Row) (id : String)
    → some (insert r.task_id r d) ≡ some e
    → some (lookup id e) ≡ (if r.task_id == id then some (some r) else some (lookup id d))
replaced r d e id h = ground (arith, lookup-insert id r.task_id r d)

pub memory-IsLawful : IsLawful memory
memory-IsLawful = record {
  select-replace = replaced;
  parse-format = λ t. read-decimal (to_second t);
}
