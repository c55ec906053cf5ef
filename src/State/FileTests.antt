-- ===== src/State/FileTests.antt =====
-- Runs of the file of JSONStateManager and of NewSQLiteStore, and their theorems at a concrete input.
use agentfactory_gateway.Common.{
  ◌↔◌, Option, some, none, String, ◌≡◌, refl, Bool, true, ◌&&◌, leb, ◌⊎◌, inl, inr, [], ◌∷◌,
  if◌then◌else◌, ◌==◌, str_dec, arith,
}
use agentfactory_gateway.Common.Dict.{Dict, lookup}
use agentfactory_gateway.State.Json.{TaskRecord, set, stamped}
use agentfactory_gateway.State.Open.{
  new_sqlite_store, new_store_of, run_statements, setup, IsAccepted, IsTidy,
  new_sqlite_store-IsTidy,
}
use agentfactory_gateway.State.File.{
  Codec, IsLawful, FileSystem, cut_short, finished, IsDurable, set_and_save, set_and_save-IsDurable,
  SameRecords,
}

abbrev record_1 : TaskRecord
record_1 = record {
  task_id = "t1";
  channel_id = "C1";
  slack_ts = "1.1";
  user_id = "U1";
  prompt = "do it";
  status = "running";
  updated_at = 3;
}

abbrev is_record_1 : TaskRecord → Bool
is_record_1 r =
    r.task_id == "t1"
    && r.channel_id == "C1"
    && r.slack_ts == "1.1"
    && r.user_id == "U1"
    && r.prompt == "do it"
    && r.status == "running"
    && leb 3 r.updated_at
    && leb r.updated_at 3

is_record_1-eq : (r : TaskRecord) → is_record_1 r ≡ true → r ≡ record_1
is_record_1-eq r h = ground arith

-- A codec that writes the empty map and the map of one record, and refuses all others.
abbrev write_map : Dict TaskRecord → String ⊎ String
write_map [] = inr "{}"
write_map ((k, r) ∷ []) = if k == "t1" && is_record_1 r then inr "{t1}" else inl "unsupported"
write_map (_ ∷ _ ∷ _) = inl "unsupported"

abbrev read_map : String → String ⊎ Dict TaskRecord
read_map s =
    if s == "{}"
    then inr []
    else if s == "{t1}"
    then inr (("t1", record_1) ∷ [])
    else inl "unexpected end of JSON input"

abbrev small : Codec
small = record { marshal = write_map; unmarshal = read_map }

read_empty : read_map "{}" ≡ inr []
unfolding str_dec
read_empty = refl

read_one : read_map "{t1}" ≡ inr (("t1", record_1) ∷ [])
unfolding str_dec
read_one = refl

written_one :
    (k : String) (r : TaskRecord) (text : String)
    → write_map ((k, r) ∷ []) ≡ inr text
    → (k ≡ "t1") × (is_record_1 r ≡ true) × (text ≡ "{t1}")
written_one k r text h = (ground arith, ground arith, ground arith)

read_back :
    (d : Dict TaskRecord) (text : String)
    → write_map d ≡ inr text
    → (e : Dict TaskRecord) × (read_map text ≡ inr e) × SameRecords e d
read_back [] text h = let e : text ≡ "{}" = cc in ([], rw e read_empty, λ id. refl)
read_back ((k, r) ∷ []) text h =
    let (key, same, e) = written_one k r text h in
    (("t1", record_1) ∷ [], rw e read_one, λ id. rw (key, is_record_1-eq r same) refl)
read_back (_ ∷ _ ∷ _) text h = cc

small-IsLawful : IsLawful small
small-IsLawful = record { unmarshal-marshal = read_back }

abbrev old_files : FileSystem
old_files = ("state.json", "{}") ∷ []

-- A write that is cut short: the file still gives the empty map.
set_and_save-IsDurable_example :
    ((set_and_save small "state.json" (cut_short "{t" "disk full") 3 record_1 ([], old_files)).0.0
      ≡ set 3 record_1 [])
    × IsDurable small "state.json"
        (set 3 record_1 [])
        old_files
        (set_and_save small "state.json"
          (cut_short "{t" "disk full")
          3
          record_1
          ([], old_files)).0.1
        (set_and_save small "state.json" (cut_short "{t" "disk full") 3 record_1 ([], old_files)).1
set_and_save-IsDurable_example =
    set_and_save-IsDurable small small-IsLawful "state.json" (cut_short "{t" "disk full") 3 record_1
      [] old_files

-- The same write to its end.
saved :
    (set_and_save small "state.json" finished 3 record_1 ([], old_files)).0.1
    ≡ ("state.json", "{t1}") ∷ []
unfolding set_and_save str_dec lookup stamped
saved = refl

-- A driver that refuses one pragma.
abbrev refusing : String → Option String
refusing s = if s == "PRAGMA synchronous = NORMAL;" then some "disk I/O error" else none

new_sqlite_store-IsTidy_example :
    (((new_sqlite_store refusing "gateway_state.db" none).1 ≡ none) ↔ IsAccepted refusing setup)
    × IsTidy (new_sqlite_store refusing "gateway_state.db" none)
new_sqlite_store-IsTidy_example = new_sqlite_store-IsTidy refusing "gateway_state.db"

-- The database is closed after the statement that is refused.
refused_run :
    (new_sqlite_store refusing "gateway_state.db" none).1
    ≡ some "exec PRAGMA synchronous = NORMAL;: disk I/O error"
unfolding new_sqlite_store new_store_of run_statements str_dec
refused_run = refl
