-- ===== src/State/File.antt =====
-- state/state_manager.go: the file of JSONStateManager. A file system is a map from paths to contents;
-- encoding/json is a parameter. A write replaces the file by a longer and longer part of the data and a
-- rename replaces its target at once. How far saveLocked comes before it fails, or the program ends, is
-- an argument.
use Prim.Native.Nat.{ℕ}
use Prim.Native.String.{len}
use text.Mathlib.TextPositions.{len-append}
use agentfactory_gateway.Common.{
  String, ◌≡◌, ◌≢◌, ◌⊎◌, inl, inr, refl, ap, Option, none, some, [], arith,
}
use agentfactory_gateway.Common.Dict.{Dict, lookup, insert, delete, lookup-insert}
use agentfactory_gateway.Common.Text.{◌<>◌}
use agentfactory_gateway.State.Json.{TaskRecord, set}

-- json.MarshalIndent and json.Unmarshal for a map of records; an error is a text.
pub record Codec : Type 0 where
  pub marshal : Dict TaskRecord → String ⊎ String
  pub unmarshal : String → String ⊎ Dict TaskRecord

abbrev pub SameRecords : Dict TaskRecord → Dict TaskRecord → Type 0
SameRecords d e = (id : String) → lookup id d ≡ lookup id e

-- A map that was written is read back, up to the order of its keys.
pub record IsLawful (C : Codec) : Type 0 where
  pub unmarshal-marshal :
      (d : Dict TaskRecord) (text : String)
      → C.marshal d ≡ inr text
      → (e : Dict TaskRecord) × (C.unmarshal text ≡ inr e) × SameRecords e d

abbrev pub FileSystem : Type 0
FileSystem = Dict String

-- Where saveLocked ends: the temporary file cannot be opened, is left with a part of the data, is
-- written and not renamed, or everything is done. The errors are texts.
pub data Progress : Type 0 where
  not_opened : String → Progress
  cut_short : (part : String) → String → Progress
  not_renamed : String → Progress
  finished : Progress

unfoldable pub write_and_rename :
    String → String → Progress → FileSystem → FileSystem × Option String
unfolding insert delete
write_and_rename path text (not_opened e) fs = (fs, some ("write temp state: " <> e))
write_and_rename path text (cut_short part e) fs =
    (insert (path <> ".tmp") part fs, some ("write temp state: " <> e))
write_and_rename path text (not_renamed e) fs = (insert (path <> ".tmp") text fs, some e)
write_and_rename path text finished fs = (insert path text (delete (path <> ".tmp") fs), none)

-- The result of load: no file, an error, or the records.
pub data Loaded : Type 0 where
  no_file : Loaded
  corrupted : String → Loaded
  loaded : Dict TaskRecord → Loaded

module _ (C : Codec) where
  unfoldable pub save_locked :
      String → Progress → Dict TaskRecord → FileSystem → FileSystem × Option String
  unfolding write_and_rename
  save_locked path how records fs = elim (C.marshal records) [
    | inl e ↦ (fs, some ("marshal state: " <> e))
    | inr text ↦ write_and_rename path text how fs
  ]

  unfoldable pub parse_state : String → Loaded
  parse_state text = elim (C.unmarshal text) [
    | inl e ↦ corrupted ("unmarshal state: " <> e)
    | inr records ↦ loaded records
  ]

  unfoldable pub load : String → FileSystem → Loaded
  unfolding parse_state lookup
  load path fs = elim (lookup path fs) [ none ↦ no_file | some text ↦ parse_state text ]

  -- NewJSONStateManager: an error, or the records in memory
  unfoldable pub new_json_state_manager : String → FileSystem → String ⊎ Dict TaskRecord
  unfolding load
  new_json_state_manager path fs = elim (load path fs) [
    | no_file ↦ inr []
    | corrupted e ↦ inl ("load state: " <> e)
    | loaded records ↦ inr records
  ]

  -- Set with its file: the records in memory change, whatever becomes of the file.
  unfoldable pub set_and_save :
      String
      → Progress
      → ℕ
      → TaskRecord
      → Dict TaskRecord × FileSystem
      → (Dict TaskRecord × FileSystem) × Option String
  unfolding save_locked set
  set_and_save path how now rec (records, fs) =
      let records' = set now rec records in
      let (fs', err) = save_locked path how records' fs in ((records', fs'), err)

  marshal-cases :
      (r : String ⊎ String) → ((e : String) × (r ≡ inl e)) ⊎ ((text : String) × (r ≡ inr text))
  marshal-cases (inl e) = inl (e, refl)
  marshal-cases (inr text) = inr (text, refl)

  tmp_ne : (path : String) → path <> ".tmp" ≢ path
  tmp_ne path e = absurd (omega (arith, ap len e, len-append path ".tmp"))

  write-unchanged :
      (path text : String) (how : Progress) (fs : FileSystem) (err : String)
      → (write_and_rename path text how fs).1 ≡ some err
      → lookup path (write_and_rename path text how fs).0 ≡ lookup path fs
  unfolding write_and_rename
  write-unchanged path text (not_opened e) fs err h = refl
  write-unchanged path text (cut_short part e) fs err h =
      ground (arith, lookup-insert path (path <> ".tmp") part fs, tmp_ne path)
  write-unchanged path text (not_renamed e) fs err h =
      ground (arith, lookup-insert path (path <> ".tmp") text fs, tmp_ne path)
  write-unchanged path text finished fs err h = cc

  write-done :
      (path text : String) (how : Progress) (fs : FileSystem)
      → (write_and_rename path text how fs).1 ≡ none
      → lookup path (write_and_rename path text how fs).0 ≡ some text
  unfolding write_and_rename
  write-done path text (not_opened e) fs h = cc
  write-done path text (cut_short part e) fs h = cc
  write-done path text (not_renamed e) fs h = cc
  write-done path text finished fs h =
      ground (arith, lookup-insert path path text (delete (path <> ".tmp") fs))

  -- What the file gives after a Set: the new records where there is no error, and else what it gave.
  abbrev pub IsDurable : String → Dict TaskRecord → FileSystem → FileSystem → Option String → Type 0
  IsDurable path records fs fs' none =
      (e : Dict TaskRecord) × (load path fs' ≡ loaded e) × SameRecords e records
  IsDurable path records fs fs' (some err) = load path fs' ≡ load path fs

  load-same :
      (path : String) (fs fs' : FileSystem)
      → lookup path fs' ≡ lookup path fs
      → load path fs' ≡ load path fs
  unfolding load
  load-same path fs fs' same = rw (same, load) refl

  load-found :
      (path text : String) (fs : FileSystem) (e : Dict TaskRecord)
      → lookup path fs ≡ some text
      → C.unmarshal text ≡ inr e
      → load path fs ≡ loaded e
  unfolding load parse_state
  load-found path text fs e found parsed = rw (found, load) (rw (parsed, parse_state) refl)

  IsDurable-write :
      (path text : String) (how : Progress) (records : Dict TaskRecord) (fs : FileSystem)
      (e : Dict TaskRecord)
      → C.unmarshal text ≡ inr e
      → SameRecords e records
      → (err : Option String) → (write_and_rename path text how fs).1 ≡ err
      → IsDurable path records fs (write_and_rename path text how fs).0 err
  IsDurable-write path text how records fs e parsed same none h =
      (e, load-found path text _ e (write-done path text how fs h) parsed, same)
  IsDurable-write path text how records fs e parsed same (some err) h =
      load-same path fs _ (write-unchanged path text how fs err h)

  module _ (L : IsLawful C) where
    save_locked-IsDurable :
        (path : String) (how : Progress) (records : Dict TaskRecord) (fs : FileSystem)
        → IsDurable path records fs
            (save_locked path how records fs).0
            (save_locked path how records fs).1
    unfolding save_locked
    save_locked-IsDurable path how records fs = elim (marshal-cases (C.marshal records)) [
      | inl (e, bad) ↦ rw (bad, save_locked) refl
      | inr (text, good) ↦
          let (e, parsed, same) = L.unmarshal-marshal records text good in
          rw (good, save_locked)
            (IsDurable-write path text how records fs e parsed same
              (write_and_rename path text how fs).1 refl)
    ]

    -- After a Set the file gives, to the next start, the new records where Set answers no error; where
    -- it answers an error, or the program ends before the rename, it gives what it gave before: never
    -- a part of the data. The records in memory are the new ones in any case.
    pub set_and_save-IsDurable :
        (path : String) (how : Progress) (now : ℕ) (rec : TaskRecord) (records : Dict TaskRecord)
        (fs : FileSystem)
        → ((set_and_save path how now rec (records, fs)).0.0 ≡ set now rec records)
          × IsDurable path
              (set now rec records)
              fs
              (set_and_save path how now rec (records, fs)).0.1
              (set_and_save path how now rec (records, fs)).1
    unfolding set_and_save
    set_and_save-IsDurable path how now rec records fs =
        (refl, save_locked-IsDurable path how (set now rec records) fs)
