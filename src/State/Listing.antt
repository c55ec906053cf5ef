-- ===== src/State/Listing.antt =====
-- state/state_manager.go: what ListActive lists.
use agentfactory_gateway.Common.{
  ℕ, String, ◌≡◌, ◌≢◌, ◌↔◌, ◌∙◌, inl, inr, refl, sym, Option, none, some, List, [], ◌∷◌, str_dec,
  arith, ap, Bool-cases, false, ◌==◌,
}
use agentfactory_gateway.Common.Dict.{
  Dict, lookup, values, Entries, HasUniqueKeys, Entries-insert, Entries-lookup,
  HasUniqueKeys-insert,
}
use agentfactory_gateway.State.Json
use agentfactory_gateway.State.Json.{TaskRecord, merge, stamped}
use agentfactory_gateway.State.Laws.{In}
use agentfactory_gateway.State.Manager.{StateManager, HasStatus, ListsRunning}
use agentfactory_gateway.State.Stores.{
  json_manager, json_manager-IsLawful, json_HasStatus, json_set_lem, stored_record,
}

abbrev pub IsNamed : String → TaskRecord → Type 0
IsNamed id r = r.task_id ≡ id

-- Each record stands once, under its own id.
abbrev pub IsFiled : Dict TaskRecord → Type 0
IsFiled s = HasUniqueKeys s × Entries IsNamed s

-- ListActive lists a record exactly if Get gives it for its id and it is running.
abbrev pub IsExact : (M : StateManager) → M.State → Type 0
IsExact M s =
    (r : TaskRecord)
    → In r (M.list_active s) ↔ ((M.get r.task_id s ≡ some r) × (r.status ≡ "running"))

In-list_active :
    (r : TaskRecord) (rs : List TaskRecord)
    → In r (Json.list_active rs) ↔ (In r rs × (r.status ≡ "running"))
unfolding Json.list_active
In-list_active r [] = (λ h. absurd h, λ h. absurd h.0)
In-list_active r (x ∷ rs) =
    let (there, back) = In-list_active r rs in
    elim (Bool-cases (x.status == "running")) [
      | inl t ↦
          rw (t, Json.list_active)
            (
              λ h. elim h [
                | inl e ↦ (inl e, sym (ap (λ (q : TaskRecord). q.status) e) ∙ ground arith)
                | inr k ↦ (inr (there k).0, (there k).1)
              ],
              λ h. elim (h.0) [ inl e ↦ inl e | inr k ↦ inr (back (k, h.1)) ],
            )
      | inr f ↦
          rw (f, Json.list_active)
            (
              λ h. (inr (there h).0, (there h).1),
              λ h. elim (h.0) [
                | inl e ↦ absurd (not_running x f (ap (λ (q : TaskRecord). q.status) e ∙ h.1))
                | inr k ↦ back (k, h.1)
              ],
            )
    ]
  where
    not_running : (x : TaskRecord) → (x.status == "running") ≡ false → x.status ≢ "running"
    not_running x f e = ground arith

lookup-values :
    (id : String) (r : TaskRecord) (s : Dict TaskRecord) → lookup id s ≡ some r → In r (values s)
unfolding lookup
lookup-values id r [] h = absurd (ground arith)
lookup-values id r ((k, v) ∷ s) h = elim (str_dec k id) [
  | yes same ↦ inl (ground arith)
  | no other ↦ inr (lookup-values id r s (ground arith))
]

values-lookup :
    (r : TaskRecord) (s : Dict TaskRecord)
    → IsFiled s
    → In r (values s)
    → lookup r.task_id s ≡ some r
unfolding lookup
values-lookup r [] f h = absurd h
values-lookup r ((k, v) ∷ s) f (inl e) =
    let key : k ≡ r.task_id = sym f.1.0 ∙ ap (λ (q : TaskRecord). q.task_id) e in ground arith
values-lookup r ((k, v) ∷ s) f (inr m) =
    let got = values-lookup r s (f.0.1, f.1.1) m in ground arith

stored_record-IsNamed :
    (now : ℕ) (rec : TaskRecord) (old : Option TaskRecord)
    → ((r : TaskRecord) → old ≡ some r → r.task_id ≡ rec.task_id)
    → (stored_record now rec old).task_id ≡ rec.task_id
unfolding stored_record merge stamped
stored_record-IsNamed now rec none h = ground arith
stored_record-IsNamed now rec (some r) h = h r refl

set-IsFiled :
    (now : ℕ) (rec : TaskRecord) (s : Dict TaskRecord) → IsFiled s → IsFiled (Json.set now rec s)
set-IsFiled now rec s f =
    let old = stored_record now rec (lookup rec.task_id s) in
    rw json_set_lem (
      HasUniqueKeys-insert rec.task_id old s f.0,
      Entries-insert IsNamed rec.task_id old s
          (stored_record-IsNamed now rec (lookup rec.task_id s)
            (λ r e. Entries-lookup IsNamed rec.task_id s f.1 e))
          f.1,
    )

filed-IsExact :
    (save : Dict TaskRecord → Option String) (s : Dict TaskRecord)
    → IsFiled s
    → IsExact (json_manager save) s
unfolding Json.get
filed-IsExact save s f r =
    let (there, back) = In-list_active r (values s) in
    (
      λ h. (values-lookup r s f (there h).0, (there h).1),
      λ h. back (lookup-values r.task_id r s h.0, h.1),
    )

-- JSONStateManager, whether or not its file can be written: where each record is filed once under its id,
-- as it is in a new store, it is so after a Set, and ListActive then lists a record exactly if Get gives
-- it for its id and its status is running. A Set with a status leaves that status in the record of its
-- id, and the records of other ids as they were.
pub json_manager-IsExact :
    (save : Dict TaskRecord → Option String) (now : ℕ) (rec : TaskRecord) (s : Dict TaskRecord)
    → IsFiled s
    → IsFiled (Json.set now rec s)
      × IsExact (json_manager save) (Json.set now rec s)
      × (rec.status ≢ ""
          → HasStatus (json_manager save) (Json.set now rec s) rec.task_id rec.status)
      × ((id : String) → id ≢ rec.task_id → Json.get id (Json.set now rec s) ≡ Json.get id s)
json_manager-IsExact save now rec s f = (
  set-IsFiled now rec s f,
  filed-IsExact save (Json.set now rec s) (set-IsFiled now rec s f),
  json_HasStatus save now rec s,
  (json_manager-IsLawful save).get-set_other now rec s,
)

-- A filed store lists every record that is stored as running.
pub filed-ListsRunning :
    (save : Dict TaskRecord → Option String) (s : Dict TaskRecord)
    → IsFiled s
    → ListsRunning (json_manager save) s
unfolding Json.get
filed-ListsRunning save s f id (r, found, status) =
    let named = Entries-lookup IsNamed id s f.1 found in
    (r, (In-list_active r (values s)).1 (lookup-values id r s found, status), named)
