-- ===== src/State/Laws.antt =====
-- state/state_manager.go: what Set, Get and GetByChannel promise.
use agentfactory_gateway.Common.{
  ℕ, ◌≤◌, String, ◌≡◌, refl, ◌≢◌, ◌⊎◌, inl, inr, Option, none, some, List, [], ◌∷◌, str_dec, All,
  arith, ltb, Bool-cases,
}
use agentfactory_gateway.Common.Dict.{Dict, lookup-insert}
use agentfactory_gateway.State.Json.{
  TaskRecord, keep_or, merge, set, get, latest_in, get_by_channel,
}

-- Set of a record under an id that is stored, with a status and without a prompt, as recovery and the
-- event handlers do it: Get then returns a record with the new status and the old prompt, and with
-- the old user unless a new one is given; what is stored under other ids is as before.
pub set-keeps_prompt :
    (now : ℕ) (rec old : TaskRecord) (records : Dict TaskRecord)
    → get rec.task_id records ≡ some old
    → rec.prompt ≡ ""
    → rec.status ≢ ""
    → ((r : TaskRecord) × (get rec.task_id (set now rec records) ≡ some r)
        × (r.prompt ≡ old.prompt)
        × (r.status ≡ rec.status)
        × (r.user_id ≡ keep_or rec.user_id old.user_id))
      × ((id : String) → id ≢ rec.task_id → get id (set now rec records) ≡ get id records)
unfolding get set merge
set-keeps_prompt now rec old records found blank given = (
  (
    merge now rec old,
    ground (arith, lookup-insert rec.task_id rec.task_id (merge now rec old) records),
    ground arith,
    ground arith,
    refl,
  ),
  λ id other. ground (arith, lookup-insert id rec.task_id (merge now rec old) records),
)

abbrev pub In : TaskRecord → List TaskRecord → Type 0
In r [] = ⊥
In r (x ∷ xs) = (x ≡ r) ⊎ In r xs

-- No record of the channel is newer than `r`.
abbrev pub IsNewest : String → TaskRecord → List TaskRecord → Type 0
IsNewest c r = All λ x. x.channel_id ≡ c → x.updated_at ≤ r.updated_at

latest_in-some :
    (c : String) (best : TaskRecord) (visited : List TaskRecord)
    → best.channel_id ≡ c
    → (r : TaskRecord) × (latest_in c (some best) visited ≡ some r)
      × (r.channel_id ≡ c)
      × ((r ≡ best) ⊎ In r visited)
      × (best.updated_at ≤ r.updated_at)
      × IsNewest c r visited
unfolding latest_in
latest_in-some c best [] h = (best, refl, h, inl refl, omega arith, tt)
latest_in-some c best (x ∷ visited) h = elim (str_dec x.channel_id c) [
  | no other ↦
      let (r, e, ch, m, le, nw) = latest_in-some c best visited h in
      (r, ground arith, ch, ground arith, le, (λ same. absurd (other same), nw))
  | yes same ↦ elim (Bool-cases (ltb best.updated_at x.updated_at)) [
    | inl younger ↦
        let (r, e, ch, m, le, nw) = latest_in-some c x visited same in
        (r, ground arith, ch, ground arith, ground arith, (λ _. le, nw))
    | inr older ↦
        let (r, e, ch, m, le, nw) = latest_in-some c best visited h in
        (r, ground arith, ch, ground arith, le, (λ _. ground arith, nw))
  ]
]

-- What GetByChannel answers for a channel, over the records in the order visited.
pub data Newest (c : String) (visited : List TaskRecord) (out : Option TaskRecord) : Type 0 where
  nothing : All (λ x. x.channel_id ≢ c) visited → out ≡ none → Newest c visited out
  newest :
      (r : TaskRecord)
      → out ≡ some r
      → r.channel_id ≡ c
      → In r visited
      → IsNewest c r visited
      → Newest c visited out

latest_in-skip :
    (c : String) (x : TaskRecord) (visited : List TaskRecord)
    → x.channel_id ≢ c
    → latest_in c none (x ∷ visited) ≡ latest_in c none visited
unfolding latest_in
latest_in-skip c x visited other = ground arith

skipped :
    (c : String) (x : TaskRecord) (visited : List TaskRecord) {out : Option TaskRecord}
    → x.channel_id ≢ c
    → Newest c visited out
    → Newest c (x ∷ visited) out
skipped c x visited other (nothing none_of e) = nothing (other, none_of) e
skipped c x visited other (newest r e ch m nw) =
    newest r e ch (inr m) ((λ same. absurd (other same)), nw)

-- GetByChannel answers with a record of the channel that is among those visited and than which no
-- record of the channel is newer, and with nothing exactly when the channel has no record, in
-- whatever order the records are visited.
pub get_by_channel-Newest :
    (c : String) (visited : List TaskRecord) → Newest c visited (get_by_channel c visited)
unfolding get_by_channel
get_by_channel-Newest c [] = nothing tt refl
get_by_channel-Newest c (x ∷ visited) = elim (str_dec x.channel_id c) [
  | yes same ↦
      let (r, e, ch, m, le, nw) = latest_in-some c x visited same in
      newest r (ground arith) ch (ground arith) ((λ _. le), nw)
  | no other ↦
      rw (latest_in-skip c x visited other)
        (skipped c x visited other (get_by_channel-Newest c visited))
]
