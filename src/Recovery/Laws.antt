-- ===== src/Recovery/Laws.antt =====
-- gateway/recovery.go: what is recorded and answered after a recovery.
use agentfactory_gateway.Common.{
  ℕ, zero, suc, String, Bool, true, false, ◌≡◌, ◌≢◌, ◌∙◌, inl, inr, refl, sym, ap, subst, Option,
  none, some, List, [], ◌∷◌, length, All, All-append, if◌then◌else◌, ◌==◌, ◌||◌, ltb, str_dec,
  text_ne, arith,
}
use agentfactory_gateway.Common.Float.{Float}
use agentfactory_gateway.State.Json.{TaskRecord}
use agentfactory_gateway.State.Manager.{StateManager, HasStatus, IsLawful}
use agentfactory_gateway.Recovery.{
  RecoveryResult, SlackCall, post, update, Checked, reported, failed, final_status_of, classify,
  recovered_record, recovery_call, update_recovered_status, recover_single, recover_each, one,
  result_of, recover_active_tasks,
}

if-ne : (test : Bool) {s t : String} → s ≢ "" → t ≢ "" → (if test then s else t) ≢ ""
if-ne true h k = h
if-ne false h k = k

final_status_of-ne : (s : String) → final_status_of s ≢ ""
unfolding final_status_of
final_status_of-ne s = if-ne (s == "done" || s == "completed") (text_ne "done" "" refl) (
    if-ne (s == "error" || s == "failed") (text_ne "error" "" refl) (
      if-ne (s == "timeout" || s == "timed_out") (text_ne "error" "" refl) (
        if-ne (s == "running" || s == "in_progress") (text_ne "running" "" refl)
          (text_ne "error" "" refl))))

classify-ne : (c : Checked) → (classify c).0 ≢ ""
unfolding classify
classify-ne (reported s) = final_status_of-ne s
classify-ne (failed err) = text_ne "error" "" refl

module _ (F : Float) (M : StateManager) (check : String → Checked) (now : ℕ) where
  -- The status that recovery gives to a task.
  abbrev pub verdict : String → String
  verdict id = (classify (check id)).0

  -- The state after the step of one task.
  after : TaskRecord → M.State → M.State
  after rec s = (M.set now (recovered_record rec (verdict rec.task_id)) s).0

  step_state :
      (rec : TaskRecord) (s : M.State) → (recover_single F M check now rec s).0.state ≡ after rec s
  unfolding recover_single update_recovered_status after
  step_state rec s = refl

  module _ (L : IsLawful M) where
    after_same :
        (rec : TaskRecord) (s : M.State)
        → HasStatus M s rec.task_id (verdict rec.task_id)
        → HasStatus M (after rec s) rec.task_id (verdict rec.task_id)
    unfolding after recovered_record
    after_same rec s (r, found, st) =
        elim (L.get-set_failed now (recovered_record rec (verdict rec.task_id)) s
          (classify-ne (check rec.task_id))) [
            | inl kept ↦ (r, kept ∙ found, st)
            | inr given ↦ given
          ]

    after-HasStatus :
        (rec : TaskRecord) (s : M.State) (id : String)
        → HasStatus M s id (verdict id)
        → HasStatus M (after rec s) id (verdict id)
    unfolding after recovered_record
    after-HasStatus rec s id has = elim (str_dec id rec.task_id) [
      | no other ↦ (
        has.0,
        L.get-set_other now (recovered_record rec (verdict rec.task_id)) s id other ∙ has.1,
        has.2,
      )
      | yes same ↦
          subst (λ (t : String). HasStatus M (after rec s) t (verdict t)) (sym same)
            (after_same rec s (subst (λ (t : String). HasStatus M s t (verdict t)) same has))
    ]

    each-HasStatus :
        (cancelled : List Bool) (active : List TaskRecord) (s : M.State) (id : String)
        → HasStatus M s id (verdict id)
        → HasStatus M (recover_each F M check now cancelled active s).state id (verdict id)
    unfolding recover_each recover_single update_recovered_status after
    each-HasStatus cancelled [] s id has = has
    each-HasStatus (true ∷ cancelled) (rec ∷ active) s id has = has
    each-HasStatus (false ∷ cancelled) (rec ∷ active) s id has =
        each-HasStatus cancelled active (after rec s) id (after-HasStatus rec s id has)
    each-HasStatus [] (rec ∷ active) s id has =
        each-HasStatus [] active (after rec s) id (after-HasStatus rec s id has)

    -- What a result says is recorded in the state.
    abbrev pub Recorded : M.State → RecoveryResult → Type 0
    Recorded s r = (r.final_status ≡ verdict r.task_id) × HasStatus M s r.task_id r.final_status

    one-Recorded :
        (rec : TaskRecord) (final : M.State) (err : Option String)
        → (err ≡ none → HasStatus M final rec.task_id (verdict rec.task_id))
        → All (Recorded final) (one (result_of rec (verdict rec.task_id) err))
    unfolding result_of
    one-Recorded rec final (some _) h = tt
    one-Recorded rec final none h = ((refl, h refl), tt)

    each-Recorded :
        (cancelled : List Bool) (active : List TaskRecord) (s : M.State)
        → All
            (Recorded (recover_each F M check now cancelled active s).state)
            (recover_each F M check now cancelled active s).results
    unfolding recover_each recover_single update_recovered_status after recovered_record
    each-Recorded cancelled [] s = tt
    each-Recorded (true ∷ cancelled) (rec ∷ active) s = tt
    each-Recorded (false ∷ cancelled) (rec ∷ active) s =
        All-append (Recorded _) (one (result_of rec (verdict rec.task_id) _)) _
          (one-Recorded rec _ _ (λ ok. each-HasStatus cancelled active (after rec s) rec.task_id (
            L.get-set now (recovered_record rec (verdict rec.task_id)) s
              (classify-ne (check rec.task_id)) ok)))
          (each-Recorded cancelled active (after rec s))
    each-Recorded [] (rec ∷ active) s =
        All-append (Recorded _) (one (result_of rec (verdict rec.task_id) _)) _
          (one-Recorded rec _ _ (λ ok. each-HasStatus [] active (after rec s) rec.task_id (
            L.get-set now (recovered_record rec (verdict rec.task_id)) s
              (classify-ne (check rec.task_id)) ok)))
          (each-Recorded [] active (after rec s))

    -- With a store that does what its clients rely on: whatever Set calls fail and wherever the
    -- recovery is cancelled, each result that RecoverActiveTasks returns gives the status that the
    -- worker's answer stands for, and the store holds that status for the task at the end.
    pub recover_active_tasks-Recorded :
        (cancelled : List Bool) (s : M.State)
        → All
            (Recorded (recover_active_tasks F M check now cancelled s).state)
            (recover_active_tasks F M check now cancelled s).results
    unfolding recover_active_tasks
    recover_active_tasks-Recorded cancelled s = each-Recorded cancelled (M.list_active s) s

  -- The results of tasks all of which are recovered.
  abbrev pub results_for : List TaskRecord → List RecoveryResult
  results_for [] = []
  results_for (rec ∷ active) =
      record {
        task_id = rec.task_id;
        channel_id = rec.channel_id;
        final_status = verdict rec.task_id;
      }
      ∷ results_for active

  one-ok :
      (rec : TaskRecord) (v : String) (err : Option String)
      → err ≡ none
      → one (result_of rec v err)
        ≡ record { task_id = rec.task_id; channel_id = rec.channel_id; final_status = v } ∷ []
  unfolding result_of
  one-ok rec v err e = rw e refl

  each-results_for :
      (active : List TaskRecord) (s : M.State)
      → ((rec : TaskRecord) (t : M.State) → (M.set now rec t).1 ≡ none)
      → (recover_each F M check now [] active s).results ≡ results_for active
  unfolding recover_each recover_single update_recovered_status
  each-results_for [] s ok = refl
  each-results_for (rec ∷ active) s ok =
      rw (one-ok rec (verdict rec.task_id) _ (ok (recovered_record rec (verdict rec.task_id)) s)) (
        ap
          (λ rs.
            record {
              task_id = rec.task_id;
              channel_id = rec.channel_id;
              final_status = verdict rec.task_id;
            }
            ∷ rs)
          (each-results_for active _ ok))

  each_uncancelled :
      (active : List TaskRecord) (s : M.State)
      → (recover_each F M check now [] active s).cancelled ≡ false
  unfolding recover_each
  each_uncancelled [] s = refl
  each_uncancelled (rec ∷ active) s = each_uncancelled active _

  -- When no Set fails and the recovery is not cancelled, RecoverActiveTasks returns one result for
  -- each task that ListActive gives, in its order, and no error.
  pub recover_active_tasks_complete :
      (s : M.State)
      → ((rec : TaskRecord) (t : M.State) → (M.set now rec t).1 ≡ none)
      → ((recover_active_tasks F M check now [] s).results ≡ results_for (M.list_active s))
        × ((recover_active_tasks F M check now [] s).cancelled ≡ false)
  unfolding recover_active_tasks
  recover_active_tasks_complete s ok =
      (each-results_for (M.list_active s) s ok, each_uncancelled (M.list_active s) s)

  abbrev pub take : ℕ → List TaskRecord → List TaskRecord
  take zero recs = []
  take (suc k) [] = []
  take (suc k) (rec ∷ recs) = rec ∷ take k recs

  -- The context is cancelled before round k.
  abbrev pub cancelled_at : ℕ → List Bool
  cancelled_at zero = true ∷ []
  cancelled_at (suc k) = false ∷ cancelled_at k

  -- A recovery that is cancelled after k tasks has done with these what a recovery of them alone
  -- does, in state, calls and results, has not touched the others, and answers the error of the
  -- context exactly if tasks were left.
  pub recover_each-cancelled :
      (k : ℕ) (active : List TaskRecord) (s : M.State)
      → recover_each F M check now (cancelled_at k) active s
        ≡ record (recover_each F M check now [] (take k active) s) {
          cancelled = ltb k (length active);
        }
  unfolding recover_each
  recover_each-cancelled zero [] s = ground arith
  recover_each-cancelled (suc k) [] s = ground arith
  recover_each-cancelled zero (rec ∷ active) s = ground arith
  recover_each-cancelled (suc k) (rec ∷ active) s =
      rw (recover_each-cancelled k active (recover_single F M check now rec s).0.state)
        (ground arith)

-- The calls that change a message.
abbrev pub IsUpdate : SlackCall → Type 0
IsUpdate (post _ _) = ⊥
IsUpdate (update _ _ _) = Unit

recovery_call-IsUpdate :
    (F : Float) (rec : TaskRecord) (status message : String)
    → All IsUpdate (recovery_call F rec status message)
unfolding recovery_call
recovery_call-IsUpdate F rec status message = ground arith

module _ (F : Float) (M : StateManager) (check : String → Checked) (now : ℕ) where
  -- Recovery posts no message: the branch that posts one for a task without a message of its own is
  -- never taken.
  pub recover_each-IsUpdate :
      (cancelled : List Bool) (active : List TaskRecord) (s : M.State)
      → All IsUpdate (recover_each F M check now cancelled active s).calls
  unfolding recover_each recover_single update_recovered_status
  recover_each-IsUpdate cancelled [] s = tt
  recover_each-IsUpdate (true ∷ cancelled) (rec ∷ active) s = tt
  recover_each-IsUpdate (false ∷ cancelled) (rec ∷ active) s =
      All-append IsUpdate (recovery_call F rec _ _) _ (recovery_call-IsUpdate F rec _ _)
        (recover_each-IsUpdate cancelled active _)
  recover_each-IsUpdate [] (rec ∷ active) s =
      All-append IsUpdate (recovery_call F rec _ _) _ (recovery_call-IsUpdate F rec _ _)
        (recover_each-IsUpdate [] active _)
