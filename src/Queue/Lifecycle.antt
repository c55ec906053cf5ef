-- ===== src/Queue/Lifecycle.antt =====
-- gateway/queued_task.go: the life of a task's status.
use agentfactory_gateway.Common.{
  ℕ, suc, ◌+◌, ◌≤◌, ◌<◌, String, ◌≡◌, refl, ap, ◌≢◌, ◌↔◌, true, inl, inr, none, some, List, [], ◌∷◌,
  if◌then◌else◌, All, arith, Bool-cases, Option-cases,
}
use agentfactory_gateway.Queue.Task.{
  TaskStatus, queued, dispatching, running, done, error, is_valid_transition, QueuedTask,
  InvalidTransitionError, new_queued_task, transition,
}

-- The diagram in the comment of IsValidTransition: queued → dispatching → running → done/error,
-- with the edge from dispatching to error that the table has.
infix 40 ◌⟶◌ ◌⟶*◌
pub data ◌⟶◌ : TaskStatus → TaskStatus → Type 0 where
  pick : queued ⟶ dispatching
  start : dispatching ⟶ running
  fail_early : dispatching ⟶ error
  finish : running ⟶ done
  fail : running ⟶ error

pub data ◌⟶*◌ (a : TaskStatus) : TaskStatus → Type 0 where
  here : a ⟶* a
  go_on : {b c : TaskStatus} → a ⟶* b → b ⟶ c → a ⟶* c

ruleset edges = (pick, start, fail_early, finish, fail)

is_valid_transition_sound : (a b : TaskStatus) → is_valid_transition a b ≡ true → a ⟶ b
unfolding is_valid_transition
is_valid_transition_sound a b h = grind (arith, edges)

is_valid_transition_complete : {a b : TaskStatus} → a ⟶ b → is_valid_transition a b ≡ true
unfolding is_valid_transition
is_valid_transition_complete pick = refl
is_valid_transition_complete start = refl
is_valid_transition_complete fail_early = refl
is_valid_transition_complete finish = refl
is_valid_transition_complete fail = refl

-- IsValidTransition accepts exactly the edges of the diagram.
pub is_valid_transition_iff : (a b : TaskStatus) → (is_valid_transition a b ≡ true) ↔ (a ⟶ b)
is_valid_transition_iff a b = (is_valid_transition_sound a b, is_valid_transition_complete)

-- A task's transitions at given times; those that are refused change nothing.
unfoldable pub transitions : QueuedTask → List (ℕ × TaskStatus) → QueuedTask
transitions t [] = t
transitions t ((now, s) ∷ rest) = transitions (transition now t s).0 rest

-- What holds of a task that was created queued and changed by Transition alone.
pub record IsTimed (t : QueuedTask) : Type 0 where
  pub reached : queued ⟶* t.status
  pub unstarted : t.status ≡ queued → t.started_at ≡ 0
  pub stamped : t.status ≢ queued → 0 < t.started_at

transition-stamps :
    (now : ℕ) (t : QueuedTask) (s : TaskStatus)
    → 0 < now
    → IsTimed t
    → ((transition now t s).0.status ≡ queued → (transition now t s).0.started_at ≡ 0)
      × ((transition now t s).0.status ≢ queued → 0 < (transition now t s).0.started_at)
unfolding transition is_valid_transition
transition-stamps now t s p h = ground arith

transition-status :
    (now : ℕ) (t : QueuedTask) (s : TaskStatus)
    → (transition now t s).0.status ≡ (if is_valid_transition t.status s then s else t.status)
unfolding transition
transition-status now t s = ground arith

transition-IsTimed :
    (now : ℕ) (t : QueuedTask) (s : TaskStatus)
    → 0 < now
    → IsTimed t
    → IsTimed (transition now t s).0
transition-IsTimed now t s p h = record {
  reached = rw (transition-status now t s) (elim (Bool-cases (is_valid_transition t.status s)) [
    | inl ok ↦ rw ok (go_on h.reached (is_valid_transition_sound t.status s ok))
    | inr bad ↦ rw bad h.reached
  ]);
  unstarted = (transition-stamps now t s p h).0;
  stamped = (transition-stamps now t s p h).1;
}

new_queued_task-IsTimed :
    (now : ℕ) (id channel user prompt : String)
    → IsTimed (new_queued_task now id channel user prompt)
unfolding new_queued_task
new_queued_task-IsTimed now id channel user prompt = record {
  reached = here;
  unstarted = λ e. refl;
  stamped = λ n. absurd (n refl);
}

transitions-IsTimed_from :
    (t : QueuedTask) (steps : List (ℕ × TaskStatus))
    → IsTimed t
    → All (λ e. 0 < e.0) steps
    → IsTimed (transitions t steps)
unfolding transitions
transitions-IsTimed_from t [] h p = h
transitions-IsTimed_from t ((now, s) ∷ rest) h p =
    transitions-IsTimed_from (transition now t s).0 rest (transition-IsTimed now t s p.0 h) p.1

-- A task made by NewQueuedTask and changed by Transition alone, at times after the zero time, has a
-- status that the diagram reaches from queued; its start time is zero while it is queued and not
-- zero once it is not.
pub transitions-IsTimed :
    (now : ℕ) (id channel user prompt : String) (steps : List (ℕ × TaskStatus))
    → All (λ e. 0 < e.0) steps
    → IsTimed (transitions (new_queued_task now id channel user prompt) steps)
transitions-IsTimed now id channel user prompt steps p =
    transitions-IsTimed_from _ steps (new_queued_task-IsTimed now id channel user prompt) p

-- How far along the diagram a status is.
abbrev pub stage : TaskStatus → ℕ
stage queued = 0
stage dispatching = 1
stage running = 2
stage done = 3
stage error = 3

stage-transition :
    (now : ℕ) (t : QueuedTask) (s : TaskStatus)
    → (transition now t s).1 ≡ none
    → stage t.status < stage (transition now t s).0.status
unfolding transition is_valid_transition
stage-transition now t s h = ground arith

-- How many of the transitions succeed.
unfoldable pub accepted : QueuedTask → List (ℕ × TaskStatus) → ℕ
accepted t [] = 0
accepted t ((now, s) ∷ rest) =
    let n = accepted (transition now t s).0 rest in
    elim (transition now t s).1 [ none ↦ suc n | some _ ↦ n ]

stage-le : (s : TaskStatus) → stage s ≤ 3
stage-le s = ground arith

transition_failed :
    (now : ℕ) (t : QueuedTask) (s : TaskStatus) {e : InvalidTransitionError}
    → (transition now t s).1 ≡ some e
    → (transition now t s).0 ≡ t
unfolding transition
transition_failed now t s h = ground arith

-- Of any sequence of calls of Transition on a task, at most three succeed: a status never comes back.
pub accepted_bounded :
    (t : QueuedTask) (steps : List (ℕ × TaskStatus)) → accepted t steps + stage t.status ≤ 3
unfolding accepted
accepted_bounded t [] = omega (arith, stage-le t.status)
accepted_bounded t ((now, s) ∷ rest) = elim (Option-cases (transition now t s).1) [
  | inl ok ↦
      rw (ok, accepted)
        (omega (arith, accepted_bounded (transition now t s).0 rest, stage-transition now t s ok))
  | inr (e, bad) ↦
      rw (bad, accepted)
        (omega (
          arith,
          accepted_bounded (transition now t s).0 rest,
          ap (λ x. stage x.status) (transition_failed now t s bad),
        ))
]
