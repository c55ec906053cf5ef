-- ===== src/Queue/Slots.antt =====
-- gateway/task_queue.go: the map `channels`, by which ChannelHasActiveTask answers. The count of a
-- channel is the number of its waiting tasks and of the direct registrations that were not released.
use agentfactory_gateway.Common.{
  ℕ, suc, ◌+◌, ◌-◌, ◌≤◌, String, ◌≡◌, ap, not, ◌&&◌, inl, inr, Option, none, some, List, [], ◌∷◌,
  ◌++◌, if◌then◌else◌, ◌==◌, ◌/=◌, count_if, count_if-append, arith, Option-cases,
}
use agentfactory_gateway.Common.Dict.{Dict, lookup, has_key, lookup-insert, lookup-delete}
use agentfactory_gateway.Queue.Task.{QueuedTask, running, dispatching, transition}
use agentfactory_gateway.Queue.State.{World, count_of, count_up, count_down}
use agentfactory_gateway.Queue.Methods.{
  append_waiting, enqueue, mark_running, finish_running, try_dequeue, release_running,
  mark_dispatched, register_direct, mark_running_direct,
}
use agentfactory_gateway.Queue.Waiting.{count_if-middle}
use agentfactory_gateway.Queue.Cases.{moved, mark_running_cases, try_dequeue_cases}
use agentfactory_gateway.Queue.Sections.{
  Action, enqueues, marks_running, finishes, dequeues, releases, marks_dispatched, registers,
  release, apply,
}
use agentfactory_gateway.Queue.Invariant.{Inv}

abbrev pub waiting_in : String → List QueuedTask → ℕ
waiting_in c = count_if (λ t. t.channel_id == c)

-- The count of channel `c` is the number of its waiting tasks and `k` more.
abbrev pub IsOwed : String → ℕ → World → Type 0
IsOwed c k w = count_of c w.channels ≡ waiting_in c w.waiting + k

-- How an action changes the number of slots that are not due to waiting tasks.
abbrev pub owed_after : Action → String → World → ℕ → ℕ
owed_after (registers now t) c w k =
    if t.channel_id == c && (t.task_id /= "" && not (has_key t.task_id w.running)) then suc k else k
owed_after (releases id) c w k = elim (lookup id w.running) [
  | none ↦ k
  | some t ↦ if t.channel_id == c then k - 1 else k
]
owed_after _ c w k = k

-- A release in the channel finds a slot to give back.
abbrev pub Covered : Action → String → World → ℕ → Type 0
Covered (releases id) c w k =
    (t : QueuedTask) → lookup id w.running ≡ some t → t.channel_id ≡ c → 1 ≤ k
Covered _ c w k = Unit

pub count_up-count :
    (c d : String) (m : Dict ℕ)
    → count_of c (count_up d m) ≡ (if d == c then suc (count_of c m) else count_of c m)
unfolding count_up
count_up-count c d m = ground (arith, lookup-insert c d (count_of d m + 1) m)

pub count_down-count :
    (c d : String) (m : Dict ℕ)
    → count_of c (count_down d m) ≡ (if d == c then count_of c m - 1 else count_of c m)
unfolding count_down
count_down-count c d m = ground (arith, lookup-insert c d (count_of d m - 1) m, lookup-delete c d m)

moved-IsOwed :
    (c : String) (k : ℕ) (id : String) (x t : QueuedTask) (before after : List QueuedTask)
    (w : World)
    → w.waiting ≡ before ++ x ∷ after
    → IsOwed c k w
    → IsOwed c k (moved id x (before ++ after) t w)
unfolding count_if
moved-IsOwed c k id x t before after w was h = ground (
  arith,
  ap (waiting_in c) was,
  count_if-middle (λ s. s.channel_id == c) x before after,
  count_down-count c x.channel_id w.channels,
)

enqueue-IsOwed :
    (c : String) (k : ℕ) (t : Option QueuedTask) (w : World)
    → IsOwed c k w
    → IsOwed c k (enqueue t w).0
unfolding enqueue append_waiting count_if
enqueue-IsOwed c k none w h = h
enqueue-IsOwed c k (some t) w h = ground (
  arith,
  count_up-count c t.channel_id w.channels,
  count_if-append (λ s. s.channel_id == c) w.waiting (t ∷ []),
)

mark_running-IsOwed :
    (c : String) (k now : ℕ) (id : String) (w : World)
    → IsOwed c k w
    → IsOwed c k (mark_running now id w).0
mark_running-IsOwed c k now id w h = elim (mark_running_cases now id w) [
  | inl (e, _) ↦ rw e h
  | inr (x, rest, e, r) ↦
      rw (e, r.is) (moved-IsOwed c k id x (transition now x running).0 r.before r.after w r.was h)
]

try_dequeue-IsOwed :
    (c : String) (k now : ℕ) (w : World) → Inv w → IsOwed c k w → IsOwed c k (try_dequeue now w).0
try_dequeue-IsOwed c k now w v h = elim (try_dequeue_cases now w v.waiting_unique) [
  | inl (e, _) ↦ rw e h
  | inr (x, ch, e) ↦
      rw e.0 (
        moved-IsOwed c k x.task_id x (transition now x dispatching).0 ch.before ch.after w ch.was h)
]

release-IsOwed :
    (c : String) (k : ℕ) (id : String) (w : World)
    → Covered (releases id) c w k
    → IsOwed c k w
    → IsOwed c (owed_after (releases id) c w k) (release id w)
unfolding release release_running
release-IsOwed c k id w cov h = elim (Option-cases (lookup id w.running)) [
  | inl e ↦ rw (e, release, owed_after) h
  | inr (t, e) ↦
      rw (e, release, owed_after)
        (ground (arith, cov t e, count_down-count c t.channel_id w.channels))
]

mark_dispatched-IsOwed :
    (c : String) (k now : ℕ) (id : String) (w : World)
    → IsOwed c k w
    → IsOwed c k (mark_dispatched now id w).0
unfolding mark_dispatched
mark_dispatched-IsOwed c k now id w h = ground arith

mark_running_direct-IsOwed :
    (c : String) (k now : ℕ) (t : QueuedTask) (w : World)
    → IsOwed c k w
    → IsOwed c (owed_after (registers now t) c w k) (mark_running_direct now t w)
unfolding mark_running_direct register_direct
mark_running_direct-IsOwed c k now t w h = ground (arith, count_up-count c t.channel_id w.channels)

-- Each critical section keeps the account of a channel's slots, on a valid queue and where a release
-- finds a slot to give back: the count of the channel is the number of its waiting tasks and `k`
-- more, where only a direct registration in the channel raises `k` and only a release lowers it.
pub apply-IsOwed :
    (a : Action) (c : String) (k : ℕ) (w : World)
    → Inv w
    → Covered a c w k
    → IsOwed c k w
    → IsOwed c (owed_after a c w k) (apply a w)
unfolding apply
apply-IsOwed (enqueues t) c k w v _ h = enqueue-IsOwed c k t w h
apply-IsOwed (marks_running now id) c k w v _ h = mark_running-IsOwed c k now id w h
apply-IsOwed (finishes id) c k w v _ h = unfold finish_running in h
apply-IsOwed (dequeues now) c k w v _ h = try_dequeue-IsOwed c k now w v h
apply-IsOwed (releases id) c k w v cov h = release-IsOwed c k id w cov h
apply-IsOwed (marks_dispatched now id) c k w v _ h = mark_dispatched-IsOwed c k now id w h
apply-IsOwed (registers now t) c k w v _ h = mark_running_direct-IsOwed c k now t w h
