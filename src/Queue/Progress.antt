-- ===== src/Queue/Progress.antt =====
-- gateway/task_queue.go: the global limit, and that finishing a task lets its channel go on.
use agentfactory_gateway.Common.{
  ℕ, suc, ◌≤◌, String, ◌≡◌, refl, ◌≢◌, true, false, inl, inr, none, some, List, [], ◌∷◌, ◌++◌,
  length, All, count_if, arith,
}
use agentfactory_gateway.Common.Dict.{
  Dict, lookup, insert, delete, HasUniqueKeys, length-insert_new, length-delete_present,
  delete_absent,
}
use agentfactory_gateway.Common.Int.{pos}
use agentfactory_gateway.Queue.Task.{QueuedTask, dispatching, transition}
use agentfactory_gateway.Queue.State.{World, is_waiting, is_at_capacity}
use agentfactory_gateway.Queue.Methods.{
  in_channels, try_dequeue, finish_running, mark_done, started_directly, mark_running_direct,
  register_direct,
}
use agentfactory_gateway.Queue.Waiting.{is_waiting-middle}
use agentfactory_gateway.Queue.Cases.{NoneEligible, try_dequeue_cases}
use agentfactory_gateway.Queue.Invariant.{Inv}
use agentfactory_gateway.Queue.Dequeue.{running_in, IsExclusive, waits_not_runs}

-- At most `k` tasks run, where `k` is the configured limit.
pub record IsCapped (k : ℕ) (w : World) : Type 0 where
  pub limit : w.config.max_concurrent_tasks ≡ pos k
  pub within : length w.running ≤ k

-- With at most as many running tasks as the limit allows, tryDequeue does not pass the limit.
pub try_dequeue-IsCapped :
    (k now : ℕ) (w : World) → Inv w → IsCapped k w → IsCapped k (try_dequeue now w).0
unfolding is_at_capacity
try_dequeue-IsCapped k now w v h = elim (try_dequeue_cases now w v.waiting_unique) [
  | inl (e, _) ↦ rw e h
  | inr (x, c, e) ↦ rw e.0 (
      ground (
        arith,
        h,
        e.1,
        length-insert_new x.task_id (transition now x dispatching).0 w.running
            (waits_not_runs w x c.before c.after v c.was),
      ))
]

-- MarkRunningDirect has no such check: a task with a new, non-empty id is always added, also where
-- the limit is reached.
pub mark_running_direct_over :
    (now : ℕ) (t : QueuedTask) (w : World)
    → t.task_id ≢ ""
    → lookup t.task_id w.running ≡ none
    → length (mark_running_direct now t w).running ≡ suc (length w.running)
unfolding mark_running_direct register_direct
mark_running_direct_over now t w named new =
    ground (arith, length-insert_new t.task_id (started_directly now t) w.running)

delete-running_in :
    (id : String) (m : Dict QueuedTask) (t : QueuedTask)
    → HasUniqueKeys m
    → lookup id m ≡ some t
    → suc (running_in t.channel_id (delete id m)) ≡ running_in t.channel_id m
unfolding lookup delete count_if
delete-running_in id [] t u h = ground arith
delete-running_in id ((k, x) ∷ m) t u h =
    ground (arith, delete-running_in id m t u.1, delete_absent id m)

not_in_channels : (c : String) (m : Dict QueuedTask) → running_in c m ≡ 0 → in_channels c m ≡ false
unfolding in_channels count_if
not_in_channels c [] h = refl
not_in_channels c ((k, t) ∷ m) h = ground (arith, not_in_channels c m)

All-middle {ℓ κ} :
    {A : Type ℓ} (P : A → Type κ) (x : A) (xs ys : List A) → All P (xs ++ x ∷ ys) → P x
All-middle P x [] ys h = h.0
All-middle P x (z ∷ xs) ys h = All-middle P x xs ys h.1

module _ (k : ℕ) (id : String) (t x : QueuedTask) (xs ys : List QueuedTask) (w : World) (v : Inv w)
    (one : IsExclusive w) (capped : IsCapped k w) (runs : lookup id w.running ≡ some t)
    (waits : w.waiting ≡ xs ++ x ∷ ys) (same : x.channel_id ≡ t.channel_id) where
  -- The channel of the finished task is free.
  channel_free : in_channels x.channel_id (delete id w.running) ≡ false
  channel_free =
      not_in_channels x.channel_id (delete id w.running)
        (ground (arith, one t.channel_id, delete-running_in id w.running t v.running_unique runs))

  eligible : ¬ NoneEligible (finish_running id w)
  unfolding finish_running is_at_capacity
  eligible (inl full) = absurd (
      ground
        (arith, capped, full, length-delete_present id w.running {w = t} v.running_unique runs))
  eligible (inr blocked) = cc (
    channel_free,
    All-middle (λ s. in_channels s.channel_id (delete id w.running) ≡ true) x xs ys
        (rw waits at blocked),
  )

  -- When a task of a channel finishes while another of the channel waits, on a valid queue within
  -- the limit and with at most one running task in each channel, MarkDone starts a waiting task.
  pub mark_done-starts :
      (now : ℕ)
      → (y : QueuedTask) × (is_waiting y.task_id w.waiting ≡ true)
        × ((mark_done now id w).0.running
            ≡ insert y.task_id (transition now y dispatching).0 (delete id w.running))
  unfolding mark_done finish_running is_waiting
  mark_done-starts now = elim (try_dequeue_cases now (finish_running id w) v.waiting_unique) [
    | inl (_, n) ↦ absurd (eligible n)
    | inr (y, c, e) ↦
        (y, rw c.was (rw (is_waiting-middle y.task_id y c.before c.after) (ground arith)), rw e.0)
  ]
