-- ===== src/Gateway/Reconciled.antt =====
-- gateway/slack.go: the queue after ReconcileAfterRecovery.
use agentfactory_gateway.Common.{
  ℕ, String, Bool, false, Option, none, some, [], ◌∷◌, ◌==◌, ◌≡◌, ◌≢◌, ◌∙◌, refl, ap, arith,
  eq_self,
}
use agentfactory_gateway.Common.Dict.{Dict, lookup, insert, delete, lookup-insert, delete_absent}
use agentfactory_gateway.Queue.Task.{QueuedTask}
use agentfactory_gateway.Queue.State.{World, count_of, count_up}
use agentfactory_gateway.Queue.Methods.{
  mark_running_direct, register_direct, started_directly, release_terminal_task, release_running,
}
use agentfactory_gateway.Queue.Slots.{count_up-count, count_down-count}
use agentfactory_gateway.Recovery.{RecoveryResult}
use agentfactory_gateway.Gateway.Interactive.{recovered_task, reconcile_one}

delete-insert_absent {ℓ} :
    {V : Type ℓ} (k : String) (v : V) (m : Dict V) → lookup k m ≡ none → delete k (insert k v m) ≡ m
unfolding lookup insert delete
delete-insert_absent k v [] h = ground arith
delete-insert_absent k v ((j, w) ∷ m) h =
    ground (arith, delete-insert_absent k v m, delete_absent k m)

module _ (now : ℕ) (r : RecoveryResult) (w : World) (named : r.task_id ≢ "")
    (fresh : lookup r.task_id w.running ≡ none) where
  registered :
      mark_running_direct now (recovered_task now r) w
      ≡ register_direct now (recovered_task now r) w
  unfolding mark_running_direct
  registered = ground arith

  registered_there :
      lookup r.task_id (register_direct now (recovered_task now r) w).running
      ≡ some (recovered_task now r)
  unfolding register_direct started_directly
  registered_there =
      lookup-insert r.task_id r.task_id (recovered_task now r) w.running
      ∙ rw (eq_self r.task_id) refl

  released :
      (is_done : Bool)
      → is_done ≡ false
      → release_terminal_task now r.task_id is_done (register_direct now (recovered_task now r) w)
        ≡ (
          release_running r.task_id
              (recovered_task now r)
              (register_direct now (recovered_task now r) w),
          none,
        )
  unfolding release_terminal_task
  released is_done e = rw (registered_there, release_terminal_task) (rw e refl)

  abbrev left : World
  left =
      release_running r.task_id (recovered_task now r)
        (register_direct now (recovered_task now r) w)

  reconcile_one_lem :
      r.final_status ≢ "done" → r.final_status ≢ "running" → reconcile_one now r w ≡ (left, none)
  unfolding reconcile_one
  reconcile_one_lem not_done not_running =
      rw registered (ground (arith, released (r.final_status == "done"), released false refl))

  left_channels : (c : String) → count_of c left.channels ≡ count_of c w.channels
  unfolding release_running register_direct
  left_channels c = ground (
    arith,
    count_down-count c r.channel_id (count_up r.channel_id w.channels),
    count_up-count c r.channel_id w.channels,
  )

  -- A task that recovery found failed or stopped, or with another status that is not done or running,
  -- and that the queue did not know, leaves no trace in the queue: the running and the waiting tasks
  -- and every channel's count are as before, and no task is started.
  pub reconcile_one-failed :
      r.final_status ≢ "done"
      → r.final_status ≢ "running"
      → ((reconcile_one now r w).0.running ≡ w.running)
        × ((reconcile_one now r w).0.waiting ≡ w.waiting)
        × ((c : String) → count_of c (reconcile_one now r w).0.channels ≡ count_of c w.channels)
        × ((reconcile_one now r w).1 ≡ none)
  unfolding release_running register_direct started_directly
  reconcile_one-failed not_done not_running =
      let e = reconcile_one_lem not_done not_running in
      (
        ap (λ (x : World × Option QueuedTask). x.0.running) e
            ∙ delete-insert_absent r.task_id (recovered_task now r) w.running fresh,
        ap (λ (x : World × Option QueuedTask). x.0.waiting) e,
        (λ c. ap (λ (x : World × Option QueuedTask). count_of c x.0.channels) e ∙ left_channels c),
        ap (λ (x : World × Option QueuedTask). x.1) e,
      )
