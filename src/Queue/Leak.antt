-- ===== src/Queue/Leak.antt =====
-- gateway/task_queue.go: a slot of a channel that a direct registration takes is given back by
-- releaseTerminalTask alone. MarkDone and MarkError do not give it back.
use agentfactory_gateway.Common.{
  ℕ, suc, String, ◌≡◌, refl, ◌≢◌, Bool, true, false, not, ◌&&◌, none, if◌then◌else◌, ◌==◌, ◌/=◌,
  arith,
}
use agentfactory_gateway.Common.Dict.{lookup, has_key}
use agentfactory_gateway.Queue.Task.{QueuedTask}
use agentfactory_gateway.Queue.State.{World, channel_has_active_task}
use agentfactory_gateway.Queue.Methods.{register_direct, mark_running_direct}
use agentfactory_gateway.Queue.Sections.{
  Action, enqueues, marks_running, finishes, dequeues, releases, marks_dispatched, registers, apply,
  Allowed, Reach, here, next,
}
use agentfactory_gateway.Queue.Slots.{IsOwed, count_up-count, apply-IsOwed}
use agentfactory_gateway.Queue.Invariant.{Inv}
use agentfactory_gateway.Queue.Safety.{apply-Inv}

abbrev pub is_release : Action → Bool
is_release (releases id) = true
is_release _ = false

-- No action of the sequence is a release.
abbrev pub HasNoRelease : {w v : World} → Reach w v → Type 0
HasNoRelease here = Unit
HasNoRelease (next a r h) = (is_release a ≡ false) × HasNoRelease r

owed_suc : (b : Bool) (k : ℕ) → (j : ℕ) × ((if b then suc (suc k) else suc k) ≡ suc j)
owed_suc true k = (suc k, refl)
owed_suc false k = (k, refl)

apply-still_IsOwed :
    (a : Action) (c : String) (k : ℕ) (w : World)
    → Inv w
    → is_release a ≡ false
    → IsOwed c (suc k) w
    → (j : ℕ) × IsOwed c (suc j) (apply a w)
apply-still_IsOwed (releases id) c k w v n h = cc
apply-still_IsOwed (registers now t) c k w v n h =
    let (j, e) =
      owed_suc (t.channel_id == c && (t.task_id /= "" && not (has_key t.task_id w.running))) k in
    (j, rw e at (apply-IsOwed (registers now t) c (suc k) w v tt h))
apply-still_IsOwed (enqueues t) c k w v n h = (k, apply-IsOwed (enqueues t) c (suc k) w v tt h)
apply-still_IsOwed (marks_running now id) c k w v n h =
    (k, apply-IsOwed (marks_running now id) c (suc k) w v tt h)
apply-still_IsOwed (finishes id) c k w v n h = (k, apply-IsOwed (finishes id) c (suc k) w v tt h)
apply-still_IsOwed (dequeues now) c k w v n h = (k, apply-IsOwed (dequeues now) c (suc k) w v tt h)
apply-still_IsOwed (marks_dispatched now id) c k w v n h =
    (k, apply-IsOwed (marks_dispatched now id) c (suc k) w v tt h)

Reach-still_IsOwed :
    (c : String) (k : ℕ) {w v : World} (r : Reach w v)
    → HasNoRelease r
    → Inv w
    → IsOwed c (suc k) w
    → Inv v × ((j : ℕ) × IsOwed c (suc j) v)
Reach-still_IsOwed c k here _ v h = (v, (k, h))
Reach-still_IsOwed c k (next {v = u} a r allowed) n v h =
    let (i, (j, o)) = Reach-still_IsOwed c k r n.1 v h in
    (apply-Inv a u allowed i, apply-still_IsOwed a c j u i n.0 o)

registered-IsOwed :
    (k now : ℕ) (t : QueuedTask) (w : World)
    → IsOwed t.channel_id k w
    → t.task_id ≢ ""
    → lookup t.task_id w.running ≡ none
    → IsOwed t.channel_id (suc k) (mark_running_direct now t w)
unfolding mark_running_direct register_direct
registered-IsOwed k now t w owed named new =
    ground (arith, count_up-count t.channel_id t.channel_id w.channels)

-- After MarkRunningDirect of a task with a new, non-empty id, from a valid queue whose channel count
-- is the number of the channel's waiting tasks and `k` more, ChannelHasActiveTask answers true for
-- its channel after any sequence of critical sections without a release: also when the task, and
-- every other one of the channel, has been finished by MarkDone or MarkError.
pub channel_stays_active :
    (k now : ℕ) (t : QueuedTask) {w v : World}
    → Inv w
    → IsOwed t.channel_id k w
    → Allowed (registers now t) w
    → t.task_id ≢ ""
    → lookup t.task_id w.running ≡ none
    → (r : Reach (mark_running_direct now t w) v) → HasNoRelease r
    → channel_has_active_task t.channel_id v ≡ true
unfolding channel_has_active_task apply
channel_stays_active k now t {w} {v} i owed allowed named new r n =
    let (_, (j, o)) =
      Reach-still_IsOwed t.channel_id k r n (apply-Inv (registers now t) w allowed i)
        (registered-IsOwed k now t w owed named new) in
    ground (arith, o)
