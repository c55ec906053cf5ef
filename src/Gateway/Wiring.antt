-- ===== src/Gateway/Wiring.antt =====
-- gateway/slack.go: NewSlackGateway, as far as the callbacks see the gateway. The clients of Slack and the
-- handler of reviews have no state of their own here.
use agentfactory_gateway.Common.{Option, [], refl, ◌≡◌}
use agentfactory_gateway.Common.Int.{pos}
use agentfactory_gateway.Common.Dict.{lookup}
use agentfactory_gateway.Common.Float.{Float}
use agentfactory_gateway.Metrics.{Metrics, reset_metrics}
use agentfactory_gateway.State.Manager.{StateManager}
use agentfactory_gateway.Queue.Invariant.{Inv}
use agentfactory_gateway.Queue.State.{
  TaskQueueConfig, new_task_queue, set_dequeue_callback, is_waiting,
}
use agentfactory_gateway.Gateway.Stream.{Gateway}

abbrev pub gateway_limits : TaskQueueConfig
gateway_limits = record { max_concurrent_tasks = pos 5; max_per_channel = pos 1 }

module _ (F : Float) (M : StateManager) where
  unfoldable pub new_slack_gateway : Metrics → Option M.State → Gateway F M
  unfolding new_task_queue set_dequeue_callback
  new_slack_gateway metrics store = record {
    world = set_dequeue_callback (record { tq = new_task_queue gateway_limits; metrics = metrics });
    store = store;
    cache = [];
    calls = [];
  }

  -- With the counters at zero, as when the process starts, the queue of a new gateway is valid, and
  -- keeps the limits that it is given.
  pub new_slack_gateway-Inv :
      (store : Option M.State)
      → Inv (new_slack_gateway reset_metrics store).world
        × ((new_slack_gateway reset_metrics store).world.config ≡ gateway_limits)
  unfolding new_slack_gateway new_task_queue set_dequeue_callback reset_metrics is_waiting lookup
  new_slack_gateway-Inv store = (
    record {
      running_unique = tt;
      running_named = tt;
      waiting_unique = tt;
      disjoint = λ id h. refl;
      channels_unique = tt;
      channels_positive = tt;
      queued_exact = refl;
    },
    refl,
  )
