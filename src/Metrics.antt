-- ===== src/Metrics.antt =====
-- gateway/metrics.go: the process-wide counters. Each is an int64; it is kept as its bit pattern, a
-- number below 2^64, so that an atomic add wraps as it does in Go. The time of the last connection
-- is a number of time units, 0 for the zero time.
use agentfactory_gateway.Common.{ℕ, ◌+◌, ◌-◌, ◌%◌, Bool, true, false}

abbrev pub int64_mod : ℕ
int64_mod = 18446744073709551616

-- atomic.AddInt64(&c, 1) and atomic.AddInt64(&c, -1)
abbrev pub incr : ℕ → ℕ
incr c = (c + 1) % int64_mod

abbrev pub decr : ℕ → ℕ
decr c = (c + (int64_mod - 1)) % int64_mod

pub record Metrics : Type 0 where
  pub total_tasks_enqueued : ℕ
  pub total_tasks_completed : ℕ
  pub total_events_processed : ℕ
  pub errors : ℕ
  pub active_tasks : ℕ
  pub queued_tasks : ℕ
  pub connection_status : ℕ
  pub disconnection_count : ℕ
  pub last_connection_time : ℕ

unfoldable pub reset_metrics : Metrics
reset_metrics = record {
  total_tasks_enqueued = 0;
  total_tasks_completed = 0;
  total_events_processed = 0;
  errors = 0;
  active_tasks = 0;
  queued_tasks = 0;
  connection_status = 0;
  disconnection_count = 0;
  last_connection_time = 0;
}

unfoldable pub set_active_tasks : ℕ → Metrics → Metrics
set_active_tasks count m = record m { active_tasks = count % int64_mod }

unfoldable pub set_queued_tasks : ℕ → Metrics → Metrics
set_queued_tasks count m = record m { queued_tasks = count % int64_mod }

unfoldable pub set_connection_status : ℕ → Bool → Metrics → Metrics
set_connection_status now true m = record m { connection_status = 1; last_connection_time = now }
set_connection_status now false m = record m {
  connection_status = 0;
  disconnection_count = incr m.disconnection_count;
}
