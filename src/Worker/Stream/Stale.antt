-- ===== src/Worker/Stream/Stale.antt =====
-- worker/stream_worker.go: a progress event that is still buffered when the last event comes is
-- delivered after it.
use agentfactory_gateway.Common.{◌≡◌, false, ◌⊎◌, none, some, List, [], ◌∷◌}
use agentfactory_gateway.Throttler.{SlackEvent, MessageThrottler}
use agentfactory_gateway.Worker.Stream.{Tick, reads, fires, stops, expires, Reading}

-- The worker is not stopped, and the context does not end.
abbrev pub IsCalm : Tick → Type 0
IsCalm (reads pick line) = Unit
IsCalm fires = Unit
IsCalm stops = ⊥
IsCalm (expires e) = ⊥

module _ {P : Type 0} where
  -- An event that was buffered is buffered still, or is all that was delivered.
  abbrev HasOnly : SlackEvent P → MessageThrottler P → Type 0
  HasOnly e t =
      ((t.buffer ≡ some e) × (t.flushed ≡ [])) ⊎ ((t.buffer ≡ none) × (t.flushed ≡ e ∷ []))

  -- The reading goes on.
  abbrev IsOn : Reading P → Type 0
  IsOn r = (r.stopped ≡ false) × (r.expired ≡ none) × (r.throttler.stopped ≡ false)
