-- ===== src/Throttler/Tests.antt =====
-- Runs of the throttler of worker/throttler.go.
use agentfactory_gateway.Common.{String, ◌≡◌, refl, none, [], ◌∷◌}
use agentfactory_gateway.Throttler.{
  SlackEvent, progress, tool_call, done, is_immediate, new_message_throttler, push, stop,
  flush_event, Shared, pushes, stops, takes, delivers, step, run,
}
use agentfactory_gateway.Throttler.Delivery.{In, IsOut, push-delivered}

abbrev half : SlackEvent String
half = record { type = progress; payload = none }

abbrev call : SlackEvent String
call = record { type = tool_call; payload = none }

abbrev finish : SlackEvent String
finish = record { type = done; payload = none }

abbrev fresh : Shared String
fresh = record { throttler = new_message_throttler; taken = [] }

-- The final event does not wait for the buffered one.
overtakes :
    (run (pushes half ∷ pushes finish ∷ stops ∷ []) fresh).throttler.flushed ≡ half ∷ finish ∷ []
unfolding run push stop flush_event new_message_throttler
overtakes = refl

-- Stop comes between the two parts of the timer's flush: it delivers nothing, and the event comes after.
late :
    ((run (pushes half ∷ takes ∷ stops ∷ []) fresh).throttler.flushed ≡ [])
    × ((run (pushes half ∷ takes ∷ stops ∷ delivers 0 ∷ []) fresh).throttler.flushed ≡ half ∷ [])
unfolding run push stop flush_event new_message_throttler
late = (refl, refl)

push-delivered_example :
    IsOut half
      (run (delivers 0 ∷ []) (step takes (run (pushes call ∷ []) (step (pushes half) fresh))))
    × ((run
            (delivers 0 ∷ [])
            (step takes (run (pushes call ∷ []) (step (pushes half) fresh)))).taken
          ≡ []
        → In half
            (run
              (delivers 0 ∷ [])
              (step takes (run (pushes call ∷ []) (step (pushes half) fresh)))).throttler.flushed)
unfolding is_immediate new_message_throttler
push-delivered_example =
    push-delivered half fresh (pushes call ∷ []) takes (delivers 0 ∷ []) refl refl (refl, tt) tt
