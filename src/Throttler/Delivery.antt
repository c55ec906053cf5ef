-- ===== src/Throttler/Delivery.antt =====
-- worker/throttler.go: what is delivered, and when, where several goroutines use a throttler.
use agentfactory_gateway.Common.{
  ℕ, zero, suc, ◌≡◌, true, false, ◌⊎◌, inl, inr, some, List, [], ◌∷◌, All, arith, subst,
}
use agentfactory_gateway.Throttler.{
  SlackEvent, is_immediate, push, stop, take_buffer, deliver, flush_event, Shared, nth, without_nth,
  Action, pushes, stops, takes, delivers, step, run,
}

module _ {P : Type 0} where
  abbrev pub In : SlackEvent P → List (SlackEvent P) → Type 0
  In e [] = ⊥
  In e (x ∷ xs) = (x ≡ e) ⊎ In e xs

  -- The action is no push of an event that would be buffered.
  abbrev pub IsQuiet : Action P → Type 0
  IsQuiet (pushes e) = is_immediate e.type ≡ true
  IsQuiet _ = Unit

  -- The action empties the buffer.
  abbrev pub IsDrain : Action P → Type 0
  IsDrain stops = Unit
  IsDrain takes = Unit
  IsDrain _ = ⊥

  -- The event was delivered, or a goroutine has it in its hands.
  abbrev pub IsOut : SlackEvent P → Shared P → Type 0
  IsOut e s = In e s.throttler.flushed ⊎ In e s.taken

  abbrev IsHeld : SlackEvent P → Shared P → Type 0
  IsHeld e s = (s.throttler.buffer ≡ some e) ⊎ IsOut e s

  nth-In :
      (e : SlackEvent P) (n : ℕ) (es log : List (SlackEvent P))
      → In e es
      → In e (flush_event (nth n es) log) ⊎ In e (without_nth n es)
  unfolding flush_event
  nth-In e zero (x ∷ es) log (inl same) = inl (inl same)
  nth-In e zero (x ∷ es) log (inr m) = inr m
  nth-In e (suc n) (x ∷ es) log (inl same) = inr (inl same)
  nth-In e (suc n) (x ∷ es) log (inr m) = elim (nth-In e n es log m) [
    | inl out ↦ inl out
    | inr left ↦ inr (inr left)
  ]
  nth-In e n [] log m = absurd m

  flush_event-In :
      (e : SlackEvent P) (n : ℕ) (es log : List (SlackEvent P))
      → In e log
      → In e (flush_event (nth n es) log)
  unfolding flush_event
  flush_event-In e n [] log m = m
  flush_event-In e zero (x ∷ es) log m = inr m
  flush_event-In e (suc n) (x ∷ es) log m = flush_event-In e n es log m

  step-IsOut : (e : SlackEvent P) (a : Action P) (s : Shared P) → IsOut e s → IsOut e (step a s)
  unfolding step push stop take_buffer deliver flush_event
  step-IsOut e (pushes x) s h = ground arith
  step-IsOut e stops s h = ground arith
  step-IsOut e takes s h = ground arith
  step-IsOut e (delivers n) s (inl m) = inl (flush_event-In e n s.taken s.throttler.flushed m)
  step-IsOut e (delivers n) s (inr m) = nth-In e n s.taken s.throttler.flushed m

  step-IsHeld :
      (e : SlackEvent P) (a : Action P) (s : Shared P)
      → IsQuiet a
      → IsHeld e s
      → IsHeld e (step a s)
  unfolding step push stop take_buffer deliver flush_event
  step-IsHeld e a s q (inr h) = inr (step-IsOut e a s h)
  step-IsHeld e (pushes x) s q (inl h) = ground arith
  step-IsHeld e stops s q (inl h) = ground arith
  step-IsHeld e takes s q (inl h) = ground arith
  step-IsHeld e (delivers n) s q (inl h) = inl h

  run-IsHeld :
      (e : SlackEvent P) (acts : List (Action P)) (s : Shared P)
      → All IsQuiet acts
      → IsHeld e s
      → IsHeld e (run acts s)
  unfolding run
  run-IsHeld e [] s q h = h
  run-IsHeld e (a ∷ acts) s q h = run-IsHeld e acts (step a s) q.1 (step-IsHeld e a s q.0 h)

  run-IsOut :
      (e : SlackEvent P) (acts : List (Action P)) (s : Shared P) → IsOut e s → IsOut e (run acts s)
  unfolding run
  run-IsOut e [] s h = h
  run-IsOut e (a ∷ acts) s h = run-IsOut e acts (step a s) (step-IsOut e a s h)

  drained :
      (e : SlackEvent P) (a : Action P) (s : Shared P) → IsDrain a → IsHeld e s → IsOut e (step a s)
  unfolding step stop take_buffer flush_event
  drained e a s d (inr h) = step-IsOut e a s h
  drained e (pushes x) s d (inl h) = absurd d
  drained e (delivers n) s d (inl h) = absurd d
  drained e stops s d (inl h) = ground arith
  drained e takes s d (inl h) = ground arith

  empty_handed :
      (e : SlackEvent P) (s : Shared P) → s.taken ≡ [] → IsOut e s → In e s.throttler.flushed
  empty_handed e s none_left (inl m) = m
  empty_handed e s none_left (inr m) = absurd (subst (In e) none_left m)

  -- A bufferable event that is pushed before Stop, and that no later bufferable event replaces before
  -- Stop, Flush or the timer's flush takes the buffer, is not lost, whatever the goroutines do before
  -- that and after: once no goroutine that has taken an event still has to call flushFn, it has been
  -- delivered, and before that it is delivered or in the hands of such a goroutine. Stop may return
  -- before that call.
  pub push-delivered :
      (e : SlackEvent P) (s : Shared P) (acts : List (Action P)) (drain : Action P)
      (after : List (Action P))
      → is_immediate e.type ≡ false
      → s.throttler.stopped ≡ false
      → All IsQuiet acts
      → IsDrain drain
      → IsOut e (run after (step drain (run acts (step (pushes e) s))))
        × ((run after (step drain (run acts (step (pushes e) s)))).taken ≡ []
            → In e (run after (step drain (run acts (step (pushes e) s)))).throttler.flushed)
  push-delivered e s acts drain after buffered alive quiet drains =
      let pushed : IsHeld e (step (pushes e) s) = inl (unfold step push in ground arith) in
      let out = run-IsOut e after (step drain (run acts (step (pushes e) s))) (
        drained e drain (run acts (step (pushes e) s)) drains
          (run-IsHeld e acts (step (pushes e) s) quiet pushed)) in
      (
        out,
        λ none_left.
            empty_handed e (run after (step drain (run acts (step (pushes e) s)))) none_left out,
      )
