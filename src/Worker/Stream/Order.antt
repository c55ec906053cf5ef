-- ===== src/Worker/Stream/Order.antt =====
-- worker/stream_worker.go: which events of a process reach the callback of executePython, and in which
-- order.
use mathlib.Core.List.{append_assoc, append-nil}
use agentfactory_gateway.Common.{
  String, ◌≡◌, refl, ap, ◌∙◌, sym, Bool, true, false, Option, none, some, List, [], ◌∷◌, ◌++◌,
  if◌then◌else◌, ◌==◌, arith, inl, inr, Bool-cases, Option-cases,
}
use agentfactory_gateway.Throttler.{
  SlackEvent, is_immediate, MessageThrottler, new_message_throttler, push, stop, flush_now, fire,
  flush_event,
}
use agentfactory_gateway.Worker.Stream.{
  StreamWorker, Call, event, failure, RunError, Tick, reads, fires, stops, expires, verdict,
  delivered, Reading, Process, accept, read_lines, wait_for, scanned, finish, execute_python,
}

module _ {P : Type 0} where
  -- The immediate events of a list of calls.
  abbrev pub immediates : List (Call (SlackEvent P)) → List (SlackEvent P)
  immediates [] = []
  immediates (event e ∷ calls) =
      let rest = immediates calls in if is_immediate e.type then e ∷ rest else rest
  immediates (failure msg ∷ calls) = immediates calls

  immediates-append :
      (a b : List (Call (SlackEvent P))) → immediates (a ++ b) ≡ immediates a ++ immediates b
  immediates-append [] b = refl
  immediates-append (event e ∷ a) b = ground (arith, immediates-append a b)
  immediates-append (failure msg ∷ a) b = immediates-append a b

  -- What a throttler has delivered of the immediate events.
  abbrev sent : MessageThrottler P → List (SlackEvent P)
  sent t = immediates (delivered t.flushed)

  abbrev IsHeldBack : Option (SlackEvent P) → Type 0
  IsHeldBack none = Unit
  IsHeldBack (some e) = is_immediate e.type ≡ false

  sent-flush :
      (b : Option (SlackEvent P)) (log : List (SlackEvent P))
      → IsHeldBack b
      → immediates (delivered (flush_event b log)) ≡ immediates (delivered log)
  unfolding flush_event delivered
  sent-flush none log h = refl
  sent-flush (some e) log h =
      immediates-append (delivered log) (event e ∷ [])
      ∙ (rw h (append-nil (immediates (delivered log))))

  kept :
      (e : SlackEvent P) (t : MessageThrottler P)
      → immediates
          (delivered (if t.stopped then t else record t { buffer = some e; timer = true }).flushed)
        ≡ sent t ++ []
  kept e t = elim (Bool-cases t.stopped) [
    | inl over ↦ rw over (sym (append-nil (sent t)))
    | inr on ↦ rw on (sym (append-nil (sent t)))
  ]

  sent-push :
      (e : SlackEvent P) (t : MessageThrottler P)
      → sent (push e t) ≡ sent t ++ immediates (event e ∷ [])
  unfolding push delivered
  sent-push e t = elim (Bool-cases (is_immediate e.type)) [
    | inl now ↦
        rw (now, push) (immediates-append (delivered t.flushed) (event e ∷ []) ∙ (rw now refl))
    | inr later ↦ rw (later, push) (kept e t)
  ]

  fire-sent : (t : MessageThrottler P) → IsHeldBack t.buffer → sent (fire t) ≡ sent t
  unfolding fire
  fire-sent t h = sent-flush t.buffer t.flushed h

  push-IsHeldBack :
      (e : SlackEvent P) (t : MessageThrottler P)
      → IsHeldBack t.buffer
      → IsHeldBack (push e t).buffer
  unfolding push
  push-IsHeldBack e t h = ground arith

  abbrev step_of : Option (SlackEvent P) → List (Call (SlackEvent P))
  step_of none = []
  step_of (some e) = event e ∷ []

  abbrev push_option : Option (SlackEvent P) → MessageThrottler P → MessageThrottler P
  push_option none t = t
  push_option (some e) t = push e t

  sent-push_option :
      (o : Option (SlackEvent P)) (t : MessageThrottler P)
      → sent (push_option o t) ≡ sent t ++ immediates (step_of o)
  sent-push_option none t = sym (append-nil (sent t))
  sent-push_option (some e) t = sent-push e t

  push_option-IsHeldBack :
      (o : Option (SlackEvent P)) (t : MessageThrottler P)
      → IsHeldBack t.buffer
      → IsHeldBack (push_option o t).buffer
  push_option-IsHeldBack none t h = h
  push_option-IsHeldBack (some e) t h = push-IsHeldBack e t h

  module _ (decode : String → Option (SlackEvent P)) where
    -- The event of a line, if it has one.
    abbrev pub event_of : String → Option (SlackEvent P)
    event_of line = if line == "" then none else decode line

    -- The events of the lines that are read, in order, by a worker that was or was not stopped.
    unfoldable pub heard : List Tick → Bool → Option String → List (Call (SlackEvent P))
    unfolding verdict
    heard [] stopped expired = []
    heard (reads pick line ∷ ticks) stopped expired = elim (verdict pick stopped expired) [
      | some e ↦ []
      | none ↦ step_of (event_of line) ++ heard ticks stopped expired
    ]
    heard (fires ∷ ticks) stopped expired = heard ticks stopped expired
    heard (stops ∷ ticks) stopped expired = heard ticks true expired
    heard (expires e ∷ ticks) stopped expired = heard ticks stopped (some e)

    accept_lem :
        (line : String) (t : MessageThrottler P)
        → accept decode line t ≡ push_option (event_of line) t
    unfolding accept
    accept_lem line t = elim (Bool-cases (line == "")) [
      | inl blank ↦ rw (blank, accept) refl
      | inr full ↦ rw (full, accept) (pushed (decode line))
    ]
      where
        pushed :
            (o : Option (SlackEvent P))
            → (elim o as (λ x. MessageThrottler P) [ none ↦ t | some e ↦ push e t ])
              ≡ push_option o t
        pushed none = refl
        pushed (some e) = refl

    read_lines-sent :
        (ticks : List Tick) (r : Reading P)
        → IsHeldBack r.throttler.buffer
        → (sent (read_lines decode ticks r).0.throttler
            ≡ sent r.throttler ++ immediates (heard ticks r.stopped r.expired))
          × IsHeldBack (read_lines decode ticks r).0.throttler.buffer
    unfolding read_lines heard
    read_lines-sent [] r h = (sym (append-nil (sent r.throttler)), h)
    read_lines-sent (reads pick line ∷ ticks) r h =
        elim (Option-cases (verdict pick r.stopped r.expired)) [
          | inr (e, over) ↦ rw (over, read_lines, heard) (sym (append-nil (sent r.throttler)), h)
          | inl on ↦
              let o = event_of line in
              let t = push_option o r.throttler in
              let (e, k) =
                read_lines-sent ticks (record r { throttler = t })
                  (push_option-IsHeldBack o r.throttler h) in
              rw (on, read_lines, heard)
                (rw (accept_lem line r.throttler) (
                  e
                      ∙ (ap (λ l. l ++ immediates (heard ticks r.stopped r.expired))
                            (sent-push_option o r.throttler)
                          ∙ append_assoc (sent r.throttler) (immediates (step_of o))
                              (immediates (heard ticks r.stopped r.expired))
                          ∙ ap (λ l. sent r.throttler ++ l)
                              (sym
                                (immediates-append (step_of o) (heard ticks r.stopped r.expired)))),
                  k,
                ))
        ]
    read_lines-sent (fires ∷ ticks) r h =
        let (e, k) =
          read_lines-sent ticks (record r { throttler = fire r.throttler }) (unfold fire in tt) in
        (
          e ∙ ap (λ l. l ++ immediates (heard ticks r.stopped r.expired)) (fire-sent r.throttler h),
          k,
        )
    read_lines-sent (stops ∷ ticks) r h = read_lines-sent ticks (record r { stopped = true }) h
    read_lines-sent (expires e ∷ ticks) r h =
        read_lines-sent ticks (record r { expired = some e }) h

  stop-sent : (t : MessageThrottler P) → IsHeldBack t.buffer → sent (stop t) ≡ sent t
  unfolding stop
  stop-sent t h = sent-flush t.buffer t.flushed h

  flush_now-sent :
      (t : MessageThrottler P) → IsHeldBack t.buffer → sent (stop (flush_now t)) ≡ sent t
  unfolding stop flush_now flush_event
  flush_now-sent t h = sent-flush t.buffer t.flushed h

  wait_for-sent :
      (ticks : List Tick) (r : Reading P)
      → IsHeldBack r.throttler.buffer
      → (sent (wait_for ticks r).throttler ≡ sent r.throttler)
        × IsHeldBack (wait_for ticks r).throttler.buffer
  unfolding wait_for
  wait_for-sent [] r h = (refl, h)
  wait_for-sent (reads pick line ∷ ticks) r h = wait_for-sent ticks r h
  wait_for-sent (fires ∷ ticks) r h =
      let (e, k) =
        wait_for-sent ticks (record r { throttler = fire r.throttler }) (unfold fire in tt) in
      (e ∙ fire-sent r.throttler h, k)
  wait_for-sent (stops ∷ ticks) r h = wait_for-sent ticks (record r { stopped = true }) h
  wait_for-sent (expires e ∷ ticks) r h = wait_for-sent ticks (record r { expired = some e }) h

  scanned-immediates : (msg : Option String) → immediates (scanned msg) ≡ []
  unfolding scanned
  scanned-immediates none = refl
  scanned-immediates (some e) = refl

  closing :
      (calls : List (Call (SlackEvent P))) (msg : Option String) (t : MessageThrottler P)
      → sent t ≡ []
      → immediates ((calls ++ scanned msg) ++ delivered t.flushed) ≡ immediates calls
  closing calls msg t e =
      immediates-append (calls ++ scanned msg) (delivered t.flushed)
      ∙ ap (λ l. immediates (calls ++ scanned msg) ++ l) e
      ∙ append-nil (immediates (calls ++ scanned msg))
      ∙ immediates-append calls (scanned msg)
      ∙ ap (λ l. immediates calls ++ l) (scanned-immediates msg)
      ∙ append-nil (immediates calls)

  finish-sent :
      (p : Process) (r : Reading P) (err : Option RunError)
      → IsHeldBack r.throttler.buffer
      → immediates (finish p (r, err)).0 ≡ sent r.throttler
  unfolding finish
  finish-sent p r (some e) h = stop-sent r.throttler h
  finish-sent p r none h =
      let t = r.throttler in
      let (e, k) = wait_for-sent p.waiting (record r { throttler = record t { flushed = [] } }) h in
      let r' = wait_for p.waiting (record r { throttler = record t { flushed = [] } }) in
      let nothing : sent (record t { flushed = [] }) ≡ [] = unfold delivered in refl in
      elim (Option-cases p.wait_error) [
        | inl clean ↦
            rw (clean, finish)
              (closing (delivered t.flushed) p.scan_error (stop (flush_now r'.throttler))
                (flush_now-sent r'.throttler k ∙ (e ∙ nothing)))
        | inr (msg, bad) ↦
            rw (bad, finish)
              (closing (delivered t.flushed) p.scan_error (stop r'.throttler)
                (stop-sent r'.throttler k ∙ (e ∙ nothing)))
      ]

  -- Where the process can be started, the callback gets the immediate events (start, done, error and
  -- tool_call) of the lines that are read, each once and in their order, however the process, the
  -- timer, Stop and the context interleave and end.
  pub execute_python-immediate :
      (decode : String → Option (SlackEvent P)) (w : StreamWorker) (p : Process)
      → p.setup ≡ none
      → immediates (execute_python decode w p).0 ≡ immediates (heard decode p.ticks w.stopped none)
  unfolding execute_python
  execute_python-immediate decode w p started =
      let r : Reading P = record {
        throttler = new_message_throttler;
        stopped = w.stopped;
        expired = none;
      } in
      let (e, k) = read_lines-sent decode p.ticks r (unfold new_message_throttler in tt) in
      rw (started, execute_python)
        (finish-sent p (read_lines decode p.ticks r).0 (read_lines decode p.ticks r).1 k
          ∙ (e ∙ refl))
