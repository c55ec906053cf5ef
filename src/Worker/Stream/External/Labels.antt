-- ===== src/Worker/Stream/External/Labels.antt =====
-- worker/stream_worker.go: the task ids of the events that executeCline gives to its callback.
use Prim.Native.Char.{Char}
use agentfactory_gateway.Common.{
  String, ◌≡◌, ◌≢◌, refl, ◌⊎◌, inl, inr, Option, none, some, List, [], ◌∷◌, All, All-append,
  Option-cases, Bool-cases, arith,
}
use agentfactory_gateway.Common.Float.{Float}
use agentfactory_gateway.Protocol.{EventPayload}
use agentfactory_gateway.Throttler.{
  SlackEvent, is_immediate, MessageThrottler, push, stop, flush_now, fire, flush_event,
}
use agentfactory_gateway.Interaction.Effects.{TaskRequest}
use agentfactory_gateway.Worker.Cline.{
  Parsed, panics, skips, parses, tool_event, done_event, error_event, parse_cleaned, parse_line,
}
use agentfactory_gateway.Worker.Stream.{Call, event, failure, delivered}
use agentfactory_gateway.Worker.Stream.Dispatch.{context_task_id}
use agentfactory_gateway.Worker.Stream.External.{
  Print, prints, fires, ClineRun, Session, inject, operate, say, crash, feed, cline_start,
  cline_done, cline_error, cline_exit, cline_session, execute_cline,
}

module _ (F : Float) where
  abbrev pub HasTask : String → Call (SlackEvent (EventPayload F)) → Type 0
  HasTask id (event e) = (p : EventPayload F) × (e.payload ≡ some p) × (p.task_id ≡ id)
  HasTask id (failure msg) = ⊥

  parse_cleaned-payload :
      (lower : Char → Char) (elapsed cleaned : String) (e : SlackEvent (EventPayload F))
      → parse_cleaned F lower elapsed cleaned ≡ parses e
      → e.payload ≢ none
  unfolding parse_cleaned tool_event done_event error_event
  parse_cleaned-payload lower elapsed cleaned e h empty = ground arith

  -- The three results of parseLine, the last with a payload.
  abbrev Result : Parsed (SlackEvent (EventPayload F)) → Type 0
  Result r =
      (r ≡ panics)
      ⊎ (r ≡ skips)
      ⊎ ((e : SlackEvent (EventPayload F)) × (p : EventPayload F) × (r ≡ parses e)
          × (e.payload ≡ some p))

  Result-cases :
      (r : Parsed (SlackEvent (EventPayload F)))
      → ((e : SlackEvent (EventPayload F)) → r ≡ parses e → e.payload ≢ none)
      → Result r
  Result-cases panics h = inl refl
  Result-cases skips h = inr (inl refl)
  Result-cases (parses e) h = elim (Option-cases e.payload) [
    | inl empty ↦ absurd (h e refl empty)
    | inr (p, has) ↦ inr (inr (e, p, refl, has))
  ]

  parse_line-Result :
      (lower : Char → Char) (elapsed line : String) → Result (parse_line F lower elapsed line)
  unfolding parse_line
  parse_line-Result lower elapsed line =
      Result-cases (parse_line F lower elapsed line) (parse_cleaned-payload lower elapsed _)

  inject-HasTask :
      (id : String) (e : SlackEvent (EventPayload F)) (p : EventPayload F)
      → id ≢ ""
      → e.payload ≡ some p
      → HasTask id (event (inject F id e))
  unfolding inject
  inject-HasTask id e p named some_payload =
      (record p { task_id = id }, rw (some_payload, inject) (ground arith), refl)

  module _ (Q : Call (SlackEvent (EventPayload F)) → Type 0) where
    abbrev IsFine : Option (SlackEvent (EventPayload F)) → Type 0
    IsFine none = Unit
    IsFine (some e) = Q (event e)

    abbrev AllFine : MessageThrottler (EventPayload F) → Type 0
    AllFine t = All Q (delivered t.flushed) × IsFine t.buffer

    flush_event-fine :
        (b : Option (SlackEvent (EventPayload F))) → IsFine b → All Q (delivered (flush_event b []))
    unfolding flush_event delivered
    flush_event-fine none h = tt
    flush_event-fine (some e) h = (h, tt)

    push-fine :
        (e : SlackEvent (EventPayload F)) (t : MessageThrottler (EventPayload F))
        → Q (event e)
        → IsFine t.buffer
        → AllFine (push e (record t { flushed = [] }))
    unfolding push delivered
    push-fine e t q h = elim (Bool-cases (is_immediate e.type)) [
      | inl now ↦ rw (now, push) ((q, tt), h)
      | inr later ↦
          rw (later, push)
            (elim (Bool-cases t.stopped) [ inl over ↦ rw over (tt, h) | inr on ↦ rw on (tt, q) ])
    ]

    -- What has been delivered and what is buffered.
    abbrev pub Fine : Session F → Type 0
    Fine s = All Q s.calls × IsFine s.throttler.buffer

    operate-Fine :
        (f : MessageThrottler (EventPayload F) → MessageThrottler (EventPayload F)) (s : Session F)
        → Fine s
        → (let t = s.throttler in AllFine (f (record t { flushed = [] })))
        → Fine (operate F f s)
    unfolding operate
    operate-Fine f s h g = elim (Bool-cases s.crashed) [
      | inl dead ↦ rw (dead, operate) h
      | inr alive ↦
          let t = s.throttler in
          rw (alive, operate)
            (All-append Q s.calls (delivered (f (record t { flushed = [] })).flushed) h.0 g.0, g.1)
    ]

    fire-Fine : (s : Session F) → Fine s → Fine (operate F fire s)
    fire-Fine s h =
        operate-Fine fire s h (unfold fire in (flush_event-fine s.throttler.buffer h.1, tt))

    stop-Fine : (s : Session F) → Fine s → Fine (operate F stop s)
    stop-Fine s h =
        operate-Fine stop s h (unfold stop in (flush_event-fine s.throttler.buffer h.1, tt))

    flush_now-Fine : (s : Session F) → Fine s → Fine (operate F flush_now s)
    flush_now-Fine s h =
        operate-Fine flush_now s h
          (unfold flush_now in (flush_event-fine s.throttler.buffer h.1, tt))

    say-Fine :
        (e : SlackEvent (EventPayload F)) (s : Session F) → Q (event e) → Fine s → Fine (say F e s)
    unfolding say
    say-Fine e s q h = elim (Bool-cases s.crashed) [
      | inl dead ↦ rw (dead, say) h
      | inr alive ↦ rw (alive, say) (All-append Q s.calls (event e ∷ []) h.0 (q, tt), h.1)
    ]

    module _ (id : String)
        (all_injected : (e : SlackEvent (EventPayload F)) (p : EventPayload F)
          → e.payload ≡ some p
          → Q (event (inject F id e))) where
      feed-Fine :
          (lower : Char → Char) (ps : List Print) (s : Session F)
          → Fine s
          → Fine (feed F lower id ps s)
      unfolding feed
      feed-Fine lower [] s h = h
      feed-Fine lower (fires ∷ ps) s h = feed-Fine lower ps (operate F fire s) (fire-Fine s h)
      feed-Fine lower (prints elapsed line ∷ ps) s h = elim (parse_line-Result lower elapsed line) [
        | inl bad ↦ rw (bad, feed) (unfold crash in h)
        | inr (inl none_here) ↦ rw (none_here, feed) (feed-Fine lower ps s h)
        | inr (inr (e, p, found, has)) ↦
            rw (found, feed)
              (feed-Fine lower ps (operate F (push (inject F id e)) s) (
                operate-Fine (push (inject F id e)) s h
                  (push-fine (inject F id e) s.throttler (all_injected e p has) h.1)))
      ]

      cline_exit-Fine :
          (lower : Char → Char) (run : ClineRun) (s : Session F)
          → Fine s
          → Q (event (cline_done F id))
          → ((msg : String) → Q (event (cline_error F msg)))
          → Fine (cline_exit F lower id run s)
      unfolding cline_exit
      cline_exit-Fine lower run s h d e = elim (Option-cases run.wait_error) [
        | inr (msg, bad) ↦
            rw (bad, cline_exit)
              (feed-Fine lower run.late _ (
                stop-Fine _
                  (feed-Fine lower run.ended _ (say-Fine (cline_error F msg) s (e msg) h))))
        | inl well ↦
            rw (well, cline_exit)
              (feed-Fine lower run.late _ (
                stop-Fine _ (
                  feed-Fine lower run.ended _ (
                    say-Fine (cline_done F id) _ d
                      (feed-Fine lower run.between _ (flush_now-Fine s h))))))
      ]

  abbrev pub IsExit : Call (SlackEvent (EventPayload F)) → Type 0
  IsExit c = (msg : String) × (c ≡ event (cline_error F msg))

  fine :
      (lower : Char → Char) (run : ClineRun) (req : TaskRequest)
      → context_task_id req.context ≢ ""
      → All
          (λ c. HasTask (context_task_id req.context) c ⊎ IsExit c)
          (cline_session F lower run req).calls
  unfolding cline_session cline_start cline_done
  fine lower run req named =
      let id = context_task_id req.context in
      let injected =
        λ (e : SlackEvent (EventPayload F)) (p : EventPayload F) (h : e.payload ≡ some p).
          inl (inject-HasTask id e p named h) in
      (cline_exit-Fine (λ c. HasTask id c ⊎ IsExit c) id injected lower run _
        (feed-Fine (λ c. HasTask id c ⊎ IsExit c) id injected lower run.before _
          ((inl (_, refl, refl), tt), tt))
        (inl (_, refl, refl)) (λ msg. inr (msg, refl))).0

  -- Whatever Cline prints and whenever it is read, each event that executeCline gives to the callback
  -- names the task of the request, if that has an id, except for the error event for an exit with an
  -- error.
  pub execute_cline-HasTask :
      (lower : Char → Char) (run : ClineRun) (req : TaskRequest)
      → context_task_id req.context ≢ ""
      → All
          (λ c. HasTask (context_task_id req.context) c ⊎ IsExit c)
          (execute_cline F lower run req).0
  unfolding execute_cline
  execute_cline-HasTask lower run req named = elim (Option-cases run.setup) [
    | inr (e, bad) ↦ rw (bad, execute_cline) tt
    | inl well ↦ rw (well, execute_cline) (fine lower run req named)
  ]
