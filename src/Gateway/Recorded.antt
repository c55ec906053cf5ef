-- ===== src/Gateway/Recorded.antt =====
-- gateway/slack.go: what an event of a streaming task leaves in the store, and what it shows in Slack.
use agentfactory_gateway.Common.{
  ℕ, String, Option, none, some, List, [], ◌∷◌, length, ◌+◌, ◌≡◌, ◌≢◌, ◌∙◌, refl, ap, subst, arith,
  text_ne, Option-cases, inl, inr, length-append,
}
use agentfactory_gateway.Common.Float.{Float}
use agentfactory_gateway.Protocol.{EventPayload}
use agentfactory_gateway.Throttler.{
  SlackEvent, SlackEventType, start, progress, done, error, tool_call, paused, other,
}
use agentfactory_gateway.State.Json.{TaskRecord}
use agentfactory_gateway.State.Manager.{StateManager, HasStatus, IsLawful}
use agentfactory_gateway.Recovery.{post, update}
use agentfactory_gateway.Render.Kit.{Block}
use agentfactory_gateway.Render.Card.{build_task_card}
use agentfactory_gateway.Gateway.ProgressCache.{should_persist}
use agentfactory_gateway.Gateway.Stream.{
  TaskState, Source, Answers, Gateway, task_id_of, full_record, store_record, post_message,
  update_message, with_queue, touch, on_type, on_event, queue_start, touch_record,
}

-- The status that an event of a type stores.
abbrev pub stored_status : SlackEventType → Option String
stored_status start = some "running"
stored_status paused = some "paused"
stored_status done = some "done"
stored_status error = some "error"
stored_status progress = none
stored_status tool_call = none
stored_status (other _) = none

-- Whether an event of a type changes what Slack shows.
abbrev pub shown : SlackEventType → ℕ
shown tool_call = 0
shown (other _) = 0
shown _ = 1

module _ (F : Float) (M : StateManager) where
  -- The store has the status for the task.
  abbrev pub Stores : Option M.State → String → String → Type 0
  Stores store id status = (s : M.State) × (store ≡ some s) × HasStatus M s id status

  post_store :
      (a : Answers) (blocks : List Block) (g : Gateway F M) (ses : TaskState)
      → (post_message F M a blocks (g, ses)).0.store ≡ g.store
  unfolding post_message
  post_store a blocks g ses = refl

  update_store :
      (a : Answers) (blocks : List Block) (g : Gateway F M) (ses : TaskState)
      → (update_message F M a blocks (g, ses)).0.store ≡ g.store
  unfolding update_message post_message
  update_store a blocks g ses = ground arith

  module _ (L : IsLawful M)
      (ok : (now : ℕ) (rec : TaskRecord) (s : M.State) → (M.set now rec s).1 ≡ none) where
    store_record-Stores :
        (a : Answers) (rec : TaskRecord) (g : Gateway F M) (s : M.State)
        → g.store ≡ some s
        → rec.task_id ≢ ""
        → rec.status ≢ ""
        → Stores (store_record F M a rec g).store rec.task_id rec.status
    unfolding store_record
    store_record-Stores a rec g s there named given =
        let stored : (store_record F M a rec g).store ≡ some (M.set a.now rec s).0 = ground arith in
        ((M.set a.now rec s).0, stored, L.get-set a.now rec s given (ok a.now rec s))

    updated_store :
        (a : Answers) (src : Source) (blocks : List Block) (id status' status : String)
        (g : Gateway F M) (ses : TaskState) (s : M.State)
        → status' ≡ status
        → g.store ≡ some s
        → id ≢ ""
        → status' ≢ ""
        → Stores
            (store_record F M a
              (full_record src (update_message F M a blocks (g, ses)).1 id status')
              (update_message F M a blocks (g, ses)).0).store
            id
            status
    updated_store a src blocks id status' status g ses s st there named given =
        let (g', ses') = update_message F M a blocks (g, ses) in
        let rec = full_record src ses' id status' in
        subst (λ (x : String). Stores (store_record F M a rec g').store id x) st
          (store_record-Stores a rec g' s (update_store a blocks g ses ∙ there) named given)

    on_type-Stores :
        (cooldown : ℕ) (type : SlackEventType) (a : Answers) (src : Source) (blocks : List Block)
        (id status : String) (g : Gateway F M) (ses : TaskState) (s : M.State)
        → stored_status type ≡ some status
        → g.store ≡ some s
        → id ≢ ""
        → Stores (on_type F M cooldown type a src blocks id (g, ses)).0.0.store id status
    unfolding on_type with_queue
    on_type-Stores cooldown start a src blocks id status g ses s e there named =
        let st : ◌≡◌ {A = String} "running" status = cc in
        let (g', ses') = post_message F M a blocks (g, ses) in
        let g'' : Gateway F M = record g' { world = queue_start a src g'.world } in
        let rec = full_record src ses' id "running" in
        subst (λ (x : String). Stores (store_record F M a rec g'').store id x) st
          (store_record-Stores a rec g'' s (post_store a blocks g ses ∙ there) named
            (text_ne "running" "" refl))
    on_type-Stores cooldown paused a src blocks id status g ses s e there named =
        let st : ◌≡◌ {A = String} "paused" status = cc in
        updated_store a src blocks id "paused" status g ses s st there named
          (text_ne "paused" "" refl)
    on_type-Stores cooldown done a src blocks id status g ses s e there named =
        let st : ◌≡◌ {A = String} "done" status = cc in
        updated_store a src blocks id "done" status g ses s st there named (text_ne "done" "" refl)
    on_type-Stores cooldown error a src blocks id status g ses s e there named =
        let st : ◌≡◌ {A = String} "error" status = cc in
        updated_store a src blocks id "error" status g ses s st there named
          (text_ne "error" "" refl)
    on_type-Stores cooldown progress a src blocks id status g ses s e there named =
        absurd (ground arith)
    on_type-Stores cooldown tool_call a src blocks id status g ses s e there named =
        absurd (ground arith)
    on_type-Stores cooldown (other _) a src blocks id status g ses s e there named =
        absurd (ground arith)

    -- With a store that does what its clients rely on and no Set that fails: when a start, paused, done
    -- or error event with a task id has a card, the callback, for a task from the queue and for a
    -- message alike, leaves the status running, paused, done or error under that id.
    pub on_event-Stores :
        (cooldown : ℕ) (a : Answers) (src : Source) (event : SlackEvent (EventPayload F))
        (g : Gateway F M) (ses : TaskState) (s : M.State) (status : String) (block : Block)
        (blocks : List Block)
        → build_task_card F (some event) (some ses.task_data) ≡ block ∷ blocks
        → stored_status event.type ≡ some status
        → g.store ≡ some s
        → task_id_of event.payload ≢ ""
        → Stores
            (on_event F M cooldown a src event (g, ses)).0.0.store
            (task_id_of event.payload)
            status
    unfolding on_event
    on_event-Stores cooldown a src event g ses s status block blocks card e there named =
        rw (card, on_event)
          (on_type-Stores cooldown event.type a src (block ∷ blocks) (task_id_of event.payload)
            status g _ s e there named)

  length-post :
      (a : Answers) (blocks : List Block) (g : Gateway F M) (ses : TaskState)
      → length (post_message F M a blocks (g, ses)).0.calls ≡ length g.calls + 1
  unfolding post_message
  length-post a blocks g ses =
      omega (arith, length-append {0} g.calls (post ses.channel_id blocks ∷ []))

  length-update :
      (a : Answers) (blocks : List Block) (g : Gateway F M) (ses : TaskState)
      → length (update_message F M a blocks (g, ses)).0.calls ≡ length g.calls + 1
  unfolding update_message
  length-update a blocks g ses = ground (
    arith,
    length-post a blocks g ses,
    length-append g.calls (update ses.channel_id ses.ts blocks ∷ []),
  )

  store_record-calls :
      (a : Answers) (rec : TaskRecord) (g : Gateway F M)
      → (store_record F M a rec g).calls ≡ g.calls
  unfolding store_record
  store_record-calls a rec g = ground arith

  touch-calls :
      (cooldown : ℕ) (a : Answers) (id : String) (g : Gateway F M)
      → (touch F M cooldown a id g).calls ≡ g.calls
  unfolding touch
  touch-calls cooldown a id g = elim (Option-cases g.store) [
    | inl e ↦ rw (e, touch) refl
    | inr (s, e) ↦
        rw (e, touch)
          (ground (
            arith,
            store_record-calls a (touch_record id)
                (record g { cache = (should_persist a.now id cooldown g.cache).0 }),
          ))
  ]

  on_type-calls :
      (cooldown : ℕ) (type : SlackEventType) (a : Answers) (src : Source) (blocks : List Block)
      (id : String) (g : Gateway F M) (ses : TaskState)
      → length (on_type F M cooldown type a src blocks id (g, ses)).0.0.calls
        ≡ length g.calls + shown type
  unfolding on_type with_queue
  on_type-calls cooldown start a src blocks id g ses =
      ap length (store_record-calls a _ _) ∙ length-post a blocks g ses
  on_type-calls cooldown progress a src blocks id g ses =
      ap length (touch-calls cooldown a id _) ∙ length-update a blocks g ses
  on_type-calls cooldown paused a src blocks id g ses =
      ap length (store_record-calls a _ _) ∙ length-update a blocks g ses
  on_type-calls cooldown done a src blocks id g ses =
      ap length (store_record-calls a _ _) ∙ length-update a blocks g ses
  on_type-calls cooldown error a src blocks id g ses =
      ap length (store_record-calls a _ _) ∙ length-update a blocks g ses
  on_type-calls cooldown tool_call a src blocks id g ses = omega arith
  on_type-calls cooldown (other _) a src blocks id g ses = omega arith

  -- An event that has a card makes exactly one call that posts or updates a message, except for a tool
  -- call: its card is built and shown nowhere.
  pub on_event-shown :
      (cooldown : ℕ) (a : Answers) (src : Source) (event : SlackEvent (EventPayload F))
      (g : Gateway F M) (ses : TaskState) (block : Block) (blocks : List Block)
      → build_task_card F (some event) (some ses.task_data) ≡ block ∷ blocks
      → length (on_event F M cooldown a src event (g, ses)).0.0.calls
        ≡ length g.calls + shown event.type
  unfolding on_event
  on_event-shown cooldown a src event g ses block blocks card =
      rw (card, on_event)
        (on_type-calls cooldown event.type a src (block ∷ blocks) (task_id_of event.payload) g _)
