-- ===== src/Gateway/Stale.antt =====
-- gateway/slack.go: a progress event that comes after the done event of its task. The throttler of the
-- stream worker can deliver them in this order.
use agentfactory_gateway.Common.{
  ℕ, String, true, none, some, List, ◌∷◌, ◌≡◌, ◌≢◌, ◌∙◌, refl, ap, arith, text_ne, Bool-cases, inl,
  inr, ◌==◌,
}
use agentfactory_gateway.Common.Dict.{Dict}
use agentfactory_gateway.Common.Float.{Float}
use agentfactory_gateway.Protocol.{EventPayload}
use agentfactory_gateway.Throttler.{SlackEvent, progress, done}
use agentfactory_gateway.State.Json.{TaskRecord}
use agentfactory_gateway.State.Manager.{StateManager, IsLawful}
use agentfactory_gateway.Render.Kit.{Block}
use agentfactory_gateway.Render.Card.{build_task_card}
use agentfactory_gateway.Gateway.ProgressCache.{should_persist}
use agentfactory_gateway.Gateway.Stream.{
  TaskState, Source, Answers, Gateway, task_id_of, full_record, store_record, post_message,
  update_message, with_queue, touch, on_type, on_event, touch_record,
}
use agentfactory_gateway.Gateway.Recorded.{Stores}

module _ (F : Float) (M : StateManager) where
  update_keeps :
      (a : Answers) (blocks : List Block) (gs : Gateway F M × TaskState)
      → ((update_message F M a blocks gs).0.store ≡ gs.0.store)
        × ((update_message F M a blocks gs).0.cache ≡ gs.0.cache)
  unfolding update_message post_message
  update_keeps a blocks (g, ses) = (ground arith, ground arith)

  store_record-keeps :
      (a : Answers) (rec : TaskRecord) (g : Gateway F M) (s : M.State)
      → g.store ≡ some s
      → (t : M.State) × ((store_record F M a rec g).store ≡ some t)
        × ((store_record F M a rec g).cache ≡ g.cache)
  unfolding store_record
  store_record-keeps a rec g s there = elim (Bool-cases (rec.task_id == "")) [
    | inl empty ↦ (s, ground arith, ground arith)
    | inr named ↦ ((M.set a.now rec s).0, ground arith, ground arith)
  ]

  -- A done event leaves a store and the cache as it was.
  on_done-keeps :
      (cooldown : ℕ) (a : Answers) (src : Source) (blocks : List Block) (id : String)
      (gs : Gateway F M × TaskState) (s : M.State)
      → gs.0.store ≡ some s
      → (t : M.State) × ((on_type F M cooldown done a src blocks id gs).0.0.store ≡ some t)
        × ((on_type F M cooldown done a src blocks id gs).0.0.cache ≡ gs.0.cache)
  unfolding on_type with_queue
  on_done-keeps cooldown a src blocks id (g, ses) s there =
      let (g', ses') = update_message F M a blocks (g, ses) in
      let (same, kept) = update_keeps a blocks (g, ses) in
      let (t, stored, cached) =
        store_record-keeps a (full_record src ses' id "done") g' s (same ∙ there) in
      (t, stored, cached ∙ kept)

  on_done_event-keeps :
      (cooldown : ℕ) (a : Answers) (src : Source) (d : SlackEvent (EventPayload F))
      (g : Gateway F M) (ses : TaskState) (s : M.State) (block : Block) (blocks : List Block)
      → d.type ≡ done
      → build_task_card F (some d) (some ses.task_data) ≡ block ∷ blocks
      → g.store ≡ some s
      → (t : M.State) × ((on_event F M cooldown a src d (g, ses)).0.0.store ≡ some t)
        × ((on_event F M cooldown a src d (g, ses)).0.0.cache ≡ g.cache)
  unfolding on_event
  on_done_event-keeps cooldown a src d g ses s block blocks type card there =
      rw (card, on_event)
        (rw type
          (on_done-keeps cooldown a src (block ∷ blocks) (task_id_of d.payload) (g, _) s there))

  module _ (L : IsLawful M)
      (ok : (now : ℕ) (rec : TaskRecord) (s : M.State) → (M.set now rec s).1 ≡ none) where
    touch-Stores :
        (cooldown : ℕ) (a : Answers) (id : String) (g : Gateway F M) (s : M.State)
        → g.store ≡ some s
        → id ≢ ""
        → (should_persist a.now id cooldown g.cache).1 ≡ true
        → Stores F M (touch F M cooldown a id g).store id "running"
    unfolding touch store_record
    touch-Stores cooldown a id g s there named due =
        let rec = touch_record id in
        let stored : (touch F M cooldown a id g).store ≡ some (M.set a.now rec s).0 =
          ground arith in
        (
          (M.set a.now rec s).0,
          stored,
          L.get-set a.now rec s (text_ne "running" "" refl) (ok a.now rec s),
        )

    on_progress-Stores :
        (cooldown : ℕ) (a : Answers) (src : Source) (blocks : List Block) (id : String)
        (gs : Gateway F M × TaskState) (s : M.State)
        → gs.0.store ≡ some s
        → id ≢ ""
        → (should_persist a.now id cooldown gs.0.cache).1 ≡ true
        → Stores F M (on_type F M cooldown progress a src blocks id gs).0.0.store id "running"
    unfolding on_type
    on_progress-Stores cooldown a src blocks id (g, ses) s there named due =
        let (same, kept) = update_keeps a blocks (g, ses) in
        touch-Stores cooldown a id (update_message F M a blocks (g, ses)).0 s (same ∙ there) named
          (ap (λ (c : Dict ℕ). (should_persist a.now id cooldown c).1) kept ∙ due)

    on_progress_event-Stores :
        (cooldown : ℕ) (a : Answers) (src : Source) (e : SlackEvent (EventPayload F))
        (g : Gateway F M) (ses : TaskState) (s : M.State) (block : Block) (blocks : List Block)
        → e.type ≡ progress
        → build_task_card F (some e) (some ses.task_data) ≡ block ∷ blocks
        → g.store ≡ some s
        → task_id_of e.payload ≢ ""
        → (should_persist a.now (task_id_of e.payload) cooldown g.cache).1 ≡ true
        → Stores F M
            (on_event F M cooldown a src e (g, ses)).0.0.store
            (task_id_of e.payload)
            "running"
    unfolding on_event
    on_progress_event-Stores cooldown a src e g ses s block blocks type card there named due =
        rw (card, on_event)
          (rw type (
            on_progress-Stores cooldown a src (block ∷ blocks) (task_id_of e.payload) (g, _) s there
              named due))

    -- With a store that does what its clients rely on and no Set that fails: after the done event of a
    -- task, a progress event of it that has a card, and whose write is due, leaves the status running.
    pub done_then_progress-Stores :
        (cooldown : ℕ) (a b : Answers) (src : Source) (d e : SlackEvent (EventPayload F))
        (g : Gateway F M) (ses : TaskState) (s : M.State) (block block' : Block)
        (blocks blocks' : List Block)
        → d.type ≡ done
        → e.type ≡ progress
        → build_task_card F (some d) (some ses.task_data) ≡ block ∷ blocks
        → build_task_card F (some e) (some (on_event F M cooldown a src d (g, ses)).0.1.task_data)
          ≡ block' ∷ blocks'
        → g.store ≡ some s
        → task_id_of e.payload ≢ ""
        → (should_persist b.now (task_id_of e.payload) cooldown g.cache).1 ≡ true
        → Stores F M
            (on_event F M cooldown b src e (on_event F M cooldown a src d (g, ses)).0).0.0.store
            (task_id_of e.payload)
            "running"
    done_then_progress-Stores cooldown a b src d e g ses s block block' blocks blocks' dt et dc ec
          there named due =
        let (g', ses') = (on_event F M cooldown a src d (g, ses)).0 in
        let (t, stored, kept) =
          on_done_event-keeps cooldown a src d g ses s block blocks dt dc there in
        on_progress_event-Stores cooldown b src e g' ses' t block' blocks' et ec stored named (
          ap (λ (c : Dict ℕ). (should_persist b.now (task_id_of e.payload) cooldown c).1) kept
          ∙ due)
