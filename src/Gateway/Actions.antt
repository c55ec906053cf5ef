-- ===== src/Gateway/Actions.antt =====
-- gateway/slack.go: what the buttons of a finished task do, and what Stop leaves in the store.
use agentfactory_gateway.Common.{
  ℕ, String, true, false, Option, none, some, List, [], ◌∷◌, ◌++◌, ◌/=◌, ◌≡◌, ◌∙◌, refl, sym, subst,
  All, str_dec, text_ne, inl, inr, ap, Bool-cases, arith,
}
use agentfactory_gateway.Common.Text.{concat}
use agentfactory_gateway.Common.Float.{Float}
use agentfactory_gateway.Protocol.{EventPayload}
use agentfactory_gateway.Throttler.{SlackEvent}
use agentfactory_gateway.State.Json.{TaskRecord}
use agentfactory_gateway.State.Manager.{StateManager, HasStatus, IsLawful, ListsRunning}
use agentfactory_gateway.State.Laws.{In}
use agentfactory_gateway.Worker.Stream.{StreamWorker, stop_worker}
use agentfactory_gateway.Worker.Python
use agentfactory_gateway.Worker.Python.{PythonWorker, terminate}
use mathlib.Core.Option.{map}
use agentfactory_gateway.Interaction.Effects.{Json, HitlHandler, InteractionCallback, Answers}
use agentfactory_gateway.Interaction.Handler.{handle_action, handle_id}
use agentfactory_gateway.Interaction.Buttons.{
  buttons_of, press, quiet-append, quiet_both, only_if-quiet,
}
use agentfactory_gateway.Render.Kit.{
  Button, TaskData, footer_below_divider, payload_or_zero, only_if, section_block, labelled,
}
use agentfactory_gateway.Render.Done.{
  build_done_blocks, build_error_blocks, build_action_buttons, build_error_action_buttons,
  done_footer,
}
use agentfactory_gateway.Gateway.Interactive.{
  ignored, handle_interactive_callback, status_record, interrupt, stop, Stopping,
}

module _ (J : Json) (answers : Answers) (h : Option HitlHandler) (c : InteractionCallback) where
  -- A press of the button is ignored.
  abbrev pub IsDead : Button → Type 0
  IsDead b = handle_interactive_callback J h answers false (press b c) ≡ ignored

module _ (J : Json) (answers : Answers) where
  done-IsDead :
      (h : Option HitlHandler) (c : InteractionCallback)
      → All (IsDead J answers h c) (buttons_of build_action_buttons)
  unfolding build_action_buttons buttons_of handle_interactive_callback handle_action handle_id
      str_dec
  done-IsDead none c = (refl, (refl, (refl, tt)))
  done-IsDead (some h) c = (refl, (refl, (refl, tt)))

  error-IsDead :
      (h : Option HitlHandler) (c : InteractionCallback)
      → All (IsDead J answers h c) (buttons_of build_error_action_buttons)
  unfolding build_error_action_buttons buttons_of handle_interactive_callback handle_action
      handle_id str_dec
  error-IsDead none c = (refl, tt)
  error-IsDead (some h) c = (refl, tt)

footer-quiet : (parts : List String) → buttons_of (footer_below_divider parts) ≡ []
unfolding footer_below_divider buttons_of
footer-quiet [] = refl
footer-quiet (p ∷ parts) = refl

module _ (F : Float) where
  done_buttons :
      (event : SlackEvent (EventPayload F)) (td : Option TaskData)
      → buttons_of (build_done_blocks F event td) ≡ buttons_of build_action_buttons
  unfolding build_done_blocks buttons_of
  done_buttons event td =
      let p = payload_or_zero F event in
      let output = only_if (p.output /= "") (section_block p.output ∷ []) in
      let code =
        only_if (p.code /= "") (section_block (concat ("```" ∷ p.code ∷ "```" ∷ [])) ∷ []) in
      let footer = footer_below_divider (done_footer F p td) in
      quiet-append ((output ++ code) ++ footer) build_action_buttons (
        quiet_both (output ++ code) footer
          (quiet_both output code (only_if-quiet F (p.output /= "") p.output)
            (only_if-quiet F (p.code /= "") (concat ("```" ∷ p.code ∷ "```" ∷ []))))
          (footer-quiet (done_footer F p td)))

  error_buttons :
      (event : SlackEvent (EventPayload F))
      → buttons_of (build_error_blocks F event) ≡ buttons_of build_error_action_buttons
  unfolding build_error_blocks buttons_of
  error_buttons event =
      quiet-append
        (footer_below_divider (labelled "⏱\u{fe0f} " (payload_or_zero F event).elapsed_time))
        build_error_action_buttons (footer-quiet _)

-- Every button of the card of a finished task, "Copy Code", "Retry" and "New Task", and of a failed
-- one, "Retry", when it is pressed, is ignored: neither the handler of reviews nor the switch on the
-- action's value takes it.
pub finished_cards-AreDead :
    (F : Float) (J : Json) (answers : Answers) (h : Option HitlHandler) (c : InteractionCallback)
    (event : SlackEvent (EventPayload F)) (td : Option TaskData)
    → All (IsDead J answers h c) (buttons_of (build_done_blocks F event td))
      × All (IsDead J answers h c) (buttons_of (build_error_blocks F event))
finished_cards-AreDead F J answers h c event td = (
  subst (All (IsDead J answers h c)) (sym (done_buttons F event td)) (done-IsDead J answers h c),
  subst (All (IsDead J answers h c)) (sym (error_buttons F event)) (error-IsDead J answers h c),
)

module _ (M : StateManager) (now : ℕ) (L : IsLawful M)
    (ok : (rec : TaskRecord) (s : M.State) → (M.set now rec s).1 ≡ none) where
  abbrev pub IsInterrupted : M.State → String → Type 0
  IsInterrupted s id = HasStatus M s id "interrupted"

  set-IsInterrupted :
      (task id : String) (s : M.State)
      → IsInterrupted s id
      → IsInterrupted (M.set now (status_record task "interrupted") s).0 id
  set-IsInterrupted task id s has = elim (str_dec id task) [
    | no other ↦
        (has.0, L.get-set_other now (status_record task "interrupted") s id other ∙ has.1, has.2)
    | yes same ↦
        subst (λ (t : String). IsInterrupted (M.set now (status_record task "interrupted") s).0 t)
          (sym same)
          (L.get-set now (status_record task "interrupted") s (text_ne "interrupted" "" refl)
            (ok (status_record task "interrupted") s))
  ]

  interrupt-keeps :
      (active : List TaskRecord) (id : String) (s : M.State)
      → IsInterrupted s id
      → IsInterrupted (interrupt M now active s) id
  unfolding interrupt
  interrupt-keeps [] id s has = has
  interrupt-keeps (rec ∷ active) id s has =
      interrupt-keeps active id (M.set now (status_record rec.task_id "interrupted") s).0
        (set-IsInterrupted rec.task_id id s has)

  interrupt-All :
      (active : List TaskRecord) (s : M.State)
      → All (λ rec. IsInterrupted (interrupt M now active s) rec.task_id) active
  unfolding interrupt
  interrupt-All [] s = tt
  interrupt-All (rec ∷ active) s =
      let s' = (M.set now (status_record rec.task_id "interrupted") s).0 in
      (
        interrupt-keeps active rec.task_id s' (
            L.get-set now (status_record rec.task_id "interrupted") s
              (text_ne "interrupted" "" refl) (ok (status_record rec.task_id "interrupted") s)),
        interrupt-All active s',
      )

  -- A task of the list is interrupted.
  listed-IsInterrupted :
      (id : String) (r : TaskRecord) (active : List TaskRecord) (s : M.State)
      → All (λ rec. IsInterrupted s rec.task_id) active
      → In r active
      → r.task_id ≡ id
      → IsInterrupted s id
  listed-IsInterrupted id r [] s all m e = absurd m
  listed-IsInterrupted id r (x ∷ active) s all (inl same) e =
      subst (IsInterrupted s) (ap (λ (q : TaskRecord). q.task_id) same ∙ e) all.0
  listed-IsInterrupted id r (x ∷ active) s all (inr m) e =
      listed-IsInterrupted id r active s all.1 m e

  -- The workers that are there are stopped, and the process of the Python worker is told to end.
  abbrev pub IsHalted : Stopping M.State → Stopping M.State → Type 0
  IsHalted g g' =
      (g'.stopped ≡ true)
      × (g'.stop_ctx_cancelled ≡ true)
      × ((w : StreamWorker)
          → g.stream_worker ≡ some w
          → g'.stream_worker ≡ some (record w { stopped = true }))
      × ((w : PythonWorker)
          → g.worker ≡ some w
          → (w' : PythonWorker) × (g'.worker ≡ some w')
            × (w'.stopped ≡ true)
            × ((pid : ℕ) → w.cmd ≡ some pid → w'.signals ≡ terminate pid ∷ w.signals))

  stop-IsHalted : (g : Stopping M.State) → g.stopped ≡ false → IsHalted g (stop M now g)
  unfolding stop stop_worker Python.stop
  stop-IsHalted g first =
      rw (first, stop)
        (
          refl,
          refl,
          λ w h. ap (map stop_worker) h,
          λ w h. (Python.stop w, ap (map Python.stop) h, refl, λ pid e. ground arith),
        )

  stop-store :
      (g : Stopping M.State) (s : M.State)
      → g.stopped ≡ false
      → g.store ≡ some s
      → (stop M now g).store ≡ some (interrupt M now (M.list_active s) s)
  unfolding stop
  stop-store g s first there = rw (first, there, stop) refl

  stop-stopped : (g : Stopping M.State) → g.stopped ≡ true → stop M now g ≡ g
  unfolding stop
  stop-stopped g again = simp (again, stop)

  stop-stop : (g : Stopping M.State) → stop M now (stop M now g) ≡ stop M now g
  unfolding stop
  stop-stop g = elim (Bool-cases g.stopped) [
    | inl again ↦ ap (stop M now) (stop-stopped g again)
    | inr first ↦ rw (first, stop) refl
  ]

  -- The first Stop of a gateway, with a store whose Set never fails and gives what Get then finds, and
  -- whose ListActive lists every record that is stored as running: it cancels stopCtx, stops the workers
  -- that are there, with a SIGTERM to the process of the Python worker, and leaves every task that was
  -- stored as running with the status interrupted. A second Stop changes nothing.
  pub stop-IsInterrupted :
      (g : Stopping M.State) (s : M.State)
      → g.stopped ≡ false
      → g.store ≡ some s
      → ListsRunning M s
      → IsHalted g (stop M now g)
        × ((t : M.State) × ((stop M now g).store ≡ some t)
            × ((id : String) → HasStatus M s id "running" → HasStatus M t id "interrupted"))
        × (stop M now (stop M now g) ≡ stop M now g)
  stop-IsInterrupted g s first there lists =
      let t = interrupt M now (M.list_active s) s in
      (
        stop-IsHalted g first,
        (
          t,
          stop-store g s first there,
          λ id runs.
              let (r, m, named) = lists id runs in
              listed-IsInterrupted id r (M.list_active s) t (interrupt-All (M.list_active s) s) m
                named,
        ),
        stop-stop g,
      )
