-- ===== src/Worker/Stream/Dispatch/Agents.antt =====
-- worker/stream_worker.go: the agents of a dispatch start event.
use Prim.Native.String.{[] as ε, ◌∷◌ as ◌▹◌}
use text.Mathlib.TextLemmas.{cons-append, nil-append, append_cancel_left, append-eq-nil_iff}
use agentfactory_gateway.Common.{
  ℕ, zero, suc, ◌+◌, ◌≤◌, ◌<◌, String, ◌≡◌, ◌≢◌, refl, ap, ◌∙◌, sym, true, false, Option, some,
  List, [], ◌∷◌, count_if, str_dec, length, All, arith,
}
use agentfactory_gateway.Common.Int.{pos}
use agentfactory_gateway.Common.Float.{Float}
use agentfactory_gateway.Common.Text.{◌<>◌, decimal, read, read-decimal, join}
use agentfactory_gateway.Common.Strings.{split, trim_space}
use agentfactory_gateway.Protocol.{SubAgentInfo, EventPayload}
use agentfactory_gateway.Throttler.{SlackEvent, start}
use agentfactory_gateway.Interaction.Strings.{NoBar}
use agentfactory_gateway.Interaction.Effects.{TaskRequest}
use agentfactory_gateway.Worker.Stream.{StreamWorker, event, Process, execute_python}
use agentfactory_gateway.Worker.Stream.Dispatch.{
  is_named, estimate_agent_count, initial_agent, agents_from, build_initial_agents, dispatched,
  start_payload, execute_dispatch,
}

decimal_inj : (m n : ℕ) → decimal m ≡ decimal n → m ≡ n
decimal_inj m n h = sym (read-decimal m) ∙ (ap read h ∙ read-decimal n)

module _ (F : Float) where
  -- No agent of the list has the id.
  abbrev pub IsFresh : String → List (SubAgentInfo F) → Type 0
  IsFresh id agents = All (λ a. a.agent_id ≢ id) agents

  abbrev pub HasUniqueIds : List (SubAgentInfo F) → Type 0
  HasUniqueIds [] = Unit
  HasUniqueIds (a ∷ agents) = IsFresh a.agent_id agents × HasUniqueIds agents

  agents_from-IsFresh :
      (j i n : ℕ) → j < i → IsFresh (initial_agent F j).agent_id (agents_from F i n)
  unfolding agents_from initial_agent
  agents_from-IsFresh j i zero h = tt
  agents_from-IsFresh j i (suc n) h = (
    λ e. absurd (
        omega (
          arith,
          decimal_inj (i + 1) (j + 1)
              (append_cancel_left "agent-" (decimal (i + 1)) (decimal (j + 1)) e),
        )),
    agents_from-IsFresh j (i + 1) n (omega arith),
  )

  agents_from-HasUniqueIds : (i n : ℕ) → HasUniqueIds (agents_from F i n)
  unfolding agents_from
  agents_from-HasUniqueIds i zero = tt
  agents_from-HasUniqueIds i (suc n) =
      (agents_from-IsFresh i (i + 1) n (omega arith), agents_from-HasUniqueIds (i + 1) n)

  length-agents_from : (i n : ℕ) → length (agents_from F i n) ≡ n
  unfolding agents_from
  length-agents_from i zero = refl
  length-agents_from i (suc n) = ap suc (length-agents_from (i + 1) n)

estimate_agent_count_pos : (task : String) → 1 ≤ estimate_agent_count task
unfolding estimate_agent_count
estimate_agent_count_pos task = ground arith

split-append : (s t : String) → NoBar s → split b'|' (s <> "|" <> t) ≡ s ∷ split b'|' t
unfolding split
split-append ε t h = rw nil-append (rw cons-append (rw nil-append refl))
split-append (c ▹ s) t h = rw (cons-append c s ("|" <> t), h.0, split-append s t h.1) refl

split-one : (s : String) → NoBar s → split b'|' s ≡ s ∷ []
unfolding split
split-one ε h = refl
split-one (c ▹ s) h = rw (h.0, split-one s h.1) refl

split-join :
    (s : String) (parts : List String)
    → NoBar s
    → All NoBar parts
    → split b'|' (join "|" (s ∷ parts)) ≡ s ∷ parts
unfolding join
split-join s [] h hs = split-one s h
split-join s (t ∷ parts) h hs =
    split-append s (join "|" (t ∷ parts)) h ∙ ap (◌∷◌ s) (split-join t parts hs.0 hs.1)

abbrev pub IsNamed : String → Type 0
IsNamed p = is_named p ≡ true

count_if-named : (parts : List String) → All IsNamed parts → count_if is_named parts ≡ length parts
unfolding count_if
count_if-named [] h = refl
count_if-named (p ∷ parts) h = rw h.0 (ap suc (count_if-named parts h.1))

empty_unnamed : is_named "" ≡ false
unfolding trim_space str_dec
empty_unnamed = refl

named_ne : (s : String) → IsNamed s → s ≢ ""
named_ne s named e = cc (empty_unnamed, named, ap is_named e)

join-ne : (s : String) (parts : List String) → IsNamed s → join "|" (s ∷ parts) ≢ ""
unfolding join
join-ne s [] named e = named_ne s named e
join-ne s (t ∷ parts) named e = named_ne s named (append-eq-nil_iff.0 e).0

-- A task of parts that are not blank and have no bar, with a bar between them, has an agent for each
-- part.
pub estimate_agent_count-join :
    (s : String) (parts : List String)
    → NoBar s × All NoBar parts
    → IsNamed s × All IsNamed parts
    → estimate_agent_count (join "|" (s ∷ parts)) ≡ length (s ∷ parts)
unfolding estimate_agent_count
estimate_agent_count-join s parts bars named =
    counted (join "|" (s ∷ parts)) (length parts) (join-ne s parts named.0)
      (ap (count_if is_named) (split-join s parts bars.0 bars.1) ∙ count_if-named (s ∷ parts) named)
  where
    counted :
        (task : String) (n : ℕ)
        → task ≢ ""
        → count_if is_named (split b'|' task) ≡ suc n
        → estimate_agent_count task ≡ suc n
    counted task n some_text e = ground arith

build_initial_agents-length : (F : Float) (n : ℕ) → length (build_initial_agents F n) ≡ n
unfolding build_initial_agents
build_initial_agents-length F n = length-agents_from F 0 n

build_initial_agents-HasUniqueIds : (F : Float) (n : ℕ) → HasUniqueIds F (build_initial_agents F n)
unfolding build_initial_agents
build_initial_agents-HasUniqueIds F n = agents_from-HasUniqueIds F 0 n

-- ExecuteDispatch calls the callback first with a start event, and then as executePython does for the
-- request with the dispatch flag and the entry dispatch_mode. The event has one agent or more, as many
-- as it says, with different ids.
pub execute_dispatch-start :
    (F : Float) (decode : String → Option (SlackEvent (EventPayload F))) (w : StreamWorker)
    (run : TaskRequest → Process) (req : TaskRequest)
    → (execute_dispatch F decode w run req ≡ (
      event (record { type = start; payload = some (start_payload F req) })
          ∷ (execute_python decode w (run (dispatched F req))).0,
      (execute_python decode w (run (dispatched F req))).1,
    ))
      × ((start_payload F req).total_agents ≡ pos (length (start_payload F req).agents))
      × (1 ≤ length (start_payload F req).agents)
      × HasUniqueIds F (start_payload F req).agents
unfolding execute_dispatch start_payload
execute_dispatch-start F decode w run req =
    let n = estimate_agent_count req.task in
    (
      refl,
      ap pos (sym (build_initial_agents-length F n)),
      rw (build_initial_agents-length F n) (estimate_agent_count_pos req.task),
      build_initial_agents-HasUniqueIds F n,
    )
