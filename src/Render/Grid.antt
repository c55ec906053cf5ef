-- ===== src/Render/Grid.antt =====
-- gateway/renderer_helpers.go: the rows of the grid and the numbers of the summary.
use mathlib.Core.List.{append_assoc, append-nil}
use text.Mathlib.TextLemmas.{append-eq-nil_iff, append_assoc as text_assoc}
use agentfactory_gateway.Common.{
  suc, ◌+◌, ◌≡◌, ◌≢◌, ◌∙◌, refl, sym, String, List, [], ◌∷◌, ◌++◌, map, length, ◌==◌, count_if,
  arith, if◌then◌else◌, str_dec, text_ne, Bool, true, false,
}
use agentfactory_gateway.Common.Text.{◌<>◌, concat, join}
use agentfactory_gateway.Common.Float.{Float}
use agentfactory_gateway.Protocol.{SubAgentInfo}
use agentfactory_gateway.Render.Kit.{section_block, context_block}
use agentfactory_gateway.Render.Helpers.{
  grid_item, grid_loop, build_agent_grid, agent_emoji, Counts, count_agents, summary_text,
  build_agent_summary,
}

-- A list in groups of three, the last one shorter.
unfoldable pub threes : List String → List (List String)
threes [] = []
threes (a ∷ []) = (a ∷ []) ∷ []
threes (a ∷ b ∷ []) = (a ∷ b ∷ []) ∷ []
threes (a ∷ b ∷ c ∷ rest) = (a ∷ b ∷ c ∷ []) ∷ threes rest

append-ne : (s t : String) → s ≢ "" → s <> t ≢ ""
append-ne s t h e = h ((append-eq-nil_iff {p = s} {q = t}).0 e).0

if-ne : (test : Bool) {s t : String} → s ≢ "" → t ≢ "" → (if test then s else t) ≢ ""
if-ne true h k = h
if-ne false h k = k

agent_emoji-ne : (role : String) → agent_emoji role ≢ ""
unfolding agent_emoji
agent_emoji-ne role = if-ne _ (text_ne "🤖" "" refl) (
    if-ne _ (text_ne "🧪" "" refl) (
      if-ne _ (text_ne "🐳" "" refl)
        (if-ne _ (text_ne "📝" "" refl) (if-ne _ (text_ne "🔍" "" refl) (text_ne "🤖" "" refl)))))

done-ne-error : ◌≢◌ {A = String} "done" "error"
done-ne-error = text_ne "done" "error" refl

test-ne : {A : Type 0} (s : String) (x y : A) → s ≢ "" → (if s == "" then x else y) ≡ y
test-ne s x y h = ground arith

regroup : (a b c s : String) → (a <> s <> b) <> s <> c ≡ a <> s <> b <> s <> c
regroup a b c s = simp text_assoc

module _ (F : Float) where
  grid_item-ne : (a : SubAgentInfo F) → grid_item F a ≢ ""
  unfolding grid_item concat
  grid_item-ne a = append-ne (agent_emoji a.role) _ (agent_emoji-ne a.role)

  grid_loop-threes :
      (rows : List String) (agents : List (SubAgentInfo F))
      → grid_loop F rows "" 0 agents
        ≡ rows ++ map (join "  |  ") (threes (map (grid_item F) agents))
  unfolding grid_loop threes join str_dec
  grid_loop-threes rows [] = sym (append-nil rows)
  grid_loop-threes rows (a ∷ []) = test-ne (grid_item F a) _ _ (grid_item-ne a)
  grid_loop-threes rows (a ∷ b ∷ []) =
      test-ne (grid_item F a <> "  |  " <> grid_item F b) _ _
        (append-ne (grid_item F a) _ (grid_item-ne a))
  grid_loop-threes rows (a ∷ b ∷ c ∷ agents) =
      grid_loop-threes
        (rows ++ ((grid_item F a <> "  |  " <> grid_item F b) <> "  |  " <> grid_item F c) ∷ [])
        agents
      ∙ simp (append_assoc, regroup (grid_item F a) (grid_item F b) (grid_item F c) "  |  ")

  -- buildAgentGrid gives the agents' texts in order, in groups of three of which only the last may be
  -- shorter, each group joined by the separator to one row.
  pub build_agent_grid-threes :
      (agents : List (SubAgentInfo F))
      → build_agent_grid F agents ≡ map (join "  |  ") (threes (map (grid_item F) agents))
  unfolding build_agent_grid
  build_agent_grid-threes agents = grid_loop-threes [] agents

  -- One round of the counts.
  count_agents_lem :
      (n : Counts) (agents : List (SubAgentInfo F))
      → ((count_agents F n agents).done ≡ n.done + count_if (λ a. a.status == "done") agents)
        × ((count_agents F n agents).failed ≡ n.failed + count_if (λ a. a.status == "error") agents)
        × ((count_agents F n agents).done
              + (count_agents F n agents).running
              + (count_agents F n agents).failed
            ≡ n.done + n.running + n.failed + length agents)
  unfolding count_agents count_if
  count_agents_lem n [] = omega arith
  count_agents_lem n (a ∷ agents) = ground (
    arith,
    done-ne-error,
    count_agents_lem (record n { done = suc n.done }) agents,
    count_agents_lem (record n { failed = suc n.failed }) agents,
    count_agents_lem (record n { running = suc n.running }) agents,
  )

  -- The summary of the agents shows three numbers: how many are done, how many have failed, and a
  -- third that counts all the others, so that the three add up to the number of agents.
  pub build_agent_summary-counts :
      (agents : List (SubAgentInfo F))
      → (n : Counts) × (build_agent_summary F agents
          ≡ section_block (summary_text n) ∷ context_block "[View details in thread →]" ∷ [])
        × (n.done ≡ count_if (λ a. a.status == "done") agents)
        × (n.failed ≡ count_if (λ a. a.status == "error") agents)
        × (n.done + n.running + n.failed ≡ length agents)
  unfolding build_agent_summary
  build_agent_summary-counts agents =
      let zero_counts : Counts = record { done = 0; running = 0; failed = 0 } in
      let h = count_agents_lem zero_counts agents in
      (
        count_agents F zero_counts agents,
        refl,
        omega (arith, h.0),
        omega (arith, h.1),
        omega (arith, h.2),
      )
