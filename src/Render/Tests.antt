-- ===== src/Render/Tests.antt =====
-- Cards on small events, and each theorem about them at a concrete input.
use Prim.Native.String.{String, len, count}
use text.Mathlib.TextPositions.{len-append}
use text.Mathlib.TextLemmas.{cons-append, nil-append}
use agentfactory_gateway.Common.{
  zero, suc, ℕ, ◌≡◌, ◌≤◌, refl, List, [], ◌∷◌, length, none, some, arith, All,
}
use agentfactory_gateway.Common.Int.{pos}
use agentfactory_gateway.Common.Text.{cut, repeat, IsAscii}
use agentfactory_gateway.Protocol.{SubAgentInfo, EventPayload, zero_payload}
use agentfactory_gateway.Throttler.{SlackEvent, progress}
use agentfactory_gateway.Render.Fixed.{hundredths}
use agentfactory_gateway.Render.Helpers.{filled, render_progress_bar}
use agentfactory_gateway.Render.Hitl.{design_text, build_modification_log_card}
use agentfactory_gateway.Render.Card.{build_task_card}
use agentfactory_gateway.Render.Layout.{length-build_task_card-le}
use agentfactory_gateway.Render.Texts.{Fits, review_texts_bounded}

abbrev agent : String → String → SubAgentInfo hundredths
agent id status = record {
  agent_id = id;
  role = "qa";
  task = "";
  progress = 70;
  status = status;
  current_action = "";
}

abbrev four : List (SubAgentInfo hundredths)
four = agent "a1" "done" ∷ agent "a2" "error" ∷ agent "a3" "" ∷ agent "a4" "done" ∷ []

abbrev running_event : SlackEvent (EventPayload hundredths)
running_event = record {
  type = progress;
  payload = some (record (zero_payload hundredths) { agents = four });
}

cut_inside : cut 4 "ab日c" ≡ "ab��"
unfolding cut
cut_inside = refl

bar : render_progress_bar hundredths 70 ≡ "███████░░░"
unfolding render_progress_bar filled repeat
bar = refl

bar_over : render_progress_bar hundredths 250 ≡ "██████████"
unfolding render_progress_bar filled repeat
bar_over = refl

length-build_task_card-le_example :
    length (build_task_card hundredths (some running_event) none) ≤ 10
length-build_task_card-le_example = length-build_task_card-le hundredths (some running_event) none

review_texts_bounded_example :
    (count (design_text "a design") ≤ 2035) × All (Fits 2520) (build_modification_log_card "log")
review_texts_bounded_example = review_texts_bounded "a design" "log"

-- The summary of n letters.
abbrev letters : ℕ → String
letters n = repeat "x" (pos n)

letters-IsAscii : (n : ℕ) → IsAscii (letters n)
unfolding repeat
letters-IsAscii zero = tt
letters-IsAscii (suc n) =
    rw (cons-append "x" "" (letters n)) (rw (nil-append (letters n)) (refl, letters-IsAscii n))

len-letters : (n : ℕ) → len (letters n) ≡ n
unfolding repeat
len-letters zero = refl
len-letters (suc n) = omega (arith, len-append "x" (letters n), len-letters n)
