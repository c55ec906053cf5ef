-- ===== src/Render/Texts.antt =====
-- gateway/renderer_hitl.go: how long the texts of the review cards are, in characters.
use Prim.Native.String.{String, len, count}
use text.Mathlib.TextLemmas.{length-append}
use agentfactory_gateway.Common.{
  ℕ, ◌+◌, ◌≤◌, ◌<◌, ◌≡◌, [], ◌∷◌, arith, All, Bool-cases, ◌==◌, inl, inr,
}
use agentfactory_gateway.Common.Text.{
  ◌<>◌, concat, truncate, count-truncate-le, IsAscii, count-truncate-ascii,
}
use agentfactory_gateway.Render.Hitl.{design_text, git_status_text, build_modification_log_card}
use agentfactory_gateway.Render.Kit.{Block, header, section, divider, context, actions, input}

count-wrapped :
    (before s after : String)
    → count (concat (before ∷ s ∷ after ∷ [])) ≡ count before + count s + count after
unfolding concat
count-wrapped before s after = omega (
  arith,
  length-append before (s <> after <> ""),
  length-append s (after <> ""),
  length-append after "",
)

-- A section whose text has at most n characters, or another block.
abbrev pub Fits : ℕ → Block → Type 0
Fits n (section t) = count t.text ≤ n
Fits n (header t) = Unit
Fits n divider = Unit
Fits n (context _ _) = Unit
Fits n (actions _ _) = Unit
Fits n (input _ _ _ _) = Unit

design_text_bounded : (design_doc : String) → count (design_text design_doc) ≤ 2035
unfolding design_text concat
design_text_bounded doc = omega (
  arith,
  length-append "*Design Summary:*\n" (truncate 2000 "...\n_(truncated)_" doc <> ""),
  length-append (truncate 2000 "...\n_(truncated)_" doc) "",
  count-truncate-le 2000 "...\n_(truncated)_" doc,
)

log_text_bounded :
    (log : String)
    → count (concat ("```" ∷ truncate 2500 "\n_(truncated)_" log ∷ "```" ∷ [])) ≤ 2520
log_text_bounded log = omega (
  arith,
  count-wrapped "```" (truncate 2500 "\n_(truncated)_" log) "```",
  count-truncate-le 2500 "\n_(truncated)_" log,
)

log_card_bounded : (log : String) → All (Fits 2520) (build_modification_log_card log)
unfolding build_modification_log_card
log_card_bounded log = elim (Bool-cases (log == "")) [
  | inl e ↦ rw e tt
  | inr e ↦ rw e (omega arith, (log_text_bounded log, tt))
]

-- Whatever the design document and the modification log, the section with the document has at most
-- 2035 characters, and each section with the log at most 2520, both less than 3000.
pub review_texts_bounded :
    (design_doc log : String)
    → (count (design_text design_doc) ≤ 2035) × All (Fits 2520) (build_modification_log_card log)
review_texts_bounded design_doc log = (design_text_bounded design_doc, log_card_bounded log)

-- The section with the git status has more than 3000 characters for every status of one-byte
-- characters that is longer than 2981, although a longer status is cut to 3000.
pub git_status_text_long :
    (summary : String)
    → IsAscii summary
    → 2981 < len summary
    → 3000 < count (git_status_text summary)
unfolding git_status_text
git_status_text_long summary a long = ground (
  arith,
  count-wrapped "*Git Status:*\n```" (truncate 3000 "\n_(truncated)_" summary) "```",
  count-truncate-ascii 3000 "\n_(truncated)_" summary a,
)
