-- ===== src/Render/Kit.antt =====
-- The calls of slack-go's constructors that gateway/renderer*.go makes, kept as data: a message is the
-- list of its blocks. The parts of a message that several of the builders write the same way.
use agentfactory_gateway.Common.{
  String, Bool, true, false, Option, none, some, List, [], ◌∷◌, if◌then◌else◌, ◌==◌,
}
use agentfactory_gateway.Common.Int.{ℤ, pos, is_positive}
use agentfactory_gateway.Common.Text.{join, concat, show_int}
use agentfactory_gateway.Common.Float.{Float}
use agentfactory_gateway.Throttler.{SlackEvent}
use agentfactory_gateway.Protocol.{EventPayload, zero_payload}

pub data TextType : Type 0 where
  plain_text mrkdwn : TextType

-- NewTextBlockObject
pub record TextObject : Type 0 where
  pub type : TextType
  pub text : String
  pub emoji : Bool
  pub verbatim : Bool

pub data Style : Type 0 where
  default primary danger : Style

-- NewButtonBlockElement, WithStyle
pub record Button : Type 0 where
  pub action_id : String
  pub value : String
  pub text : TextObject
  pub style : Style

-- NewPlainTextInputBlockElement, WithMultiline
pub record InputElement : Type 0 where
  pub placeholder : TextObject
  pub action_id : String
  pub multiline : Bool

pub data Block : Type 0 where
  header : TextObject → Block
  section : TextObject → Block
  divider : Block
  context : String → List TextObject → Block
  actions : String → List Button → Block
  -- NewInputBlock: the id, the label, the hint and the element
  input : String → TextObject → TextObject → InputElement → Block

abbrev pub plain : String → TextObject
plain s = record { type = plain_text; text = s; emoji = false; verbatim = false }

abbrev pub header_block : String → Block
header_block s = header (record { type = plain_text; text = s; emoji = true; verbatim = false })

abbrev pub section_block : String → Block
section_block s = section (record { type = mrkdwn; text = s; emoji = false; verbatim = false })

abbrev pub context_block : String → Block
context_block s = context "" (plain s ∷ [])

abbrev pub button : String → String → String → Style → Button
button action_id value text style = record {
  action_id = action_id;
  value = value;
  text = plain text;
  style = style;
}

-- if test { list = append(list, items...) }, for an empty list
abbrev pub only_if {ℓ} : {A : Type ℓ} → Bool → List A → List A
only_if test items = if test then items else []

-- if part != "" { parts = append(parts, icon + part) }
unfoldable pub labelled : String → String → List String
labelled icon part = if part == "" then [] else concat (icon ∷ part ∷ []) ∷ []

-- the footer with the divider above it, where there are parts
unfoldable pub footer_below_divider : List String → List Block
footer_below_divider [] = []
footer_below_divider (part ∷ parts) = divider ∷ context_block (join " | " (part ∷ parts)) ∷ []

-- the footer alone
unfoldable pub footer_line : List String → List Block
footer_line [] = []
footer_line (part ∷ parts) = context_block (join " | " (part ∷ parts)) ∷ []

-- TaskData carries accumulated state across streaming events.
pub record TaskData : Type 0 where
  pub channel_id : String
  pub ts : String
  pub model : String
  pub tokens : ℤ

-- taskData.Model and taskData.Tokens, with the zero value for no task data
abbrev pub model_of : Option TaskData → String
model_of none = ""
model_of (some d) = d.model

abbrev pub tokens_of : Option TaskData → ℤ
tokens_of none = pos 0
tokens_of (some d) = d.tokens

-- if tokens > 0 { parts = append(parts, fmt.Sprintf("📊 %d tokens", tokens)) }
unfoldable pub token_part : ℤ → List String
token_part tokens =
    only_if (is_positive tokens) (concat ("📊 " ∷ show_int tokens ∷ " tokens" ∷ []) ∷ [])

-- p := event.Payload; if p == nil { p = &protocol.EventPayload{} }
unfoldable pub payload_or_zero : (F : Float) → SlackEvent (EventPayload F) → EventPayload F
unfolding zero_payload
payload_or_zero F event = elim event.payload [ none ↦ zero_payload F | some p ↦ p ]
