-- ===== src/Messages/Events.antt =====
-- src/core/message_aggregator.py: the shapes of events, tool rows and message blocks.
--
-- The parts that the aggregator does not look into are numbers: the dicts that an event carries as
-- opaque values. An id or a timestamp that is missing or empty is `none`.
use claude_code_manager.Base.{
  ℕ, Bool, false, ◌||◌, List, [], ◌∷◌, ◌++◌, ltb, if◌then◌else◌, Text, length, take,
}

pub data Value : Type 0 where
  text : Text → Value
  opaque : ℕ → Value

-- The `input` of a tool: a dict, or another value.
pub data ToolInput : Type 0 where
  fields : List (Text × Value) → ToolInput
  no_dict : ℕ → ToolInput

pub record Tool : Type 0 where
  pub name : Text
  pub input : ToolInput
  pub output : Value
  pub is_error : Bool
  pub output_truncated : Bool
  pub input_truncated : Bool

abbrev pub tool_preview_chars : ℕ
tool_preview_chars = 500

-- `isinstance(value, str) and len(value) > TOOL_PREVIEW_CHARS`
abbrev pub trims : Value → Bool
trims (text s) = ltb tool_preview_chars (length s)
trims (opaque v) = false

abbrev pub trim : Value → Value
trim (text s) = if trims (text s) then text (take tool_preview_chars s) else text s
trim (opaque v) = opaque v

abbrev pub any_trims : List (Text × Value) → Bool
any_trims [] = false
any_trims ((key, value) ∷ kvs) = trims value || any_trims kvs

abbrev pub trim_all : List (Text × Value) → List (Text × Value)
trim_all [] = []
trim_all ((key, value) ∷ kvs) = (key, trim value) ∷ trim_all kvs

abbrev pub input_trims : ToolInput → Bool
input_trims (fields kvs) = any_trims kvs
input_trims (no_dict v) = false

abbrev pub trim_input : ToolInput → ToolInput
trim_input (fields kvs) = fields (trim_all kvs)
trim_input (no_dict v) = no_dict v

unfoldable pub tool_preview : Tool → Tool
tool_preview t = record t {
  output = trim t.output;
  output_truncated = t.output_truncated || trims t.output;
  input = if input_trims t.input then trim_input t.input else t.input;
  input_truncated = t.input_truncated || input_trims t.input;
}

-- The content blocks of a message; a content that is no list counts as no blocks. An `ExitPlanMode`
-- use carries its plan, empty where there is none; a `tool_result` its renderable text.
pub data Block : Type 0 where
  text_block thinking_block : Text → Block
  tool_use_block : Text → ToolInput → Block
  exit_plan_mode : Text → Block
  tool_result_block : Value → Bool → Block
  other_block : Block

abbrev pub extract_text_from_message : List Block → Text
extract_text_from_message [] = []
extract_text_from_message (text_block s ∷ bs) = s ++ extract_text_from_message bs
extract_text_from_message (b ∷ bs) = extract_text_from_message bs

abbrev pub extract_thinking_from_message : List Block → Text
extract_thinking_from_message [] = []
extract_thinking_from_message (thinking_block s ∷ bs) = s ++ extract_thinking_from_message bs
extract_thinking_from_message (b ∷ bs) = extract_thinking_from_message bs
