-- ===== src/Messages/Aggregator.antt =====
-- src/core/message_aggregator.py: the state of the MessageAggregator, what it commits and what it
-- previews.
--
-- A method is a function of the state that returns the next state beside the deltas that it yields.
-- A clone is the same state: values do not share, and the state holds everything that `clone`
-- copies.
use claude_code_manager.Base.{
  ℕ, Bool, false, not, ◌&&◌, Option, none, some, List, [], ◌∷◌, ◌++◌, if◌then◌else◌, is_empty, Text,
  map,
}
use claude_code_manager.Messages.Uploads.{Upload, FileRef}
use claude_code_manager.Messages.Events.{Value, text, ToolInput, Tool, Block, tool_preview}
use claude_code_manager.Messages.Notices.{Simple, Note}

-- `ev.get("id")`, or the place of the event
pub data EventId : Type 0 where
  given legacy : ℕ → EventId

pub data Kind : Type 0 where
  user : Text → List Upload → Bool → Kind
  tool_results : List Block → Kind
  assistant : List Block → Kind
  tool_use : Text → ToolInput → Kind
  tool_result : Value → Bool → Kind
  thinking : Text → Kind
  simple : Simple → Kind
  system : Bool → Text → Kind
  untyped : Option Text → Kind
  unknown : Kind

pub record Event : Type 0 where
  pub kind : Kind
  pub id : Option ℕ
  pub timestamp : Option ℕ

pub data Body : Type 0 where
  user_body : Text → List FileRef → Bool → Body
  assistant_body : Text → List Tool → Text → Body
  plan_body : Text → Body
  note_body : Note → Body

pub record Message : Type 0 where
  pub body : Body
  pub event_index : ℕ
  pub id : EventId
  pub timestamp : Option ℕ

pub data Delta : Type 0 where
  message stream : Message → Delta

pub record Aggregator : Type 0 where
  pub idx_offset : ℕ
  pub processed : ℕ
  pub assistant_buf : Text
  pub thinking_buf : Text
  pub last_assistant_ts : Option ℕ
  pub last_event_idx : ℕ
  pub last_event_id : Option EventId
  pub tools_buf : List Tool
  pub emit_stream_deltas : Bool

abbrev pub new_aggregator : ℕ → Bool → Aggregator
new_aggregator offset emit = record {
  idx_offset = offset;
  processed = 0;
  assistant_buf = [];
  thinking_buf = [];
  last_assistant_ts = none;
  last_event_idx = 0;
  last_event_id = none;
  tools_buf = [];
  emit_stream_deltas = emit;
}

-- A method that yields deltas.
abbrev pub Method : Type 0
Method = Aggregator → Aggregator × List Delta

infixl 5 ◌then_do◌
unfoldable pub ◌then_do◌ : Method → Method → Method
(first then_do second) a =
    let (a', deltas) = first a in let (a'', more) = second a' in (a'', deltas ++ more)

unfoldable pub yield : Message → Method
yield m a = (a, message m ∷ [])

unfoldable pub set : (Aggregator → Aggregator) → Method
set f a = (f a, [])

abbrev pub id_or_legacy : Option EventId → ℕ → EventId
id_or_legacy none idx = legacy idx
id_or_legacy (some i) idx = i

abbrev pub is_pending : Aggregator → Bool
is_pending a = not (is_empty a.assistant_buf && is_empty a.tools_buf && is_empty a.thinking_buf)

abbrev pub draft_of : Aggregator → Message
draft_of a = record {
  body = assistant_body a.assistant_buf a.tools_buf a.thinking_buf;
  event_index = a.last_event_idx;
  id = id_or_legacy a.last_event_id a.last_event_idx;
  timestamp = a.last_assistant_ts;
}

unfoldable pub pending_draft_message : Aggregator → Option Message
pending_draft_message a = if is_pending a then some (draft_of a) else none

abbrev pub cleared : Aggregator → Aggregator
cleared a = record a {
  assistant_buf = [];
  thinking_buf = [];
  last_assistant_ts = none;
  last_event_id = none;
  tools_buf = [];
}

-- `_flush_to_message_delta`, and `flush_pending`
unfoldable pub flush_to_message_delta : Method
flush_to_message_delta a = elim (pending_draft_message a) [
  | none ↦ (a, [])
  | some msg ↦ (cleared a, message msg ∷ [])
]

unfoldable pub buffer_tool : Text → ToolInput → Aggregator → Aggregator
buffer_tool name input a = record a {
  tools_buf =
      a.tools_buf
      ++ tool_preview (record {
        name = name;
        input = input;
        output = text [];
        is_error = false;
        output_truncated = false;
        input_truncated = false;
      })
        ∷ [];
}

-- On the newest tool, where there is one.
unfoldable pub attach_to_last : Value → Bool → List Tool → List Tool
attach_to_last output is_error [] = []
attach_to_last output is_error (t ∷ []) =
    tool_preview (record t { output = output; is_error = is_error }) ∷ []
attach_to_last output is_error (t ∷ u ∷ ts) = t ∷ attach_to_last output is_error (u ∷ ts)

unfoldable pub attach_tool_output : Value → Bool → Aggregator → Aggregator
attach_tool_output output is_error a = record a {
  tools_buf = attach_to_last output is_error a.tools_buf;
}

abbrev pub preview_body : Body → Body
preview_body (assistant_body content tools thought) =
    assistant_body content (map tool_preview tools) thought
preview_body b = b

abbrev pub preview_message : Message → Message
preview_message m = record m { body = preview_body m.body }

abbrev pub as_stream : Option Message → List Delta
as_stream none = []
as_stream (some msg) = stream (preview_message msg) ∷ []

unfoldable pub stream_delta : Method
stream_delta a = (a, if a.emit_stream_deltas then as_stream (pending_draft_message a) else [])
