-- ===== src/Messages/Feeding.antt =====
-- src/core/message_aggregator.py: the handlers of the events, and `feed` of the MessageAggregator.
use claude_code_manager.Base.{
  ℕ, ◌+◌, suc, Bool, not, ◌&&◌, Option, none, some, List, [], ◌∷◌, ◌++◌, if◌then◌else◌, is_empty,
  Text,
}
use claude_code_manager.Messages.Uploads.{Upload, normalize_user_message_event}
use claude_code_manager.Messages.Events.{
  Value, ToolInput, Block, tool_use_block, exit_plan_mode, tool_result_block,
  extract_text_from_message, extract_thinking_from_message,
}
use claude_code_manager.Messages.Notices.{Simple, Note, simple_handler, task_delegated}
use claude_code_manager.Messages.Aggregator.{
  ◌then_do◌, tool_results, assistant, tool_use, tool_result, thinking, simple, system, untyped,
  unknown, Aggregator, Event, EventId, Kind, Method, attach_tool_output, buffer_tool,
  flush_to_message_delta, given, is_pending, legacy, message, note_body, plan_body, set,
  stream_delta, user, user_body, yield,
}

-- The results that a user event of the agent carries.
unfoldable pub attach_results : List Block → Aggregator → Aggregator
attach_results [] a = a
attach_results (tool_result_block output is_error ∷ bs) a =
    attach_results bs (attach_tool_output output is_error a)
attach_results (b ∷ bs) a = attach_results bs a

-- One `ExitPlanMode`: its plan is a message, or else the text that waits is.
unfoldable pub exit_plan : Text → ℕ → EventId → Option ℕ → Method
exit_plan (c ∷ plan) idx id ts a =
    (flush_to_message_delta
        then_do yield
            (record { body = plan_body (c ∷ plan); event_index = idx; id = id; timestamp = ts }))
      a
exit_plan [] idx id ts a = if is_empty a.assistant_buf then (a, []) else (
  record a { assistant_buf = []; last_assistant_ts = none; last_event_id = none },
  message (record {
    body = plan_body a.assistant_buf;
    event_index = idx;
    id = id;
    timestamp = a.last_assistant_ts;
  })
      ∷ [],
)

unfoldable pub exit_plans : List Block → ℕ → EventId → Option ℕ → Method
exit_plans [] idx id ts a = (a, [])
exit_plans (exit_plan_mode plan ∷ bs) idx id ts a =
    (exit_plan plan idx id ts then_do exit_plans bs idx id ts) a
exit_plans (b ∷ bs) idx id ts a = exit_plans bs idx id ts a

unfoldable pub buffer_tools : List Block → Aggregator → Aggregator
buffer_tools [] a = a
buffer_tools (tool_use_block name input ∷ bs) a = buffer_tools bs (buffer_tool name input a)
buffer_tools (b ∷ bs) a = buffer_tools bs a

abbrev snapshot : Text → Text → Text
snapshot old [] = old
snapshot old (c ∷ new) = c ∷ new

unfoldable pub flush_before_text : Text → Option ℕ → Method
flush_before_text said ts a =
    if not (is_empty said) && not (is_empty a.assistant_buf)
    then (flush_to_message_delta then_do set λ b. record b { last_assistant_ts = ts }) a
    else (a, [])

abbrev pub name_draft : EventId → Aggregator → Aggregator
name_draft id a = if is_pending a then record a { last_event_id = some id } else a

abbrev pub or_stamp : Option ℕ → Option ℕ → Option ℕ
or_stamp (some t) ts = some t
or_stamp none ts = ts

unfoldable pub begin_assistant : ℕ → Option ℕ → Aggregator → Aggregator
begin_assistant idx ts a = record a {
  last_event_idx = idx;
  last_assistant_ts = if is_empty a.assistant_buf then ts else a.last_assistant_ts;
}

unfoldable pub keep_thinking : List Block → Aggregator → Aggregator
keep_thinking blocks a = record a {
  thinking_buf = snapshot a.thinking_buf (extract_thinking_from_message blocks);
}

abbrev pub longer : Text → Aggregator → Aggregator
longer said a = record a { assistant_buf = a.assistant_buf ++ said }

unfoldable pub add_text : Text → EventId → Aggregator → Aggregator
add_text said id a = name_draft id (longer said a)

-- The plans, the tools and the thinking of an assistant event, and then its text.
unfoldable pub gather : List Block → ℕ → EventId → Option ℕ → Method
gather blocks idx id ts =
    set (begin_assistant idx ts)
    then_do exit_plans blocks idx id ts
    then_do set (buffer_tools blocks)
    then_do set (keep_thinking blocks)

unfoldable pub say : Text → EventId → Option ℕ → Method
say said id ts = flush_before_text said ts then_do set (add_text said id)

unfoldable pub feed_assistant : List Block → ℕ → EventId → Option ℕ → Method
feed_assistant blocks idx id ts =
    gather blocks idx id ts
    then_do say (extract_text_from_message blocks) id ts
    then_do stream_delta

unfoldable pub use_tool : Text → ToolInput → ℕ → EventId → Option ℕ → Aggregator → Aggregator
use_tool name input idx id ts a = record (buffer_tool name input a) {
  last_event_idx = idx;
  last_event_id = some id;
  last_assistant_ts = or_stamp a.last_assistant_ts ts;
}

abbrev pub wiser : Text → ℕ → Option ℕ → Aggregator → Aggregator
wiser thought idx ts a = record a {
  last_event_idx = idx;
  thinking_buf = a.thinking_buf ++ thought;
  last_assistant_ts = or_stamp a.last_assistant_ts ts;
}

unfoldable pub think : Text → ℕ → EventId → Option ℕ → Aggregator → Aggregator
think thought idx id ts a = name_draft id (wiser thought idx ts a)

unfoldable pub finish_tool : Value → Bool → ℕ → Aggregator → Aggregator
finish_tool output is_error idx a = record (attach_tool_output output is_error a) {
  last_event_idx = idx;
}

-- The `timestamp` that a handler sets itself, or the one of the event.
abbrev pub note_timestamp : Simple → Option ℕ → Option ℕ
note_timestamp (task_delegated thread invocation backends models created_at) ts =
    or_stamp ts created_at
note_timestamp s ts = ts

unfoldable pub yield_note : Option Note → ℕ → EventId → Option ℕ → Method
yield_note none idx id ts a = (a, [])
yield_note (some note) idx id ts a =
    yield (record { body = note_body note; event_index = idx; id = id; timestamp = ts }) a

unfoldable pub feed_tool_result : Value → Bool → ℕ → Method
feed_tool_result output is_error idx a =
    if is_empty a.tools_buf
    then (a, [])
    else (set (finish_tool output is_error idx) then_do stream_delta) a

unfoldable pub feed_user : Text → List Upload → Bool → ℕ → EventId → Option ℕ → Method
feed_user content uploads is_voice idx id ts =
    let (shown, files) = normalize_user_message_event content uploads in
    flush_to_message_delta
    then_do yield (record {
      body = user_body shown files is_voice;
      event_index = idx;
      id = id;
      timestamp = ts;
    })

abbrev pub id_of : Option ℕ → ℕ → EventId
id_of none idx = legacy idx
id_of (some i) idx = given i

-- `_feed`
unfoldable pub feed_kind : Kind → ℕ → EventId → Option ℕ → Method
feed_kind (user content uploads is_voice) idx id ts = feed_user content uploads is_voice idx id ts
feed_kind (tool_results blocks) idx id ts = set (attach_results blocks) then_do stream_delta
feed_kind (assistant blocks) idx id ts = feed_assistant blocks idx id ts
feed_kind (tool_use name input) idx id ts = set (use_tool name input idx id ts) then_do stream_delta
feed_kind (tool_result output is_error) idx id ts = feed_tool_result output is_error idx
feed_kind (thinking thought) idx id ts = set (think thought idx id ts) then_do stream_delta
feed_kind (simple s) idx id ts =
    flush_to_message_delta then_do yield_note (simple_handler s) idx id (note_timestamp s ts)
feed_kind (system dismissed content) idx id ts =
    if dismissed
    then flush_to_message_delta then_do yield_note (some (Note.system_note content)) idx id ts
    else set (λ a. a)
feed_kind (untyped session) idx id ts = set λ a. a
feed_kind unknown idx id ts = set λ a. a

unfoldable pub feed_at : Event → ℕ → Method
feed_at ev idx = feed_kind ev.kind idx (id_of ev.id idx) ev.timestamp

unfoldable pub feed : Event → Method
feed ev a = feed_at ev (a.idx_offset + a.processed) (record a { processed = suc a.processed })

unfoldable pub feed_all : List Event → Method
feed_all [] a = (a, [])
feed_all (ev ∷ evs) a = (feed ev then_do feed_all evs) a

unfoldable pub feed_indexed : List (ℕ × Event) → Method
feed_indexed [] a = (a, [])
feed_indexed ((idx, ev) ∷ evs) a =
    (set (λ b. record b { processed = suc b.processed })
        then_do feed_at ev (a.idx_offset + idx)
        then_do feed_indexed evs)
      a
