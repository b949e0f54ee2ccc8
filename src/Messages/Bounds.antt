-- ===== src/Messages/Bounds.antt =====
-- src/core/message_aggregator.py: no delta shows more of a tool than the preview.
use claude_code_manager.Base.{
  ℕ, ◌≤◌, ◌≡◌, refl, Bool, true, false, Option, List, [], ◌∷◌, map, Text, Bool-cases, inl, inr,
  length, is_empty, All, All-append, ltb_false→le, ◌||◌,
}
use claude_code_manager.Messages.Events.{
  Tool, ToolInput, fields, no_dict, Value, text, opaque, tool_preview, tool_preview_chars, trims,
  any_trims, Block, text_block, thinking_block, tool_use_block, exit_plan_mode, tool_result_block,
  other_block,
}
use claude_code_manager.Messages.Aggregator.{
  Aggregator, Delta, message, stream, Message, Body, assistant_body, plan_body, Event, EventId,
  Method, new_aggregator, flush_to_message_delta, pending_draft_message, is_pending, stream_delta,
  buffer_tool, attach_tool_output, attach_to_last, set, yield, ◌then_do◌,
}
use claude_code_manager.Messages.Feeding.{
  feed_all, exit_plan, buffer_tools, attach_results, begin_assistant, keep_thinking, add_text,
  use_tool, think, finish_tool, name_draft, longer, wiser,
}
use claude_code_manager.Messages.Previews.{IsBounded, IsShort, IsShortInput, tool_preview-IsBounded}
use claude_code_manager.Messages.Walking.{Holds, Steps, feed_all-Holds}

-- What a delta shows is within the preview.
abbrev pub IsWithin : Value → Type 0
IsWithin (text s) = length s ≤ tool_preview_chars
IsWithin (opaque v) = Unit

abbrev pub IsInputWithin : ToolInput → Type 0
IsInputWithin (fields kvs) = All (λ (kv : Text × Value). IsWithin kv.1) kvs
IsInputWithin (no_dict v) = Unit

abbrev pub IsRowWithin : Tool → Type 0
IsRowWithin t = IsWithin t.output × IsInputWithin t.input

abbrev pub IsBodyWithin : Body → Type 0
IsBodyWithin (assistant_body content tools thought) = All IsRowWithin tools
IsBodyWithin b = Unit

abbrev pub IsDeltaWithin : Delta → Type 0
IsDeltaWithin (message m) = IsBodyWithin m.body
IsDeltaWithin (stream m) = IsBodyWithin m.body

within : (v : Value) → IsShort v → IsWithin v
within (text s) h = ltb_false→le tool_preview_chars (length s) h
within (opaque v) h = tt

neither : (a b : Bool) → (a || b) ≡ false → (a ≡ false) × (b ≡ false)
neither true b h = cc
neither false b h = (refl, h)

fields_within : (kvs : List (Text × Value)) → any_trims kvs ≡ false → IsInputWithin (fields kvs)
fields_within [] h = tt
fields_within ((key, value) ∷ kvs) h =
    let (short, rest) = neither (trims value) (any_trims kvs) h in
    (within value short, fields_within kvs rest)

row_within : (t : Tool) → IsBounded t → IsRowWithin t
row_within t h = (within t.output h.0, go t.input h.1)
  where
    go : (i : ToolInput) → IsShortInput i → IsInputWithin i
    go (fields kvs) h = fields_within kvs h
    go (no_dict v) h = tt

-- Rows within the preview stay so, and the deltas show no others.
abbrev Keeps : Aggregator → Aggregator × List Delta → Type 0
Keeps a r = All IsRowWithin a.tools_buf → All IsRowWithin r.0.tools_buf × All IsDeltaWithin r.1

abbrev preview_row_within : (t : Tool) → IsRowWithin (tool_preview t)
preview_row_within t = row_within (tool_preview t) (tool_preview-IsBounded t)

previews_within : (ts : List Tool) → All IsRowWithin (map tool_preview ts)
previews_within [] = tt
previews_within (t ∷ ts) = (preview_row_within t, previews_within ts)

chain-Keeps : (m n : Method) → Holds Keeps m → Holds Keeps n → Holds Keeps (m then_do n)
unfolding ◌then_do◌
chain-Keeps m n hm hn a h =
    let (h1, d1) = hm a h in
    let (h2, d2) = hn (m a).0 h1 in (h2, All-append IsDeltaWithin (m a).1 (n (m a).0).1 d1 d2)

flush-Keeps : Holds Keeps flush_to_message_delta
unfolding flush_to_message_delta pending_draft_message
flush-Keeps a h = elim (Bool-cases (is_pending a)) [
  | inl p ↦ rw (p, flush_to_message_delta) (tt, (h, tt))
  | inr p ↦ rw (p, flush_to_message_delta) (h, tt)
]

stream-Keeps : Holds Keeps stream_delta
unfolding stream_delta pending_draft_message
stream-Keeps a h = elim (Bool-cases a.emit_stream_deltas) [
  | inl e ↦ elim (Bool-cases (is_pending a)) [
    | inl p ↦ rw (e, p) (h, (previews_within a.tools_buf, tt))
    | inr p ↦ rw (e, p) (h, tt)
  ]
  | inr e ↦ rw e (h, tt)
]

buffer-Keeps :
    (name : Text) (i : ToolInput) (a : Aggregator)
    → All IsRowWithin a.tools_buf
    → All IsRowWithin (buffer_tool name i a).tools_buf
unfolding buffer_tool
buffer-Keeps name i a h = All-append IsRowWithin a.tools_buf _ h (preview_row_within _, tt)

attach_last-Keeps :
    (o : Value) (e : Bool) (ts : List Tool)
    → All IsRowWithin ts
    → All IsRowWithin (attach_to_last o e ts)
unfolding attach_to_last
attach_last-Keeps o e [] h = tt
attach_last-Keeps o e (t ∷ []) h = (preview_row_within _, tt)
attach_last-Keeps o e (t ∷ u ∷ ts) h = (h.0, attach_last-Keeps o e (u ∷ ts) h.1)

buffers-Keeps :
    (bs : List Block) (a : Aggregator)
    → All IsRowWithin a.tools_buf
    → All IsRowWithin (buffer_tools bs a).tools_buf
unfolding buffer_tools
buffers-Keeps [] a h = h
buffers-Keeps (tool_use_block n i ∷ bs) a h =
    buffers-Keeps bs (buffer_tool n i a) (buffer-Keeps n i a h)
buffers-Keeps (text_block s ∷ bs) a h = buffers-Keeps bs a h
buffers-Keeps (thinking_block s ∷ bs) a h = buffers-Keeps bs a h
buffers-Keeps (exit_plan_mode plan ∷ bs) a h = buffers-Keeps bs a h
buffers-Keeps (tool_result_block o e ∷ bs) a h = buffers-Keeps bs a h
buffers-Keeps (other_block ∷ bs) a h = buffers-Keeps bs a h

results-Keeps :
    (bs : List Block) (a : Aggregator)
    → All IsRowWithin a.tools_buf
    → All IsRowWithin (attach_results bs a).tools_buf
unfolding attach_results attach_tool_output
results-Keeps [] a h = h
results-Keeps (tool_result_block o e ∷ bs) a h =
    results-Keeps bs (attach_tool_output o e a) (attach_last-Keeps o e a.tools_buf h)
results-Keeps (text_block s ∷ bs) a h = results-Keeps bs a h
results-Keeps (thinking_block s ∷ bs) a h = results-Keeps bs a h
results-Keeps (exit_plan_mode plan ∷ bs) a h = results-Keeps bs a h
results-Keeps (tool_use_block n i ∷ bs) a h = results-Keeps bs a h
results-Keeps (other_block ∷ bs) a h = results-Keeps bs a h

plan-Keeps :
    (plan : Text) (idx : ℕ) (id : EventId) (ts : Option ℕ) → Holds Keeps (exit_plan plan idx id ts)
unfolding exit_plan ◌then_do◌ yield
plan-Keeps [] idx id ts a h = elim (Bool-cases (is_empty a.assistant_buf)) [
  | inl p ↦ rw p (h, tt)
  | inr p ↦ rw p (h, (tt, tt))
]
plan-Keeps (c ∷ plan) idx id ts a h =
    let m : Message = record {
      body = plan_body (c ∷ plan);
      event_index = idx;
      id = id;
      timestamp = ts;
    } in
    chain-Keeps flush_to_message_delta (yield m) flush-Keeps (λ b g. (g, (tt, tt))) a h

named-Keeps :
    (id : EventId) (a : Aggregator)
    → All IsRowWithin a.tools_buf
    → All IsRowWithin (name_draft id a).tools_buf
named-Keeps id a h = elim (Bool-cases (is_pending a)) [ inl p ↦ rw p h | inr p ↦ rw p h ]

steps-Keeps : Steps Keeps
unfolding set yield begin_assistant keep_thinking add_text use_tool think finish_tool
    attach_tool_output
steps-Keeps = record {
  chain = chain-Keeps;
  stay = λ a h. (h, tt);
  flush = flush-Keeps;
  streams = stream-Keeps;
  plans = plan-Keeps;
  begins = λ idx ts a h. (h, tt);
  buffers = λ bs a h. (buffers-Keeps bs a h, tt);
  keeps = λ bs a h. (h, tt);
  restamps = λ ts a h. (h, tt);
  texts = λ said id a h. (named-Keeps id (longer said a) h, tt);
  uses = λ name i idx id ts a h. (buffer-Keeps name i a h, tt);
  thinks = λ s idx id ts a h. (named-Keeps id (wiser s idx ts a) h, tt);
  finishes = λ o e idx a h. (attach_last-Keeps o e a.tools_buf h, tt);
  results = λ bs a h. (results-Keeps bs a h, tt);
  users = λ m c fs v e a h. (h, (rw e tt, tt));
  notes = λ m n e a h. (h, (rw e tt, tt));
  counts = λ a h. (h, tt);
}

-- Whatever events are fed to a new aggregator, no tool row in any delta, committed or streamed, has
-- an output or a text of its input of more than 500 characters.
pub feed_all-IsDeltaWithin :
    (evs : List Event) (offset : ℕ) (emit : Bool)
    → All IsDeltaWithin (feed_all evs (new_aggregator offset emit)).1
feed_all-IsDeltaWithin evs offset emit =
    (feed_all-Holds Keeps steps-Keeps evs (new_aggregator offset emit) tt).1
