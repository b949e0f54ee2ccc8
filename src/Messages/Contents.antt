-- ===== src/Messages/Contents.antt =====
-- src/core/message_aggregator.py: the text and the tools of the agent, from the events to the
-- messages.
use claude_code_manager.Base.{
  ℕ, ◌≡◌, refl, ap, ◌∙◌, sym, Bool, false, Option, List, [], ◌∷◌, ◌++◌, append-nil, map, map-append,
  Text, Bool-cases, inl, inr, is_empty, not, ◌&&◌,
}
use claude_code_manager.Messages.Events.{
  Tool, ToolInput, Value, Block, text_block, thinking_block, tool_use_block, exit_plan_mode,
  tool_result_block, other_block, tool_preview,
}
use claude_code_manager.Messages.Aggregator.{
  EventId, Aggregator, Delta, message, stream, Message, Body, assistant_body, plan_body, Event,
  new_aggregator, flush_to_message_delta, pending_draft_message, is_pending, stream_delta,
  buffer_tool, attach_tool_output, attach_to_last, ◌then_do◌, yield,
}
use claude_code_manager.Messages.Feeding.{
  feed_all, name_draft, exit_plan, attach_results, begin_assistant, keep_thinking, add_text,
  use_tool, think, finish_tool, longer, wiser,
}
use claude_code_manager.Messages.Conservation.{
  Tally, Laws, shown_all, of_events, Conserves, Adds, feed_all-Conserves, then_do-Conserves,
  yield-Conserves,
}

abbrev body_text : Body → Text
body_text (assistant_body content tools thought) = content
body_text (plan_body plan) = plan
body_text b = []

abbrev body_tools : Body → List Text
body_tools (assistant_body content tools thought) = map (λ t. t.name) tools
body_tools b = []

abbrev in_message {ℓ} : {X : Type ℓ} → (Body → List X) → Delta → List X
in_message f (message m) = f m.body
in_message f (stream m) = []

-- The text of the agent: in its messages and plans, and in its events.
abbrev pub text_tally : Tally ℕ
text_tally = record {
  held = λ a. a.assistant_buf;
  shown = in_message body_text;
  of_plan = λ plan. plan;
  of_tool = λ name. [];
  of_text = λ s. s;
}

-- The names of the tools that the agent uses.
abbrev pub tool_tally : Tally Text
tool_tally = record {
  held = λ a. map (λ t. t.name) a.tools_buf;
  shown = in_message body_tools;
  of_plan = λ plan. [];
  of_tool = λ name. name ∷ [];
  of_text = λ s. [];
}

none_left {ℓ κ μ} :
    {A : Type ℓ} {B : Type κ} {C : Type μ} (xs : List A) (ys : List B) (zs : List C)
    → not (is_empty xs && is_empty ys && is_empty zs) ≡ false
    → (xs ≡ []) × (ys ≡ [])
none_left [] [] zs h = (refl, refl)
none_left [] (y ∷ ys) zs h = cc
none_left (x ∷ xs) ys zs h = cc

not_pending : (a : Aggregator) → is_pending a ≡ false → (a.assistant_buf ≡ []) × (a.tools_buf ≡ [])
not_pending a = none_left a.assistant_buf a.tools_buf a.thinking_buf

text-flush : Conserves text_tally flush_to_message_delta []
unfolding flush_to_message_delta pending_draft_message
text-flush a = elim (Bool-cases (is_pending a)) [
  | inl p ↦ rw (p, flush_to_message_delta) (append-nil (a.assistant_buf ++ []))
  | inr p ↦ rw (p, flush_to_message_delta) (sym (append-nil a.assistant_buf))
]

tool-flush : Conserves tool_tally flush_to_message_delta []
unfolding flush_to_message_delta pending_draft_message
tool-flush a = elim (Bool-cases (is_pending a)) [
  | inl p ↦
      rw (p, flush_to_message_delta) (append-nil (map (λ (t : Tool). t.name) a.tools_buf ++ []))
  | inr p ↦
      rw (p, flush_to_message_delta) (sym (append-nil (map (λ (t : Tool). t.name) a.tools_buf)))
]

text-plan :
    (plan : Text) (idx : ℕ) (id : EventId) (ts : Option ℕ)
    → Conserves text_tally (exit_plan plan idx id ts) plan
unfolding exit_plan flush_to_message_delta pending_draft_message ◌then_do◌ yield
text-plan [] idx id ts a = elim (Bool-cases (is_empty a.assistant_buf)) [
  | inl p ↦ rw p (sym (append-nil a.assistant_buf))
  | inr p ↦ rw p (append-nil (a.assistant_buf ++ []))
]
text-plan (c ∷ plan) idx id ts a = elim (Bool-cases (is_pending a)) [
  | inl p ↦ rw (p, flush_to_message_delta) (simp append-nil)
  | inr p ↦ rw (p, (not_pending a p).0, flush_to_message_delta) (simp append-nil)
]

tool-plan :
    (plan : Text) (idx : ℕ) (id : EventId) (ts : Option ℕ)
    → Conserves tool_tally (exit_plan plan idx id ts) []
unfolding exit_plan ◌then_do◌ yield
tool-plan [] idx id ts a = elim (Bool-cases (is_empty a.assistant_buf)) [
  | inl p ↦ rw p (sym (append-nil (map (λ (t : Tool). t.name) a.tools_buf)))
  | inr p ↦ rw p (sym (append-nil (map (λ (t : Tool). t.name) a.tools_buf)))
]
tool-plan (c ∷ plan) idx id ts a =
    let m : Message = record {
      body = plan_body (c ∷ plan);
      event_index = idx;
      id = id;
      timestamp = ts;
    } in
    then_do-Conserves tool_tally flush_to_message_delta (yield m) [] [] tool-flush
      (yield-Conserves tool_tally m refl) a

-- The draft's name and its stamps leave what is held.
text-name_draft :
    (id : EventId) (a : Aggregator) → (name_draft id a).assistant_buf ≡ a.assistant_buf
text-name_draft id a = elim (Bool-cases (is_pending a)) [ inl p ↦ rw p refl | inr p ↦ rw p refl ]

tool-name_draft : (id : EventId) (a : Aggregator) → (name_draft id a).tools_buf ≡ a.tools_buf
tool-name_draft id a = elim (Bool-cases (is_pending a)) [ inl p ↦ rw p refl | inr p ↦ rw p refl ]

text-results : (bs : List Block) → Adds text_tally (attach_results bs) []
unfolding attach_results attach_tool_output
text-results [] a = sym (append-nil a.assistant_buf)
text-results (tool_result_block o e ∷ bs) a = text-results bs (attach_tool_output o e a)
text-results (text_block s ∷ bs) a = text-results bs a
text-results (thinking_block s ∷ bs) a = text-results bs a
text-results (exit_plan_mode plan ∷ bs) a = text-results bs a
text-results (tool_use_block n i ∷ bs) a = text-results bs a
text-results (other_block ∷ bs) a = text-results bs a

text-stream : Conserves text_tally stream_delta []
unfolding stream_delta pending_draft_message
text-stream a = elim (Bool-cases a.emit_stream_deltas) [
  | inl e ↦ elim (Bool-cases (is_pending a)) [
    | inl p ↦ rw (e, p) (sym (append-nil a.assistant_buf))
    | inr p ↦ rw (e, p) (sym (append-nil a.assistant_buf))
  ]
  | inr e ↦ rw e (sym (append-nil a.assistant_buf))
]

text_laws : Laws text_tally
unfolding stream_delta add_text buffer_tool use_tool think finish_tool begin_assistant keep_thinking
    attach_tool_output
text_laws = record {
  flush_law = text-flush;
  stream_law = text-stream;
  plan_law = text-plan;
  buffer_law = λ name i a. sym (append-nil a.assistant_buf);
  text_law = λ said id a. text-name_draft id (longer said a);
  use_law = λ name i idx id ts a. sym (append-nil a.assistant_buf);
  begin_law = λ idx ts a. sym (append-nil a.assistant_buf);
  keep_law = λ bs a. sym (append-nil a.assistant_buf);
  think_law =
      λ s idx id ts a. text-name_draft id (wiser s idx ts a) ∙ sym (append-nil a.assistant_buf);
  finish_law = λ o e idx a. sym (append-nil a.assistant_buf);
  results_law = text-results;
  restamp_law = λ ts a. sym (append-nil a.assistant_buf);
  count_law = λ a. sym (append-nil a.assistant_buf);
  user_law = λ m c fs v h. rw h refl;
  note_law = λ m n h. rw h refl;
}

abbrev names : List Tool → List Text
names ts = map (λ (t : Tool). t.name) ts

names-attach_to_last :
    (o : Value) (e : Bool) (ts : List Tool) → names (attach_to_last o e ts) ≡ names ts
unfolding attach_to_last tool_preview
names-attach_to_last o e [] = refl
names-attach_to_last o e (t ∷ []) = refl
names-attach_to_last o e (t ∷ u ∷ ts) = ap (◌∷◌ t.name) (names-attach_to_last o e (u ∷ ts))

tool-results : (bs : List Block) → Adds tool_tally (attach_results bs) []
unfolding attach_results attach_tool_output
tool-results [] a = sym (append-nil (names a.tools_buf))
tool-results (tool_result_block o e ∷ bs) a =
    tool-results bs (attach_tool_output o e a)
    ∙ ap (λ ns. ns ++ []) (names-attach_to_last o e a.tools_buf)
tool-results (text_block s ∷ bs) a = tool-results bs a
tool-results (thinking_block s ∷ bs) a = tool-results bs a
tool-results (exit_plan_mode plan ∷ bs) a = tool-results bs a
tool-results (tool_use_block n i ∷ bs) a = tool-results bs a
tool-results (other_block ∷ bs) a = tool-results bs a

tool-buffer : (name : Text) (i : ToolInput) → Adds tool_tally (buffer_tool name i) (name ∷ [])
unfolding buffer_tool tool_preview
tool-buffer name i a = map-append (λ (t : Tool). t.name) a.tools_buf _

tool-stream : Conserves tool_tally stream_delta []
unfolding stream_delta pending_draft_message
tool-stream a = elim (Bool-cases a.emit_stream_deltas) [
  | inl e ↦ elim (Bool-cases (is_pending a)) [
    | inl p ↦ rw (e, p) (sym (append-nil (names a.tools_buf)))
    | inr p ↦ rw (e, p) (sym (append-nil (names a.tools_buf)))
  ]
  | inr e ↦ rw e (sym (append-nil (names a.tools_buf)))
]

tool_laws : Laws tool_tally
unfolding stream_delta add_text use_tool think finish_tool begin_assistant keep_thinking
    attach_tool_output
tool_laws = record {
  flush_law = tool-flush;
  stream_law = tool-stream;
  plan_law = tool-plan;
  buffer_law = tool-buffer;
  text_law = λ said id a.
      ap names (tool-name_draft id (longer said a)) ∙ sym (append-nil (names a.tools_buf));
  use_law = λ name i idx id ts a. tool-buffer name i a;
  begin_law = λ idx ts a. sym (append-nil (names a.tools_buf));
  keep_law = λ bs a. sym (append-nil (names a.tools_buf));
  think_law = λ s idx id ts a.
      ap names (tool-name_draft id (wiser s idx ts a)) ∙ sym (append-nil (names a.tools_buf));
  finish_law =
      λ o e idx a. names-attach_to_last o e a.tools_buf ∙ sym (append-nil (names a.tools_buf));
  results_law = tool-results;
  restamp_law = λ ts a. sym (append-nil (names a.tools_buf));
  count_law = λ a. sym (append-nil (names a.tools_buf));
  user_law = λ m c fs v h. rw h refl;
  note_law = λ m n h. rw h refl;
}

-- All the deltas of a complete history, the flush at its end included.
abbrev pub history : List Event → Aggregator → List Delta
history evs a = ((feed_all evs then_do flush_to_message_delta) a).1

flush-empties :
    (a : Aggregator)
    → let b = (flush_to_message_delta a).0 in (b.assistant_buf ≡ []) × (names b.tools_buf ≡ [])
unfolding flush_to_message_delta pending_draft_message
flush-empties a = elim (Bool-cases (is_pending a)) [
  | inl p ↦ rw (p, flush_to_message_delta) (refl, refl)
  | inr p ↦ rw (p, flush_to_message_delta) ((not_pending a p).0, ap names (not_pending a p).1)
]

history-tally :
    {X : Type 0} (t : Tally X) (laws : Laws t) (evs : List Event) (offset : ℕ) (emit : Bool)
    → t.held (new_aggregator offset emit) ≡ []
    → t.held ((feed_all evs then_do flush_to_message_delta) (new_aggregator offset emit)).0 ≡ []
    → shown_all t (history evs (new_aggregator offset emit)) ≡ of_events t evs
history-tally t laws evs offset emit start end =
    let a = new_aggregator offset emit in
    let kept =
      then_do-Conserves t (feed_all evs) flush_to_message_delta (of_events t evs) []
        (feed_all-Conserves t laws evs) laws.flush_law a in
    sym (append-nil (shown_all t (history evs a)))
    ∙ ap (λ z. shown_all t (history evs a) ++ z) (sym end)
    ∙ kept
    ∙ ap (λ z. z ++ (of_events t evs ++ [])) start
    ∙ append-nil (of_events t evs)

-- Over a complete history, live or not, the text of the agent's messages and plans is the text of
-- its events, plans included, in order, nothing lost and nothing twice; and the tools that its
-- messages show are the tools that its events use, in order, each once.
pub history-conserves :
    (evs : List Event) (offset : ℕ) (emit : Bool)
    → let deltas = history evs (new_aggregator offset emit) in
      (shown_all text_tally deltas ≡ of_events text_tally evs)
      × (shown_all tool_tally deltas ≡ of_events tool_tally evs)
unfolding ◌then_do◌
history-conserves evs offset emit = (
  history-tally text_tally text_laws evs offset emit refl
      (flush-empties (feed_all evs (new_aggregator offset emit)).0).0,
  history-tally tool_tally tool_laws evs offset emit refl
      (flush-empties (feed_all evs (new_aggregator offset emit)).0).1,
)
