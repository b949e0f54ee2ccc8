-- ===== src/Messages/Quiet.antt =====
-- src/core/message_aggregator.py: the aggregator without stream deltas.
use claude_code_manager.Base.{
  ℕ, suc, ◌≡◌, refl, ap, Bool, true, false, not, ◌&&◌, Option, none, some, List, [], ◌∷◌, ◌++◌, inl,
  inr, Bool-cases, is_empty, Text,
}
use claude_code_manager.Messages.Events.{
  Value, Block, text_block, thinking_block, tool_use_block, exit_plan_mode, tool_result_block,
  other_block,
}
use claude_code_manager.Messages.Notices.{Note, simple_handler}
use claude_code_manager.Messages.Aggregator.{
  Method, Aggregator, Delta, message, stream, Event, EventId, Kind, pending_draft_message,
  is_pending, flush_to_message_delta, stream_delta, buffer_tool, attach_tool_output, set, yield,
  Message, ◌then_do◌,
}
use claude_code_manager.Messages.Feeding.{
  feed, feed_all, feed_at, feed_kind, feed_user, feed_tool_result, feed_assistant, exit_plan,
  exit_plans, buffer_tools, attach_results, name_draft, begin_assistant, keep_thinking, add_text,
  gather, say, use_tool, think, finish_tool, longer, wiser, flush_before_text, yield_note,
}

-- The finalized messages among the deltas.
abbrev pub committed : List Delta → List Delta
committed [] = []
committed (message m ∷ ds) = message m ∷ committed ds
committed (stream m ∷ ds) = committed ds

abbrev pub quiet : Aggregator → Aggregator
quiet a = record a { emit_stream_deltas = false }

-- The method does on a quiet aggregator what it does on this one, but for the stream deltas.
abbrev pub IsQuiet : Method → Type 0
IsQuiet m = (a : Aggregator) → m (quiet a) ≡ (quiet (m a).0, committed (m a).1)

committed-append : (ds es : List Delta) → committed (ds ++ es) ≡ committed ds ++ committed es
committed-append [] es = refl
committed-append (message m ∷ ds) es = ap (◌∷◌ (message m)) (committed-append ds es)
committed-append (stream m ∷ ds) es = committed-append ds es

then_do-IsQuiet : (m n : Method) → IsQuiet m → IsQuiet n → IsQuiet (m then_do n)
unfolding ◌then_do◌
then_do-IsQuiet m n hm hn a = rw (hm a, hn (m a).0, committed-append (m a).1 (n (m a).0).1) refl

set-IsQuiet :
    (f : Aggregator → Aggregator) → ((a : Aggregator) → f (quiet a) ≡ quiet (f a)) → IsQuiet (set f)
unfolding set
set-IsQuiet f h a = rw (h a) refl

yield-IsQuiet : (m : Message) → IsQuiet (yield m)
unfolding yield
yield-IsQuiet m a = refl

flush-IsQuiet : IsQuiet flush_to_message_delta
unfolding flush_to_message_delta pending_draft_message
flush-IsQuiet a = elim (Bool-cases (is_pending a)) [
  | inl p ↦ rw (p, flush_to_message_delta) refl
  | inr p ↦ rw (p, flush_to_message_delta) refl
]

stream_delta-IsQuiet : IsQuiet stream_delta
unfolding stream_delta pending_draft_message
stream_delta-IsQuiet a = elim (Bool-cases a.emit_stream_deltas) [
  | inl e ↦ elim (Bool-cases (is_pending a)) [ inl p ↦ rw (e, p) refl | inr p ↦ rw (e, p) refl ]
  | inr e ↦ rw e refl
]

exit_plan-IsQuiet :
    (plan : Text) (idx : ℕ) (id : EventId) (ts : Option ℕ) → IsQuiet (exit_plan plan idx id ts)
unfolding exit_plan
exit_plan-IsQuiet [] idx id ts a = elim (Bool-cases (is_empty a.assistant_buf)) [
  | inl p ↦ rw p refl
  | inr p ↦ rw p refl
]
exit_plan-IsQuiet (c ∷ plan) idx id ts a = then_do-IsQuiet _ _ flush-IsQuiet (yield-IsQuiet _) a

exit_plans-IsQuiet :
    (bs : List Block) (idx : ℕ) (id : EventId) (ts : Option ℕ) → IsQuiet (exit_plans bs idx id ts)
unfolding exit_plans
exit_plans-IsQuiet [] idx id ts a = refl
exit_plans-IsQuiet (exit_plan_mode plan ∷ bs) idx id ts a =
    then_do-IsQuiet _ _ (exit_plan-IsQuiet plan idx id ts) (exit_plans-IsQuiet bs idx id ts) a
exit_plans-IsQuiet (text_block t ∷ bs) idx id ts a = exit_plans-IsQuiet bs idx id ts a
exit_plans-IsQuiet (thinking_block t ∷ bs) idx id ts a = exit_plans-IsQuiet bs idx id ts a
exit_plans-IsQuiet (tool_use_block n i ∷ bs) idx id ts a = exit_plans-IsQuiet bs idx id ts a
exit_plans-IsQuiet (tool_result_block o e ∷ bs) idx id ts a = exit_plans-IsQuiet bs idx id ts a
exit_plans-IsQuiet (other_block ∷ bs) idx id ts a = exit_plans-IsQuiet bs idx id ts a

buffer_tools-quiet :
    (bs : List Block) (a : Aggregator) → buffer_tools bs (quiet a) ≡ quiet (buffer_tools bs a)
unfolding buffer_tools buffer_tool
buffer_tools-quiet [] a = refl
buffer_tools-quiet (tool_use_block n i ∷ bs) a = buffer_tools-quiet bs (buffer_tool n i a)
buffer_tools-quiet (text_block t ∷ bs) a = buffer_tools-quiet bs a
buffer_tools-quiet (thinking_block t ∷ bs) a = buffer_tools-quiet bs a
buffer_tools-quiet (exit_plan_mode plan ∷ bs) a = buffer_tools-quiet bs a
buffer_tools-quiet (tool_result_block o e ∷ bs) a = buffer_tools-quiet bs a
buffer_tools-quiet (other_block ∷ bs) a = buffer_tools-quiet bs a

attach_results-quiet :
    (bs : List Block) (a : Aggregator) → attach_results bs (quiet a) ≡ quiet (attach_results bs a)
unfolding attach_results attach_tool_output
attach_results-quiet [] a = refl
attach_results-quiet (tool_result_block o e ∷ bs) a =
    attach_results-quiet bs (attach_tool_output o e a)
attach_results-quiet (text_block t ∷ bs) a = attach_results-quiet bs a
attach_results-quiet (thinking_block t ∷ bs) a = attach_results-quiet bs a
attach_results-quiet (exit_plan_mode plan ∷ bs) a = attach_results-quiet bs a
attach_results-quiet (tool_use_block n i ∷ bs) a = attach_results-quiet bs a
attach_results-quiet (other_block ∷ bs) a = attach_results-quiet bs a

name_draft-quiet :
    (id : EventId) (a : Aggregator) → name_draft id (quiet a) ≡ quiet (name_draft id a)
name_draft-quiet id a = elim (Bool-cases (is_pending a)) [ inl p ↦ rw p refl | inr p ↦ rw p refl ]

flush_before_text-IsQuiet : (said : Text) (ts : Option ℕ) → IsQuiet (flush_before_text said ts)
unfolding flush_before_text
flush_before_text-IsQuiet said ts a =
    elim (Bool-cases (not (is_empty said) && not (is_empty a.assistant_buf))) [
      | inl p ↦ rw p (then_do-IsQuiet _ _ flush-IsQuiet (set-IsQuiet _ (λ b. refl)) a)
      | inr p ↦ rw p refl
    ]

gather-IsQuiet :
    (bs : List Block) (idx : ℕ) (id : EventId) (ts : Option ℕ) → IsQuiet (gather bs idx id ts)
unfolding gather begin_assistant keep_thinking
gather-IsQuiet bs idx id ts =
    then_do-IsQuiet _ (set (keep_thinking bs))
      (then_do-IsQuiet _ (set (buffer_tools bs))
        (then_do-IsQuiet (set (begin_assistant idx ts)) (exit_plans bs idx id ts)
          (set-IsQuiet (begin_assistant idx ts) (λ a. refl)) (exit_plans-IsQuiet bs idx id ts))
        (set-IsQuiet (buffer_tools bs) (buffer_tools-quiet bs)))
      (set-IsQuiet (keep_thinking bs) (λ a. refl))

say-IsQuiet : (said : Text) (id : EventId) (ts : Option ℕ) → IsQuiet (say said id ts)
unfolding say add_text
say-IsQuiet said id ts =
    then_do-IsQuiet (flush_before_text said ts) (set (add_text said id))
      (flush_before_text-IsQuiet said ts)
      (set-IsQuiet (add_text said id) (λ a. name_draft-quiet id (longer said a)))

feed_assistant-IsQuiet :
    (bs : List Block) (idx : ℕ) (id : EventId) (ts : Option ℕ)
    → IsQuiet (feed_assistant bs idx id ts)
unfolding feed_assistant
feed_assistant-IsQuiet bs idx id ts =
    then_do-IsQuiet _ stream_delta
      (then_do-IsQuiet _ _ (gather-IsQuiet bs idx id ts) (say-IsQuiet _ id ts)) stream_delta-IsQuiet

yield_note-IsQuiet :
    (n : Option Note) (idx : ℕ) (id : EventId) (ts : Option ℕ) → IsQuiet (yield_note n idx id ts)
unfolding yield_note yield
yield_note-IsQuiet none idx id ts a = refl
yield_note-IsQuiet (some n) idx id ts a = refl

feed_tool_result-IsQuiet : (o : Value) (e : Bool) (idx : ℕ) → IsQuiet (feed_tool_result o e idx)
unfolding feed_tool_result finish_tool attach_tool_output
feed_tool_result-IsQuiet o e idx a = elim (Bool-cases (is_empty a.tools_buf)) [
  | inl p ↦ rw p refl
  | inr p ↦ rw p (then_do-IsQuiet _ _ (set-IsQuiet _ (λ b. refl)) stream_delta-IsQuiet a)
]

feed_kind-IsQuiet :
    (k : Kind) (idx : ℕ) (id : EventId) (ts : Option ℕ) → IsQuiet (feed_kind k idx id ts)
unfolding feed_kind feed_user use_tool buffer_tool think
feed_kind-IsQuiet (Kind.user c us v) idx id ts = then_do-IsQuiet _ _ flush-IsQuiet (yield-IsQuiet _)
feed_kind-IsQuiet (Kind.tool_results bs) idx id ts =
    then_do-IsQuiet _ _ (set-IsQuiet _ (attach_results-quiet bs)) stream_delta-IsQuiet
feed_kind-IsQuiet (Kind.assistant bs) idx id ts = feed_assistant-IsQuiet bs idx id ts
feed_kind-IsQuiet (Kind.tool_use n i) idx id ts =
    then_do-IsQuiet _ _ (set-IsQuiet _ (λ a. refl)) stream_delta-IsQuiet
feed_kind-IsQuiet (Kind.tool_result o e) idx id ts = feed_tool_result-IsQuiet o e idx
feed_kind-IsQuiet (Kind.thinking t) idx id ts =
    then_do-IsQuiet _ _ (set-IsQuiet _ (λ a. name_draft-quiet id (wiser t idx ts a)))
      stream_delta-IsQuiet
feed_kind-IsQuiet (Kind.simple s) idx id ts =
    then_do-IsQuiet _ _ flush-IsQuiet (yield_note-IsQuiet (simple_handler s) idx id _)
feed_kind-IsQuiet (Kind.system true c) idx id ts =
    then_do-IsQuiet _ _ flush-IsQuiet (yield_note-IsQuiet (some _) idx id ts)
feed_kind-IsQuiet (Kind.system false c) idx id ts = set-IsQuiet _ (λ a. refl)
feed_kind-IsQuiet (Kind.untyped s) idx id ts = set-IsQuiet _ (λ a. refl)
feed_kind-IsQuiet Kind.unknown idx id ts = set-IsQuiet _ (λ a. refl)

feed-IsQuiet : (ev : Event) → IsQuiet (feed ev)
unfolding feed feed_at
feed-IsQuiet ev a =
    feed_kind-IsQuiet ev.kind _ _ ev.timestamp (record a { processed = suc a.processed })

-- An aggregator that is told to leave out the stream deltas yields, for any events, the same
-- messages as one in the same state that is not, and comes to the same state.
pub feed_all-quiet :
    (evs : List Event) (a : Aggregator)
    → feed_all evs (quiet a) ≡ (quiet (feed_all evs a).0, committed (feed_all evs a).1)
unfolding feed_all
feed_all-quiet [] a = refl
feed_all-quiet (ev ∷ evs) a =
    then_do-IsQuiet (feed ev) (feed_all evs) (feed-IsQuiet ev) (feed_all-quiet evs) a
