-- ===== src/Messages/Walking.antt =====
-- src/core/message_aggregator.py: what holds of every step of the aggregator holds of a feed.
use claude_code_manager.Base.{
  ℕ, suc, ◌+◌, ◌≡◌, refl, Bool, true, false, Option, none, some, List, [], ◌∷◌, Text, is_empty,
  Bool-cases, inl, inr, not, ◌&&◌,
}
use claude_code_manager.Messages.Events.{
  Value, ToolInput, Block, text_block, thinking_block, tool_use_block, exit_plan_mode,
  tool_result_block, other_block, extract_text_from_message,
}
use claude_code_manager.Messages.Uploads.{FileRef}
use claude_code_manager.Messages.Notices.{Note, simple_handler}
use claude_code_manager.Messages.Aggregator.{
  Method, Aggregator, Delta, Message, Event, EventId, Kind, user_body, note_body,
  flush_to_message_delta, stream_delta, set, yield, ◌then_do◌,
}
use claude_code_manager.Messages.Feeding.{
  feed, feed_all, feed_at, feed_kind, feed_user, feed_tool_result, feed_assistant, exit_plan,
  exit_plans, buffer_tools, attach_results, begin_assistant, keep_thinking, add_text, gather, say,
  use_tool, think, finish_tool, flush_before_text, yield_note, id_of,
}

module _ (Q : Aggregator → Aggregator × List Delta → Type 0) where
  abbrev pub Holds : Method → Type 0
  Holds m = (a : Aggregator) → Q a (m a)

  -- What a property of steps has to say of the single ones.
  pub record Steps : Type 0 where
    pub chain : (m n : Method) → Holds m → Holds n → Holds (m then_do n)
    pub stay : (a : Aggregator) → Q a (a, [])
    pub flush : Holds flush_to_message_delta
    pub streams : Holds stream_delta
    pub plans :
        (plan : Text) (idx : ℕ) (id : EventId) (ts : Option ℕ) → Holds (exit_plan plan idx id ts)
    pub begins : (idx : ℕ) (ts : Option ℕ) → Holds (set (begin_assistant idx ts))
    pub buffers : (bs : List Block) → Holds (set (buffer_tools bs))
    pub keeps : (bs : List Block) → Holds (set (keep_thinking bs))
    pub restamps : (ts : Option ℕ) → Holds (set λ a. record a { last_assistant_ts = ts })
    pub texts : (said : Text) (id : EventId) → Holds (set (add_text said id))
    pub uses :
        (name : Text) (i : ToolInput) (idx : ℕ) (id : EventId) (ts : Option ℕ)
        → Holds (set (use_tool name i idx id ts))
    pub thinks :
        (s : Text) (idx : ℕ) (id : EventId) (ts : Option ℕ) → Holds (set (think s idx id ts))
    pub finishes : (o : Value) (e : Bool) (idx : ℕ) → Holds (set (finish_tool o e idx))
    pub results : (bs : List Block) → Holds (set (attach_results bs))
    pub users :
        (m : Message) (c : Text) (fs : List FileRef) (v : Bool)
        → m.body ≡ user_body c fs v
        → Holds (yield m)
    pub notes : (m : Message) (n : Note) → m.body ≡ note_body n → Holds (yield m)
    pub counts : Holds (set λ a. record a { processed = suc a.processed })

  module _ (steps : Steps) where
    exit_plans-Holds :
        (bs : List Block) (idx : ℕ) (id : EventId) (ts : Option ℕ) → Holds (exit_plans bs idx id ts)
    unfolding exit_plans
    exit_plans-Holds [] idx id ts a = steps.stay a
    exit_plans-Holds (exit_plan_mode plan ∷ bs) idx id ts a =
        steps.chain (exit_plan plan idx id ts) (exit_plans bs idx id ts)
          (steps.plans plan idx id ts) (exit_plans-Holds bs idx id ts) a
    exit_plans-Holds (text_block s ∷ bs) idx id ts a = exit_plans-Holds bs idx id ts a
    exit_plans-Holds (thinking_block s ∷ bs) idx id ts a = exit_plans-Holds bs idx id ts a
    exit_plans-Holds (tool_use_block n i ∷ bs) idx id ts a = exit_plans-Holds bs idx id ts a
    exit_plans-Holds (tool_result_block o e ∷ bs) idx id ts a = exit_plans-Holds bs idx id ts a
    exit_plans-Holds (other_block ∷ bs) idx id ts a = exit_plans-Holds bs idx id ts a

    gather-Holds :
        (bs : List Block) (idx : ℕ) (id : EventId) (ts : Option ℕ) → Holds (gather bs idx id ts)
    unfolding gather
    gather-Holds bs idx id ts =
        steps.chain _ (set (keep_thinking bs))
          (steps.chain _ (set (buffer_tools bs))
            (steps.chain (set (begin_assistant idx ts)) (exit_plans bs idx id ts)
              (steps.begins idx ts) (exit_plans-Holds bs idx id ts))
            (steps.buffers bs))
          (steps.keeps bs)

    flush_before_text-Holds : (said : Text) (ts : Option ℕ) → Holds (flush_before_text said ts)
    unfolding flush_before_text
    flush_before_text-Holds said ts a =
        elim (Bool-cases (not (is_empty said) && not (is_empty a.assistant_buf))) [
          | inl p ↦ rw p (steps.chain flush_to_message_delta _ steps.flush (steps.restamps ts) a)
          | inr p ↦ rw p (steps.stay a)
        ]

    feed_assistant-Holds :
        (bs : List Block) (idx : ℕ) (id : EventId) (ts : Option ℕ)
        → Holds (feed_assistant bs idx id ts)
    unfolding feed_assistant say
    feed_assistant-Holds bs idx id ts =
        let said = extract_text_from_message bs in
        steps.chain _ stream_delta
          (steps.chain (gather bs idx id ts) (say said id ts) (gather-Holds bs idx id ts) (
            steps.chain (flush_before_text said ts) (set (add_text said id))
              (flush_before_text-Holds said ts) (steps.texts said id)))
          steps.streams

    yield_note-Holds :
        (n : Option Note) (idx : ℕ) (id : EventId) (ts : Option ℕ) → Holds (yield_note n idx id ts)
    unfolding yield_note
    yield_note-Holds none idx id ts a = steps.stay a
    yield_note-Holds (some n) idx id ts a = steps.notes _ n refl a

    feed_tool_result-Holds : (o : Value) (e : Bool) (idx : ℕ) → Holds (feed_tool_result o e idx)
    unfolding feed_tool_result
    feed_tool_result-Holds o e idx a = elim (Bool-cases (is_empty a.tools_buf)) [
      | inl p ↦ rw p (steps.stay a)
      | inr p ↦ rw p (
          steps.chain (set (finish_tool o e idx)) stream_delta (steps.finishes o e idx)
            steps.streams a)
    ]

    feed_kind-Holds :
        (k : Kind) (idx : ℕ) (id : EventId) (ts : Option ℕ) → Holds (feed_kind k idx id ts)
    unfolding feed_kind feed_user set
    feed_kind-Holds (Kind.user c us v) idx id ts a =
        steps.chain flush_to_message_delta _ steps.flush (steps.users _ _ _ v refl) a
    feed_kind-Holds (Kind.tool_results bs) idx id ts a =
        steps.chain (set (attach_results bs)) stream_delta (steps.results bs) steps.streams a
    feed_kind-Holds (Kind.assistant bs) idx id ts a = feed_assistant-Holds bs idx id ts a
    feed_kind-Holds (Kind.tool_use n i) idx id ts a =
        steps.chain (set (use_tool n i idx id ts)) stream_delta (steps.uses n i idx id ts)
          steps.streams a
    feed_kind-Holds (Kind.tool_result o e) idx id ts a = feed_tool_result-Holds o e idx a
    feed_kind-Holds (Kind.thinking s) idx id ts a =
        steps.chain (set (think s idx id ts)) stream_delta (steps.thinks s idx id ts) steps.streams
          a
    feed_kind-Holds (Kind.simple s) idx id ts a =
        steps.chain flush_to_message_delta _ steps.flush
          (yield_note-Holds (simple_handler s) idx id _) a
    feed_kind-Holds (Kind.system true c) idx id ts a =
        steps.chain flush_to_message_delta _ steps.flush (yield_note-Holds (some _) idx id ts) a
    feed_kind-Holds (Kind.system false c) idx id ts a = steps.stay a
    feed_kind-Holds (Kind.untyped s) idx id ts a = steps.stay a
    feed_kind-Holds Kind.unknown idx id ts a = steps.stay a

    feed-Holds : (ev : Event) → Holds (feed ev)
    unfolding feed feed_at set ◌then_do◌
    feed-Holds ev a =
        let idx = a.idx_offset + a.processed in
        steps.chain (set λ b. record b { processed = suc b.processed })
          (feed_kind ev.kind idx (id_of ev.id idx) ev.timestamp) steps.counts
          (feed_kind-Holds ev.kind idx (id_of ev.id idx) ev.timestamp) a

    pub feed_all-Holds : (evs : List Event) → Holds (feed_all evs)
    unfolding feed_all
    feed_all-Holds [] a = steps.stay a
    feed_all-Holds (ev ∷ evs) a =
        steps.chain (feed ev) (feed_all evs) (feed-Holds ev) (feed_all-Holds evs) a
