-- ===== src/Messages/Conservation.antt =====
-- src/core/message_aggregator.py: what passes through the aggregator once and in order.
use claude_code_manager.Base.{
  ℕ, suc, ◌≡◌, refl, ap, ◌∙◌, sym, Bool, true, false, Option, none, some, List, [], ◌∷◌, ◌++◌,
  append-nil, append_assoc, Text,
}
use claude_code_manager.Messages.Events.{
  Value, ToolInput, Block, text_block, thinking_block, tool_use_block, exit_plan_mode,
  tool_result_block, other_block, extract_text_from_message,
}
use claude_code_manager.Messages.Uploads.{FileRef}
use claude_code_manager.Messages.Notices.{Note, simple_handler}
use claude_code_manager.Messages.Aggregator.{
  Method, Aggregator, Delta, Message, Event, EventId, Kind, user_body, note_body,
  flush_to_message_delta, stream_delta, buffer_tool, set, yield, ◌then_do◌,
}
use claude_code_manager.Messages.Feeding.{
  feed, feed_all, feed_at, feed_kind, feed_user, feed_tool_result, feed_assistant, exit_plan,
  exit_plans, buffer_tools, attach_results, begin_assistant, keep_thinking, add_text, gather, say,
  use_tool, think, finish_tool, flush_before_text, yield_note,
}
use claude_code_manager.Base.{is_empty, Bool-cases, inl, inr, not, ◌&&◌}

-- What is counted: where an aggregator holds it, where a delta shows it, what an event brings.
pub record Tally (X : Type 0) : Type 0 where
  pub held : Aggregator → List X
  pub shown : Delta → List X
  pub of_plan : Text → List X
  pub of_tool : Text → List X
  pub of_text : Text → List X

module _ {X : Type 0} (t : Tally X) where
  abbrev pub shown_all : List Delta → List X
  shown_all [] = []
  shown_all (d ∷ ds) = t.shown d ++ shown_all ds

  abbrev pub of_plans : List Block → List X
  of_plans [] = []
  of_plans (exit_plan_mode plan ∷ bs) = t.of_plan plan ++ of_plans bs
  of_plans (b ∷ bs) = of_plans bs

  abbrev pub of_tools : List Block → List X
  of_tools [] = []
  of_tools (tool_use_block name input ∷ bs) = t.of_tool name ++ of_tools bs
  of_tools (b ∷ bs) = of_tools bs

  abbrev pub of_kind : Kind → List X
  of_kind (Kind.assistant bs) =
      (of_plans bs ++ of_tools bs) ++ t.of_text (extract_text_from_message bs)
  of_kind (Kind.tool_use name input) = t.of_tool name
  of_kind k = []

  abbrev pub of_events : List Event → List X
  of_events [] = []
  of_events (ev ∷ evs) = of_kind ev.kind ++ of_events evs

  -- What the method shows and then holds is what was held, and behind it what is new.
  abbrev pub Conserves : Method → List X → Type 0
  Conserves m new = (a : Aggregator) → shown_all (m a).1 ++ t.held (m a).0 ≡ t.held a ++ new

  abbrev pub Adds : (Aggregator → Aggregator) → List X → Type 0
  Adds f new = (a : Aggregator) → t.held (f a) ≡ t.held a ++ new

  -- What a tally has to say of the single steps.
  pub record Laws : Type 0 where
    pub flush_law : Conserves flush_to_message_delta []
    pub stream_law : Conserves stream_delta []
    pub plan_law :
        (plan : Text) (idx : ℕ) (id : EventId) (ts : Option ℕ)
        → Conserves (exit_plan plan idx id ts) (t.of_plan plan)
    pub buffer_law : (name : Text) (i : ToolInput) → Adds (buffer_tool name i) (t.of_tool name)
    pub text_law : (said : Text) (id : EventId) → Adds (add_text said id) (t.of_text said)
    pub use_law :
        (name : Text) (i : ToolInput) (idx : ℕ) (id : EventId) (ts : Option ℕ)
        → Adds (use_tool name i idx id ts) (t.of_tool name)
    pub begin_law : (idx : ℕ) (ts : Option ℕ) → Adds (begin_assistant idx ts) []
    pub keep_law : (bs : List Block) → Adds (keep_thinking bs) []
    pub think_law :
        (s : Text) (idx : ℕ) (id : EventId) (ts : Option ℕ) → Adds (think s idx id ts) []
    pub finish_law : (o : Value) (e : Bool) (idx : ℕ) → Adds (finish_tool o e idx) []
    pub results_law : (bs : List Block) → Adds (attach_results bs) []
    pub restamp_law : (ts : Option ℕ) → Adds (λ a. record a { last_assistant_ts = ts }) []
    pub count_law : Adds (λ a. record a { processed = suc a.processed }) []
    pub user_law :
        (m : Message) (c : Text) (fs : List FileRef) (v : Bool)
        → m.body ≡ user_body c fs v
        → t.shown (Delta.message m) ≡ []
    pub note_law : (m : Message) (n : Note) → m.body ≡ note_body n → t.shown (Delta.message m) ≡ []

  shown_all-append : (ds es : List Delta) → shown_all (ds ++ es) ≡ shown_all ds ++ shown_all es
  shown_all-append [] es = refl
  shown_all-append (d ∷ ds) es = rw (shown_all-append ds es, append_assoc (t.shown d)) refl

  pub then_do-Conserves :
      (m n : Method) (x y : List X)
      → Conserves m x
      → Conserves n y
      → Conserves (m then_do n) (x ++ y)
  unfolding ◌then_do◌
  then_do-Conserves m n x y hm hn a =
      rw (shown_all-append (m a).1 (n (m a).0).1, append_assoc (shown_all (m a).1), hn (m a).0)
        (sym (append_assoc (shown_all (m a).1) (t.held (m a).0) y)
          ∙ ap (λ z. z ++ y) (hm a)
          ∙ append_assoc (t.held a) x y)

  set-Conserves : (f : Aggregator → Aggregator) (x : List X) → Adds f x → Conserves (set f) x
  unfolding set
  set-Conserves f x h a = h a

  pub yield-Conserves : (m : Message) → t.shown (Delta.message m) ≡ [] → Conserves (yield m) []
  unfolding yield
  yield-Conserves m h a = rw (h, append-nil (t.held a)) refl

  module _ (laws : Laws) where
    exit_plans-Conserves :
        (bs : List Block) (idx : ℕ) (id : EventId) (ts : Option ℕ)
        → Conserves (exit_plans bs idx id ts) (of_plans bs)
    unfolding exit_plans
    exit_plans-Conserves [] idx id ts a = sym (append-nil (t.held a))
    exit_plans-Conserves (exit_plan_mode plan ∷ bs) idx id ts a =
        then_do-Conserves (exit_plan plan idx id ts) (exit_plans bs idx id ts) (t.of_plan plan)
          (of_plans bs) (laws.plan_law plan idx id ts) (exit_plans-Conserves bs idx id ts) a
    exit_plans-Conserves (text_block s ∷ bs) idx id ts a = exit_plans-Conserves bs idx id ts a
    exit_plans-Conserves (thinking_block s ∷ bs) idx id ts a = exit_plans-Conserves bs idx id ts a
    exit_plans-Conserves (tool_use_block n i ∷ bs) idx id ts a = exit_plans-Conserves bs idx id ts a
    exit_plans-Conserves (tool_result_block o e ∷ bs) idx id ts a =
        exit_plans-Conserves bs idx id ts a
    exit_plans-Conserves (other_block ∷ bs) idx id ts a = exit_plans-Conserves bs idx id ts a

    buffer_tools-Adds : (bs : List Block) → Adds (buffer_tools bs) (of_tools bs)
    unfolding buffer_tools
    buffer_tools-Adds [] a = sym (append-nil (t.held a))
    buffer_tools-Adds (tool_use_block n i ∷ bs) a =
        buffer_tools-Adds bs (buffer_tool n i a)
        ∙ rw (laws.buffer_law n i a) (append_assoc (t.held a) (t.of_tool n) (of_tools bs))
    buffer_tools-Adds (text_block s ∷ bs) a = buffer_tools-Adds bs a
    buffer_tools-Adds (thinking_block s ∷ bs) a = buffer_tools-Adds bs a
    buffer_tools-Adds (exit_plan_mode plan ∷ bs) a = buffer_tools-Adds bs a
    buffer_tools-Adds (tool_result_block o e ∷ bs) a = buffer_tools-Adds bs a
    buffer_tools-Adds (other_block ∷ bs) a = buffer_tools-Adds bs a

    gather-Conserves :
        (bs : List Block) (idx : ℕ) (id : EventId) (ts : Option ℕ)
        → Conserves (gather bs idx id ts) (of_plans bs ++ of_tools bs)
    unfolding gather
    gather-Conserves bs idx id ts a =
        then_do-Conserves _ (set (keep_thinking bs)) _ []
          (then_do-Conserves _ (set (buffer_tools bs)) _ (of_tools bs)
            (then_do-Conserves (set (begin_assistant idx ts)) (exit_plans bs idx id ts) []
              (of_plans bs) (set-Conserves (begin_assistant idx ts) [] (laws.begin_law idx ts))
              (exit_plans-Conserves bs idx id ts))
            (set-Conserves (buffer_tools bs) (of_tools bs) (buffer_tools-Adds bs)))
          (set-Conserves (keep_thinking bs) [] (laws.keep_law bs)) a
        ∙ rw (append-nil (of_plans bs ++ of_tools bs)) refl

    flush_before_text-Conserves :
        (said : Text) (ts : Option ℕ) → Conserves (flush_before_text said ts) []
    unfolding flush_before_text
    flush_before_text-Conserves said ts a =
        elim (Bool-cases (not (is_empty said) && not (is_empty a.assistant_buf))) [
          | inl p ↦ rw p (
              then_do-Conserves flush_to_message_delta _ [] [] laws.flush_law
                (set-Conserves _ [] (laws.restamp_law ts)) a)
          | inr p ↦ rw (p, append-nil (t.held a)) refl
        ]

    say-Conserves :
        (said : Text) (id : EventId) (ts : Option ℕ) → Conserves (say said id ts) (t.of_text said)
    unfolding say
    say-Conserves said id ts =
        then_do-Conserves (flush_before_text said ts) (set (add_text said id)) [] (t.of_text said)
          (flush_before_text-Conserves said ts)
          (set-Conserves (add_text said id) (t.of_text said) (laws.text_law said id))

    streamed-Conserves :
        (m : Method) (x : List X) → Conserves m x → Conserves (m then_do stream_delta) x
    streamed-Conserves m x h a =
        then_do-Conserves m stream_delta x [] h laws.stream_law a ∙ rw (append-nil x) refl

    feed_assistant-Conserves :
        (bs : List Block) (idx : ℕ) (id : EventId) (ts : Option ℕ)
        → Conserves
            (feed_assistant bs idx id ts)
            ((of_plans bs ++ of_tools bs) ++ t.of_text (extract_text_from_message bs))
    unfolding feed_assistant
    feed_assistant-Conserves bs idx id ts = streamed-Conserves _ _ (
        then_do-Conserves (gather bs idx id ts) (say (extract_text_from_message bs) id ts)
          (of_plans bs ++ of_tools bs) (t.of_text (extract_text_from_message bs))
          (gather-Conserves bs idx id ts) (say-Conserves (extract_text_from_message bs) id ts))

    yield_note-Conserves :
        (n : Option Note) (idx : ℕ) (id : EventId) (ts : Option ℕ)
        → Conserves (yield_note n idx id ts) []
    unfolding yield_note
    yield_note-Conserves none idx id ts a = sym (append-nil (t.held a))
    yield_note-Conserves (some n) idx id ts a = yield-Conserves _ (laws.note_law _ n refl) a

    feed_tool_result-Conserves :
        (o : Value) (e : Bool) (idx : ℕ) → Conserves (feed_tool_result o e idx) []
    unfolding feed_tool_result
    feed_tool_result-Conserves o e idx a = elim (Bool-cases (is_empty a.tools_buf)) [
      | inl p ↦ rw (p, append-nil (t.held a)) refl
      | inr p ↦ rw p (
          streamed-Conserves (set (finish_tool o e idx)) []
            (set-Conserves (finish_tool o e idx) [] (laws.finish_law o e idx)) a)
    ]

    feed_kind-Conserves :
        (k : Kind) (idx : ℕ) (id : EventId) (ts : Option ℕ)
        → Conserves (feed_kind k idx id ts) (of_kind k)
    unfolding feed_kind feed_user
    feed_kind-Conserves (Kind.user c us v) idx id ts =
        then_do-Conserves flush_to_message_delta _ [] [] laws.flush_law
          (yield-Conserves _ (laws.user_law _ _ _ v refl))
    feed_kind-Conserves (Kind.tool_results bs) idx id ts =
        streamed-Conserves (set (attach_results bs)) []
          (set-Conserves (attach_results bs) [] (laws.results_law bs))
    feed_kind-Conserves (Kind.assistant bs) idx id ts = feed_assistant-Conserves bs idx id ts
    feed_kind-Conserves (Kind.tool_use n i) idx id ts =
        streamed-Conserves (set (use_tool n i idx id ts)) (t.of_tool n)
          (set-Conserves (use_tool n i idx id ts) (t.of_tool n) (laws.use_law n i idx id ts))
    feed_kind-Conserves (Kind.tool_result o e) idx id ts = feed_tool_result-Conserves o e idx
    feed_kind-Conserves (Kind.thinking s) idx id ts =
        streamed-Conserves (set (think s idx id ts)) []
          (set-Conserves (think s idx id ts) [] (laws.think_law s idx id ts))
    feed_kind-Conserves (Kind.simple s) idx id ts =
        then_do-Conserves flush_to_message_delta _ [] [] laws.flush_law
          (yield_note-Conserves (simple_handler s) idx id _)
    feed_kind-Conserves (Kind.system true c) idx id ts =
        then_do-Conserves flush_to_message_delta _ [] [] laws.flush_law
          (yield_note-Conserves (some _) idx id ts)
    feed_kind-Conserves (Kind.system false c) idx id ts =
        set-Conserves _ [] λ a. sym (append-nil (t.held a))
    feed_kind-Conserves (Kind.untyped s) idx id ts =
        set-Conserves _ [] λ a. sym (append-nil (t.held a))
    feed_kind-Conserves Kind.unknown idx id ts = set-Conserves _ [] λ a. sym (append-nil (t.held a))

    feed-Conserves : (ev : Event) → Conserves (feed ev) (of_kind ev.kind)
    unfolding feed feed_at
    feed-Conserves ev a =
        feed_kind-Conserves ev.kind _ _ ev.timestamp (record a { processed = suc a.processed })
        ∙ rw (laws.count_law a, append-nil (t.held a)) refl

    pub feed_all-Conserves : (evs : List Event) → Conserves (feed_all evs) (of_events evs)
    unfolding feed_all
    feed_all-Conserves [] a = sym (append-nil (t.held a))
    feed_all-Conserves (ev ∷ evs) a =
        then_do-Conserves (feed ev) (feed_all evs) (of_kind ev.kind) (of_events evs)
          (feed-Conserves ev) (feed_all-Conserves evs) a
