-- ===== src/Messages/Projection.antt =====
-- src/core/message_projection.py: the MessageProjection, with events_to_view of
-- src/api/message_utils.py.
--
-- `_ingest` is `extend`, `commit_closed` and `refresh` in turn. The copies that `advanced` makes are
-- the values themselves.
use claude_code_manager.Base.{
  ℕ, suc, ◌+◌, ◌-◌, Bool, true, false, Option, none, some, List, [], ◌∷◌, ◌++◌, nat_eq, ltb,
  if◌then◌else◌, map, length, take, drop, min,
}
use claude_code_manager.Messages.Notices.{separator}
use claude_code_manager.Messages.Aggregator.{
  Event, Message, Body, note_body, Delta, message, stream, Aggregator, new_aggregator,
  pending_draft_message, flush_to_message_delta,
}
use claude_code_manager.Messages.Feeding.{feed_indexed}
use claude_code_manager.Messages.StableOrder.{
  stable_history_projection, stable_closed_prefix_len, Indexed,
}

abbrev pub messages_of : List Delta → List Message
messages_of [] = []
messages_of (message m ∷ ds) = m ∷ messages_of ds
messages_of (stream m ∷ ds) = messages_of ds

abbrev is_separator_body : Body → Bool
is_separator_body (note_body (separator seconds)) = true
is_separator_body b = false

unfoldable pub is_separator : Message → Bool
is_separator m = is_separator_body m.body

-- The positions of the separators, counted from `n`.
unfoldable pub separators_from : ℕ → List Message → List ℕ
separators_from n [] = []
separators_from n (m ∷ ms) = (if is_separator m then n ∷ [] else []) ++ separators_from (suc n) ms

abbrev pub at_base : ℕ → Indexed → Indexed
at_base base (idx, ev) = (base + idx, ev)

-- `_fold_messages`: the aggregator after it, the messages and the separators among them.
unfoldable pub fold_messages : Aggregator → List Event → ℕ → Aggregator × List Message × List ℕ
fold_messages agg events base =
    let (agg', deltas) = feed_indexed (map (at_base base) (stable_history_projection events)) agg in
    (agg', messages_of deltas, separators_from 0 (messages_of deltas))

unfoldable pub events_to_view : List Event → ℕ → List Message × Option Message
events_to_view events offset =
    let (agg, deltas) =
      feed_indexed (stable_history_projection events) (new_aggregator offset false) in
    (messages_of deltas, pending_draft_message agg)

unfoldable pub events_to_messages : List Event → ℕ → List Message
events_to_messages events offset =
    let (agg, deltas) =
      feed_indexed (stable_history_projection events) (new_aggregator offset false) in
    messages_of deltas ++ messages_of (flush_to_message_delta agg).1

pub record Projection : Type 0 where
  pub offset : ℕ
  pub agg : Aggregator
  pub committed_final : List Message
  pub seps_final : List ℕ
  pub region_events : List Event
  pub event_count : ℕ
  pub committed : List Message
  pub separator_ordinals : List ℕ
  pub pending_draft : Option Message

abbrev pub no_events : ℕ → Projection
no_events offset = record {
  offset = offset;
  agg = new_aggregator offset false;
  committed_final = [];
  seps_final = [];
  region_events = [];
  event_count = offset;
  committed = [];
  separator_ordinals = [];
  pending_draft = none;
}

unfoldable pub extend : List Event → Projection → Projection
extend events p = record p {
  region_events = p.region_events ++ events;
  event_count = p.event_count + length events;
}

abbrev commit_prefix : ℕ → Projection → Projection
commit_prefix closed p =
    let region = drop closed p.region_events in
    let fed_base = p.event_count - length region - closed - p.offset in
    let (agg', msgs, seps) = fold_messages p.agg (take closed p.region_events) fed_base in
    record p {
      agg = agg';
      region_events = region;
      seps_final = p.seps_final ++ map (λ n. length p.committed_final + n) seps;
      committed_final = p.committed_final ++ msgs;
    }

unfoldable pub commit_closed : Projection → Projection
commit_closed p =
    let closed = stable_closed_prefix_len p.region_events in
    if nat_eq closed 0 then p else commit_prefix closed p

unfoldable pub refresh : Projection → Projection
refresh p =
    let region_base = p.event_count - length p.region_events - p.offset in
    let (view_agg, region_committed, region_seps) =
      fold_messages p.agg p.region_events region_base in
    record p {
      committed = p.committed_final ++ region_committed;
      separator_ordinals = p.seps_final ++ map (λ n. length p.committed_final + n) region_seps;
      pending_draft = pending_draft_message view_agg;
    }

unfoldable pub ingest : List Event → Projection → Projection
ingest events p = refresh (commit_closed (extend events p))

abbrev pub new_projection : List Event → ℕ → Projection
new_projection events offset = ingest events (no_events offset)

abbrev pub advanced : List Event → Projection → Projection
advanced events p = ingest events p

abbrev or_nothing : Option Message → List Message
or_nothing none = []
or_nothing (some m) = m ∷ []

unfoldable pub history : Projection → List Message
history p = p.committed ++ or_nothing p.pending_draft

-- `bisect.bisect_left`: how many of the ordinals, which rise, lie below.
abbrev pub last_below : ℕ → Option ℕ → List ℕ → Option ℕ
last_below desired found [] = found
last_below desired found (n ∷ ns) = if ltb n desired then last_below desired (some n) ns else found

abbrev after_separator : Option ℕ → ℕ
after_separator none = 0
after_separator (some n) = suc n

unfoldable pub snap_to_turn_start : List ℕ → ℕ → ℕ
snap_to_turn_start seps desired = after_separator (last_below desired none seps)

pub record Page : Type 0 where
  pub messages : List Message
  pub start : ℕ
  pub has_more : Bool

unfoldable pub tail : ℕ → Projection → Page
tail limit p =
    let start = snap_to_turn_start p.separator_ordinals (length p.committed - limit) in
    record { messages = drop start p.committed; start = start; has_more = ltb 0 start }

unfoldable pub slice_before : ℕ → ℕ → Projection → Page
slice_before at limit p =
    let before = min at (length p.committed) in
    let start = snap_to_turn_start p.separator_ordinals (before - limit) in
    record {
      messages = drop start (take before p.committed);
      start = start;
      has_more = ltb 0 start;
    }
