-- ===== src/Messages/View.antt =====
-- src/core/message_projection.py: a projection that grows, against the view of the whole list.
use claude_code_manager.Base.{
  ℕ, ◌+◌, ◌-◌, ◌≤◌, ◌≡◌, refl, ap, sym, ◌∙◌, false, List, [], ◌∷◌, ◌++◌, append-nil, append_assoc,
  nat_eq, map, length, length-append, length-drop, take, drop, take-append-drop, arith, Bool-cases,
  inl, inr,
}
use claude_code_manager.Messages.Aggregator.{
  Event, Message, Delta, Aggregator, pending_draft_message,
}
use claude_code_manager.Messages.Feeding.{feed_indexed}
use claude_code_manager.Messages.StableOrder.{
  stable_history_projection, stable_closed_prefix_len, intervals, project, project_indexed,
}
use claude_code_manager.Messages.ClosedPrefix.{
  opens, IsClosed, opens-append, stable_closed_prefix_len-IsClosed,
}
use claude_code_manager.Messages.Projection.{
  messages_of, separators_from, at_base, fold_messages, events_to_view, Projection, no_events,
  extend, commit_closed, refresh, ingest, new_projection, advanced,
}
use claude_code_manager.Messages.Folding.{
  messages_of-append, separators_from-fold, feed_both, run, run-append,
}

-- What a projection keeps of the events `all`: `xs` is committed, and the region is open.
record IsBase (offset : ℕ) (all : List Event) (p : Projection) : Type 0 where
  prefix : List Event
  splits : prefix ++ p.region_events ≡ all
  closed_law : IsClosed prefix
  offset_law : p.offset ≡ offset
  count_law : p.event_count ≡ offset + length all
  agg_law : p.agg ≡ (run offset prefix).0
  final_law : p.committed_final ≡ messages_of (run offset prefix).1
  seps_law : p.seps_final ≡ separators_from 0 p.committed_final

no_events-IsBase : (offset : ℕ) → IsBase offset [] (no_events offset)
unfolding opens feed_indexed project project_indexed intervals separators_from
no_events-IsBase offset = record {
  prefix = [];
  splits = refl;
  closed_law = refl;
  offset_law = refl;
  count_law = omega arith;
  agg_law = refl;
  final_law = refl;
  seps_law = refl;
}

extend-IsBase :
    (offset : ℕ) (all evs : List Event) (p : Projection)
    → IsBase offset all p
    → IsBase offset (all ++ evs) (extend evs p)
unfolding extend
extend-IsBase offset all evs p h = record {
  prefix = h.prefix;
  splits = sym (append_assoc h.prefix p.region_events evs) ∙ ap (λ z. z ++ evs) h.splits;
  closed_law = h.closed_law;
  offset_law = h.offset_law;
  count_law = omega (arith, h.count_law, length-append all evs);
  agg_law = h.agg_law;
  final_law = h.final_law;
  seps_law = h.seps_law;
}

-- The messages of a further part.
abbrev added : ℕ → List Event → Aggregator → List Message
added base ys agg =
    messages_of (feed_indexed (map (at_base base) (stable_history_projection ys)) agg).1

-- Where the prefix ended, the fold of a further part goes on.
continues :
    (offset : ℕ) (xs ys : List Event) (agg : Aggregator) (base : ℕ)
    → IsClosed xs
    → agg ≡ (run offset xs).0
    → base ≡ length xs
    → let r = feed_indexed (map (at_base base) (stable_history_projection ys)) agg in
      (r.0 ≡ (run offset (xs ++ ys)).0)
      × (messages_of (run offset xs).1 ++ messages_of r.1 ≡ messages_of (run offset (xs ++ ys)).1)
unfolding feed_both
continues offset xs ys agg base closed at from =
    rw (at, from, run-append offset xs ys closed)
      (refl, sym (messages_of-append (run offset xs).1 _))

-- The events before the region, as the source counts them.
base_of_prefix :
    (offset : ℕ) (all : List Event) (p : Projection) (h : IsBase offset all p)
    → p.event_count ≡ offset + (length h.prefix + length p.region_events)
base_of_prefix offset all p h =
    h.count_law
    ∙ ap (λ z. offset + length z) (sym h.splits)
    ∙ ap (λ z. offset + z) (length-append h.prefix p.region_events)

fed_base :
    (offset : ℕ) (all : List Event) (p : Projection) (h : IsBase offset all p) (n : ℕ)
    → n ≤ length p.region_events
    → p.event_count - length (drop n p.region_events) - n - p.offset ≡ length h.prefix
fed_base offset all p h n le =
    omega (arith, base_of_prefix offset all p h, length-drop n p.region_events, h.offset_law, le)

region_base :
    (offset : ℕ) (all : List Event) (p : Projection) (h : IsBase offset all p)
    → p.event_count - length p.region_events - p.offset ≡ length h.prefix
region_base offset all p h = omega (arith, base_of_prefix offset all p h, h.offset_law)

-- The closed part of the region is committed where the prefix ended.
commit-IsBase :
    (offset : ℕ) (all : List Event) (p : Projection)
    → IsBase offset all p
    → IsBase offset all (commit_closed p)
unfolding commit_closed fold_messages opens
commit-IsBase offset all p h =
    let n = stable_closed_prefix_len p.region_events in
    let closed = stable_closed_prefix_len-IsClosed p.region_events in
    let base = p.event_count - length (drop n p.region_events) - n - p.offset in
    let msgs = added base (take n p.region_events) p.agg in
    let more =
      continues offset h.prefix (take n p.region_events) p.agg base h.closed_law h.agg_law
        (fed_base offset all p h n closed.1) in
    elim (Bool-cases (nat_eq n 0)) [
      | inl none_closed ↦ rw none_closed h
      | inr some_closed ↦ rw some_closed (record {
        prefix = h.prefix ++ take n p.region_events;
        splits =
            append_assoc h.prefix (take n p.region_events) (drop n p.region_events)
            ∙ ap (λ z. h.prefix ++ z) (take-append-drop n p.region_events)
            ∙ h.splits;
        closed_law =
            opens-append false h.prefix (take n p.region_events)
            ∙ ap (λ o. opens o (take n p.region_events)) h.closed_law
            ∙ closed.0;
        offset_law = h.offset_law;
        count_law = h.count_law;
        agg_law = more.0;
        final_law = ap (λ z. z ++ msgs) h.final_law ∙ more.1;
        seps_law =
            ap (λ z. z ++ map (λ j. length p.committed_final + j) (separators_from 0 msgs))
              h.seps_law
            ∙ sym (separators_from-fold p.committed_final msgs);
      })
    ]

refresh-IsBase :
    (offset : ℕ) (all : List Event) (p : Projection)
    → IsBase offset all p
    → IsBase offset all (refresh p)
unfolding refresh
refresh-IsBase offset all p h = record {
  prefix = h.prefix;
  splits = h.splits;
  closed_law = h.closed_law;
  offset_law = h.offset_law;
  count_law = h.count_law;
  agg_law = h.agg_law;
  final_law = h.final_law;
  seps_law = h.seps_law;
}

-- What a reader of a projection sees is the view of all the events.
abbrev pub IsViewOf : ℕ → List Event → Projection → Type 0
IsViewOf offset all p =
    ((p.committed, p.pending_draft) ≡ events_to_view all offset)
    × (p.separator_ordinals ≡ separators_from 0 p.committed)
    × (p.event_count ≡ offset + length all)

refresh-IsViewOf :
    (offset : ℕ) (all : List Event) (p : Projection)
    → IsBase offset all p
    → IsViewOf offset all (refresh p)
unfolding refresh fold_messages events_to_view
refresh-IsViewOf offset all p h =
    let base = p.event_count - length p.region_events - p.offset in
    let msgs = added base p.region_events p.agg in
    let more =
      continues offset h.prefix p.region_events p.agg base h.closed_law h.agg_law
        (region_base offset all p h) in
    let whole = ap (λ evs. run offset evs) h.splits in
    (
      λ i. (
        (ap (λ z. z ++ msgs) h.final_law ∙ more.1 ∙ ap (λ r. messages_of r.1) whole) i,
        pending_draft_message ((more.0 ∙ ap (λ (r : Aggregator × List Delta). r.0) whole) i),
      ),
      ap (λ z. z ++ map (λ j. length p.committed_final + j) (separators_from 0 msgs)) h.seps_law
          ∙ sym (separators_from-fold p.committed_final msgs),
      h.count_law,
    )

ingest-IsBase :
    (offset : ℕ) (all evs : List Event) (p : Projection)
    → IsBase offset all p
    → IsBase offset (all ++ evs) (ingest evs p)
unfolding ingest
ingest-IsBase offset all evs p h =
    refresh-IsBase offset (all ++ evs) _
      (commit-IsBase offset (all ++ evs) _ (extend-IsBase offset all evs p h))

ingest-IsViewOf :
    (offset : ℕ) (all evs : List Event) (p : Projection)
    → IsBase offset all p
    → IsViewOf offset (all ++ evs) (ingest evs p)
unfolding ingest
ingest-IsViewOf offset all evs p h =
    refresh-IsViewOf offset (all ++ evs) _
      (commit-IsBase offset (all ++ evs) _ (extend-IsBase offset all evs p h))

-- The appends to a session, one after the other.
unfoldable pub advanced_by : List (List Event) → Projection → Projection
advanced_by [] p = p
advanced_by (evs ∷ chunks) p = advanced_by chunks (advanced evs p)

unfoldable pub joined : List (List Event) → List Event
joined [] = []
joined (evs ∷ chunks) = evs ++ joined chunks

advanced_by-IsViewOf :
    (offset : ℕ) (all : List Event) (chunks : List (List Event)) (p : Projection)
    → IsBase offset all p
    → IsViewOf offset all p
    → IsViewOf offset (all ++ joined chunks) (advanced_by chunks p)
unfolding advanced_by joined
advanced_by-IsViewOf offset all [] p h v = rw (append-nil all) v
advanced_by-IsViewOf offset all (evs ∷ chunks) p h v =
    rw (sym (append_assoc all evs (joined chunks))) (
      advanced_by-IsViewOf offset (all ++ evs) chunks (ingest evs p)
        (ingest-IsBase offset all evs p h) (ingest-IsViewOf offset all evs p h))

-- However the events of a session arrive, in whatever portions: the projection that is advanced by
-- each portion presents exactly the messages and the draft that one pass over all the events gives,
-- its separator ordinals are the positions of the separators among these messages, and it counts
-- every event.
pub advanced_by-view :
    (events : List Event) (chunks : List (List Event)) (offset : ℕ)
    → let p = advanced_by chunks (new_projection events offset) in
      let all = events ++ joined chunks in
      ((p.committed, p.pending_draft) ≡ events_to_view all offset)
      × (p.separator_ordinals ≡ separators_from 0 p.committed)
      × (p.event_count ≡ offset + length all)
advanced_by-view events chunks offset =
    advanced_by-IsViewOf offset events chunks (new_projection events offset)
      (ingest-IsBase offset [] events (no_events offset) (no_events-IsBase offset))
      (ingest-IsViewOf offset [] events (no_events offset) (no_events-IsBase offset))
