-- ===== src/Messages/Tests.antt =====
-- Runs of src/core/message_aggregator.py and src/core/message_projection.py.
use claude_code_manager.Base.{
  ◌+◌, ◌-◌, ◌≡◌, refl, true, false, none, some, List, [], ◌∷◌, ◌++◌, codes, arith, length, All,
  take, min, Text,
}
use claude_code_manager.Messages.Events.{
  text_block, tool_use_block, exit_plan_mode, fields, tool_preview,
}
use claude_code_manager.Messages.Notices.{master_done, simple_handler}
use claude_code_manager.Messages.Aggregator.{
  Event, Kind, new_aggregator, flush_to_message_delta, pending_draft_message, stream_delta,
  buffer_tool, yield, set, ◌then_do◌,
}
use claude_code_manager.Messages.Feeding.{
  feed_all, feed_indexed, feed_at, feed_kind, feed_user, feed_assistant, gather, say, exit_plans,
  exit_plan, buffer_tools, begin_assistant, keep_thinking, add_text, flush_before_text, yield_note,
  attach_results,
}
use claude_code_manager.Messages.StableOrder.{
  stable_history_projection, project_indexed, project, intervals, deferred_by_end, is_deferred,
  deferred_at, is_run_start, is_run_end, is_deferrable, closed_from,
}
use claude_code_manager.Messages.Uploads.{normalize_user_message_event, strip_attached_files_block}
use claude_code_manager.Messages.Projection.{
  events_to_view, new_projection, separators_from, slice_before, Projection, ingest, extend,
  commit_closed, refresh, fold_messages, is_separator,
}
use claude_code_manager.Messages.View.{advanced_by, joined, advanced_by-view}
use claude_code_manager.Messages.Reading.{all_pages-view}
use claude_code_manager.Messages.Pages.{all_pages, IsAligned, slice_before-IsAligned}
use claude_code_manager.Messages.PageBodies.{
  request, append, bodies_served, bodies_rendered, bodies_served-rendered,
}
use claude_code_manager.Messages.Bounds.{IsDeltaWithin, feed_all-IsDeltaWithin}
use claude_code_manager.Messages.Contents.{text_tally, tool_tally, history, history-conserves}
use claude_code_manager.Messages.Conservation.{shown_all}

abbrev event : Kind → Event
event k = record { kind = k; id = none; timestamp = none }

abbrev starts : Event
starts = event (Kind.untyped (some (codes "s1")))

abbrev said : Event
said = event (Kind.assistant (text_block (codes "ok") ∷ []))

abbrev reads : Event
reads =
    event
      (Kind.assistant (tool_use_block (codes "Read") (fields []) ∷ text_block (codes "go") ∷ []))

abbrev plans : Event
plans = event (Kind.assistant (exit_plan_mode (codes "do it") ∷ []))

abbrev done : Event
done = event (Kind.simple (master_done false (some 7)))

abbrev asks : Text → Event
asks content = event (Kind.user content [] false)

-- A message that is queued during a run follows its end; a command stays where it is.
queued :
    stable_history_projection (starts ∷ asks (codes "b") ∷ asks (codes "/c") ∷ said ∷ done ∷ [])
    ≡ (0, starts) ∷ (2, asks (codes "/c")) ∷ (3, said) ∷ (4, done) ∷ (1, asks (codes "b")) ∷ []
unfolding project_indexed project intervals deferred_by_end is_deferred deferred_at is_run_start
    is_run_end is_deferrable normalize_user_message_event strip_attached_files_block
queued = refl

abbrev first : List Event
first = asks (codes "a") ∷ starts ∷ asks (codes "b") ∷ said ∷ []

abbrev second : List Event
second = reads ∷ done ∷ said ∷ []

abbrev grown : Projection
grown = advanced_by (second ∷ []) (new_projection first 0)

-- What the reader of the grown session sees, run.
counted : (length grown.committed ≡ 5) × (grown.separator_ordinals ≡ 3 ∷ [])
unfolding advanced_by ingest extend commit_closed refresh fold_messages separators_from is_separator
    project_indexed project intervals deferred_by_end is_deferred deferred_at is_run_start
    is_run_end is_deferrable normalize_user_message_event strip_attached_files_block closed_from
    feed_indexed feed_at feed_kind feed_user feed_assistant gather say flush_to_message_delta
    pending_draft_message stream_delta exit_plans exit_plan buffer_tools buffer_tool tool_preview
    begin_assistant keep_thinking add_text flush_before_text yield_note yield set ◌then_do◌
    simple_handler attach_results
counted = (refl, refl)

advanced_by-view_example :
    ((grown.committed, grown.pending_draft) ≡ events_to_view (first ++ joined (second ∷ [])) 0)
    × (grown.separator_ordinals ≡ separators_from 0 grown.committed)
    × (grown.event_count ≡ 0 + length (first ++ joined (second ∷ [])))
advanced_by-view_example = advanced_by-view first (second ∷ []) 0

all_pages-view_example : all_pages 2 grown ≡ (events_to_view (first ++ joined (second ∷ [])) 0).0
all_pages-view_example = all_pages-view first (second ∷ []) 0 2 (omega arith)

slice_before-IsAligned_example :
    let page = slice_before 4 1 grown in
    IsAligned grown.committed (min 4 (length grown.committed) - 1) page.start
    × (take page.start grown.committed ++ page.messages ≡ take 4 grown.committed)
slice_before-IsAligned_example =
    slice_before-IsAligned grown 4 1 (advanced_by-view first (second ∷ []) 0).1

feed_all-IsDeltaWithin_example :
    All IsDeltaWithin (feed_all (reads ∷ said ∷ []) (new_aggregator 0 true)).1
feed_all-IsDeltaWithin_example = feed_all-IsDeltaWithin (reads ∷ said ∷ []) 0 true

history-conserves_example :
    let deltas = history (reads ∷ plans ∷ said ∷ done ∷ []) (new_aggregator 0 true) in
    (shown_all text_tally deltas ≡ codes "godo itok")
    × (shown_all tool_tally deltas ≡ codes "Read" ∷ [])
history-conserves_example = history-conserves (reads ∷ plans ∷ said ∷ done ∷ []) 0 true

bodies_served-rendered_example :
    let steps = request 4 0 ∷ request 4 1 ∷ append second ∷ request 4 1 ∷ [] in
    bodies_served (λ page. page) steps (record { view = grown; page_bodies = [] })
    ≡ bodies_rendered (λ page. page) steps grown
bodies_served-rendered_example =
    bodies_served-rendered (λ page. page)
      (request 4 0 ∷ request 4 1 ∷ append second ∷ request 4 1 ∷ []) grown
