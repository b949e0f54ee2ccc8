-- ===== src/Messages/Reading.antt =====
-- src/core/message_projection.py: what a reader of the pages of a growing session sees.
use claude_code_manager.Base.{ℕ, ◌<◌, ◌≡◌, ap, ◌∙◌, List, ◌++◌, Option}
use claude_code_manager.Messages.Aggregator.{Event, Message}
use claude_code_manager.Messages.Projection.{events_to_view, new_projection}
use claude_code_manager.Messages.View.{advanced_by, joined, advanced_by-view}
use claude_code_manager.Messages.Pages.{all_pages, all_pages-eq}

-- However the events of a session arrive, in whatever portions: a reader that asks for the last
-- page and then for the page before it, until there is none, with any positive limit, gets exactly
-- the committed messages of all the events, each once and in order.
pub all_pages-view :
    (events : List Event) (chunks : List (List Event)) (offset limit : ℕ)
    → 0 < limit
    → all_pages limit (advanced_by chunks (new_projection events offset))
      ≡ (events_to_view (events ++ joined chunks) offset).0
all_pages-view events chunks offset limit h =
    let (view, indexed, count) = advanced_by-view events chunks offset in
    all_pages-eq limit (advanced_by chunks (new_projection events offset)) indexed h
    ∙ ap (λ (v : List Message × Option Message). v.0) view
