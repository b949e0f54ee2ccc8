-- ===== src/Messages/StableOrder.antt =====
-- src/core/message_events.py: the stable order of a history, in which the messages that a user
-- queued during a completed run follow that run.
use claude_code_manager.Base.{
  ℕ, suc, Bool, true, false, not, ◌&&◌, Option, none, some, List, [], ◌∷◌, ◌++◌, nat_eq, ltb,
  if◌then◌else◌, is_empty, any, filter, starts_with,
}
use claude_code_manager.Messages.Uploads.{normalize_user_message_event}
use claude_code_manager.Messages.Notices.{master_done}
use claude_code_manager.Messages.Aggregator.{Event, Kind}

-- An event with its index.
abbrev pub Indexed : Type 0
Indexed = ℕ × Event

abbrev pub enumerate : ℕ → List Event → List Indexed
enumerate i [] = []
enumerate i (ev ∷ evs) = (i, ev) ∷ enumerate (suc i) evs

-- `event.get("type") is None and event.get("session_id")`
abbrev starts_session : Kind → Bool
starts_session (Kind.untyped (some (c ∷ s))) = true
starts_session k = false

abbrev ends_run : Kind → Bool
ends_run (Kind.simple (master_done still_thinking seconds)) = true
ends_run k = false

-- A user event of a person whose text is no command.
abbrev is_queued_user : Kind → Bool
is_queued_user (Kind.user content uploads is_voice) =
    not (starts_with (b'/' ∷ []) (normalize_user_message_event content uploads).0)
is_queued_user k = false

unfoldable pub is_run_start : Event → Bool
is_run_start ev = starts_session ev.kind

unfoldable pub is_run_end : Event → Bool
is_run_end ev = ends_run ev.kind

unfoldable pub is_deferrable : Event → Bool
is_deferrable ev = is_queued_user ev.kind

-- `interval_start` after an event, and the interval that the event completes.
abbrev pub start_after : Option ℕ → Indexed → Option ℕ
start_after start (idx, ev) =
    if is_run_start ev then some idx else if is_run_end ev then none else start

abbrev pub completed : Option ℕ → Indexed → List (ℕ × ℕ)
completed none (idx, ev) = []
completed (some start) (idx, ev) =
    if is_run_start ev then [] else if is_run_end ev then (start, idx) ∷ [] else []

unfoldable pub intervals : Option ℕ → List Indexed → List (ℕ × ℕ)
intervals start [] = []
intervals start (e ∷ es) = completed start e ++ intervals (start_after start e) es

-- `for idx in range(start + 1, end)`, and its tests
abbrev pub lies_deferred : ℕ × ℕ → Indexed → Bool
lies_deferred (start, end) (idx, ev) = ltb start idx && ltb idx end && is_deferrable ev

abbrev pub deferred_in : ℕ × ℕ → List Indexed → List Indexed
deferred_in interval es = filter (lies_deferred interval) es

abbrev pub Deferrals : Type 0
Deferrals = List (ℕ × List Indexed)

abbrev pub entry_at : ℕ → List Indexed → Deferrals
entry_at end deferred = if is_empty deferred then [] else (end, deferred) ∷ []

unfoldable pub deferred_by_end : List (ℕ × ℕ) → List Indexed → Deferrals
deferred_by_end [] es = []
deferred_by_end (i ∷ is) es = entry_at i.1 (deferred_in i es) ++ deferred_by_end is es

-- `idx in deferred_indices` and `deferred_by_end.get(idx, [])`
abbrev pub has_index : ℕ → List Indexed → Bool
has_index idx es = any (λ e. nat_eq idx e.0) es

unfoldable pub is_deferred : ℕ → Deferrals → Bool
is_deferred idx [] = false
is_deferred idx ((end, es) ∷ ds) = if has_index idx es then true else is_deferred idx ds

unfoldable pub deferred_at : ℕ → Deferrals → List Indexed
deferred_at idx [] = []
deferred_at idx ((end, es) ∷ ds) = if nat_eq idx end then es else deferred_at idx ds

abbrev pub kept : Deferrals → Indexed → List Indexed
kept ds e = if is_deferred e.0 ds then [] else e ∷ []

unfoldable pub project : Deferrals → List Indexed → List Indexed
project ds [] = []
project ds (e ∷ es) = kept ds e ++ deferred_at e.0 ds ++ project ds es

unfoldable pub project_indexed : List Indexed → List Indexed
project_indexed es = project (deferred_by_end (intervals none es) es) es

abbrev pub stable_history_projection : List Event → List Indexed
stable_history_projection events = project_indexed (enumerate 0 events)

-- `interval_open` after an event
abbrev pub open_after : Bool → Event → Bool
open_after is_open ev = if is_run_start ev then true else if is_run_end ev then false else is_open

unfoldable pub closed_from : Bool → ℕ → ℕ → List Event → ℕ
closed_from is_open closed idx [] = closed
closed_from is_open closed idx (ev ∷ evs) =
    let still_open = open_after is_open ev in
    closed_from still_open (if still_open then closed else suc idx) (suc idx) evs

abbrev pub stable_closed_prefix_len : List Event → ℕ
stable_closed_prefix_len events = closed_from false 0 0 events
