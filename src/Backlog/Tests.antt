-- ===== src/Backlog/Tests.antt =====
-- Runs of src/core/backlog_loop.py on small backlogs.
use claude_code_manager.Base.{
  ℕ, padded, decimal, digits_before, ◌≡◌, ◌≢◌, refl, Option, none, some, [], ◌∷◌, codes, Text,
}
use claude_code_manager.Backlog.{
  Item, Config, as_list, as_dict, load_backlog, implement, stale_reset, Status, Priority, Stamp,
  determine_action, handle_stale, check_revision, is_stale, started_at, sort_by_rank,
  insert_by_rank, priority_rank, next_id, id_number, max_num,
}
use claude_code_manager.Backlog.Decision.{
  IsRight, determine_action-IsRight, determine_action-reset_once,
}

abbrev item : Text → Status → Option Priority → Stamp → Item
item id status priority started = record {
  id = id;
  status = status;
  priority = priority;
  revision_feedback = [];
  in_progress_at = started;
  created = Stamp.missing;
  failed_reason = none;
}

abbrev cfg : Config
cfg = record { id_prefix = codes "D"; max_pending = 2; stale_timeout = 100 }

abbrev no_parse : Text → Option ℕ
no_parse s = none

abbrev slow : Item
slow = item (codes "D-009") Status.in_progress none (Stamp.datetime 10)

abbrev small : Item
small = item (codes "D-011") Status.approved none Stamp.missing

abbrev urgent : Item
urgent = item (codes "D-010") Status.approved (some Priority.high) Stamp.missing

chosen :
    (determine_action no_parse 50 cfg (as_list (slow ∷ small ∷ urgent ∷ []))).0 ≡ implement urgent
unfolding determine_action handle_stale load_backlog check_revision is_stale started_at sort_by_rank
    insert_by_rank priority_rank
chosen = refl

determine_action-IsRight_example :
    IsRight no_parse 50 cfg
      (as_list (slow ∷ small ∷ urgent ∷ []))
      (determine_action no_parse 50 cfg (as_list (slow ∷ small ∷ urgent ∷ []))).0
      (determine_action no_parse 50 cfg (as_list (slow ∷ small ∷ urgent ∷ []))).1
determine_action-IsRight_example =
    determine_action-IsRight no_parse 50 cfg (as_list (slow ∷ small ∷ urgent ∷ []))

first_reset : (determine_action no_parse 500 cfg (as_dict (some (slow ∷ [])) none)).0 ≡ stale_reset
unfolding determine_action handle_stale load_backlog check_revision is_stale started_at
first_reset = refl

determine_action-reset_once_example :
    (determine_action no_parse 500 cfg
      (determine_action no_parse 500 cfg (as_dict (some (slow ∷ [])) none)).1).0
    ≢ stale_reset
determine_action-reset_once_example =
    determine_action-reset_once no_parse 500 cfg (as_dict (some (slow ∷ [])) none) first_reset

numbered : next_id (slow ∷ small ∷ []) (codes "D") ≡ codes "D-012"
unfolding next_id max_num id_number padded decimal digits_before
numbered = refl
