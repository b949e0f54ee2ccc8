-- ===== src/Accounts/Tests.antt =====
-- Runs of src/core/claude_accounts.py and src/core/claude_relay.py.
use claude_code_manager.Base.{
  ◌≡◌, refl, ◌&&◌, ◌||◌, not, true, none, some, [], ◌∷◌, if◌then◌else◌, Text, codes, pos, occurs_in,
}
use claude_code_manager.Accounts.{observe_rate_limit}
use claude_code_manager.Accounts.Watch.{
  RunEvent, dict_block, rate_limit_event, user, new_watch, observe, decision, is_tool_result_event,
  reset_far_enough, relay_rejected, login_failed, is_failure, auth_failure_marker,
}
use claude_code_manager.Accounts.SafePoint.{
  Past, watch_after, has_rejection, has_warning, has_stopped, reason_of, observe_iff,
}
use claude_code_manager.Accounts.Decision.{has_auth_failure, decision_after}

abbrev high : RunEvent
high = rate_limit_event (
    some (record {
      five_hour = some 920000;
      seven_day = some 400000;
      status = codes "allowed_warning";
      resets_at = none;
    }))

abbrev rejection : RunEvent
rejection = rate_limit_event (
    some (record {
      five_hour = none;
      seven_day = none;
      status = codes "rejected";
      resets_at = some 9;
    }))

abbrev result : RunEvent
result = user (some (dict_block true none ∷ []))

abbrev login : Text
login = codes "a"

-- The newest event is the first: after a warning, the first tool result ends the process.
stops :
    (observe 3 result (watch_after (new_watch login []) ((2, high) ∷ (1, result) ∷ []))).0 ≡ true
unfolding watch_after observe observe_rate_limit is_tool_result_event reset_far_enough
stops = refl

rejected_first :
    decision
      (pos 1)
      []
      (watch_after (new_watch login []) ((3, result) ∷ (2, high) ∷ (1, rejection) ∷ []))
    ≡ some relay_rejected
unfolding watch_after observe observe_rate_limit is_tool_result_event reset_far_enough decision
rejected_first = refl

observe_iff_example :
    let w = new_watch login [] in
    let past : Past = (2, high) ∷ (1, result) ∷ [] in
    (observe 3 result (watch_after w past)).0 ≡ (
      is_tool_result_event result
      && has_warning w past
      && not (has_rejection past)
      && not (has_stopped w past))
observe_iff_example = observe_iff login [] ((2, high) ∷ (1, result) ∷ []) 3 result

decision_after_example :
    let w = new_watch login [] in
    let past : Past = (3, result) ∷ (2, high) ∷ [] in
    decision (pos 1) (codes "killed") (watch_after w past) ≡ (
      if is_failure (pos 1)
        && (has_auth_failure past || occurs_in auth_failure_marker (codes "killed"))
      then some login_failed
      else reason_of (has_rejection past) (has_stopped w past))
decision_after_example =
    decision_after login [] ((3, result) ∷ (2, high) ∷ []) (pos 1) (codes "killed")
