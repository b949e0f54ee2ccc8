-- ===== src/Accounts/Decision.antt =====
-- What a finished run asks for (src/core/claude_relay.py).
use claude_code_manager.Base.{
  ℕ, ◌≡◌, refl, ap, ◌∙◌, Bool, false, ◌&&◌, ◌||◌, none, some, [], ◌∷◌, if◌then◌else◌, Text,
  occurs_in, ℤ, Bool-cases, inl, inr,
}
use claude_code_manager.Accounts.{Readings, is_rejected, observe_rate_limit}
use claude_code_manager.Accounts.Watch.{
  RunEvent, rate_limit_event, assistant, user, other, RelayWatch, new_watch, observe, decision,
  login_failed, is_warning, fails_to_authenticate, no_reason, is_failure, auth_failure_marker,
  is_tool_result_event, at_safe_point,
}
use claude_code_manager.Accounts.SafePoint.{
  Past, watch_after, has_rejection, has_stopped, reason_of, IsState, watch_after-IsState,
}

abbrev pub names_failure : RunEvent → Bool
names_failure (assistant content) = fails_to_authenticate content
names_failure e = false

unfoldable pub has_auth_failure : Past → Bool
has_auth_failure [] = false
has_auth_failure (x ∷ past) = names_failure x.1 || has_auth_failure past

at_safe_point-auth_failed :
    (e : RunEvent) (v : RelayWatch) → (at_safe_point e v).1.auth_failed ≡ v.auth_failed
at_safe_point-auth_failed e v =
    elim (Bool-cases (v.armed && no_reason v.reason && is_tool_result_event e)) [
      | inl stop ↦ rw stop refl
      | inr go ↦ rw go refl
    ]

observe-auth_failed :
    (now : ℕ) (e : RunEvent) (v : RelayWatch)
    → (observe now e v).1.auth_failed ≡ (names_failure e || v.auth_failed)
unfolding observe
observe-auth_failed now (rate_limit_event none) v = refl
observe-auth_failed now (rate_limit_event (some info)) v = elim (Bool-cases (is_rejected info)) [
  | inl rejected ↦ rw rejected refl
  | inr lives ↦
      elim (Bool-cases (is_warning info now (observe_rate_limit v.label info now v.readings).0)) [
        | inl high ↦ rw (lives, high) refl
        | inr low ↦ rw (lives, low) refl
      ]
]
observe-auth_failed now (assistant content) v = elim (Bool-cases (fails_to_authenticate content)) [
  | inl failed ↦ rw failed refl
  | inr fine ↦ rw fine (at_safe_point-auth_failed (assistant content) v)
]
observe-auth_failed now (user content) v = at_safe_point-auth_failed (user content) v
observe-auth_failed now other v = at_safe_point-auth_failed other v

auth_failed-after :
    (label : Text) (readings : Readings) (past : Past)
    → (watch_after (new_watch label readings) past).auth_failed ≡ has_auth_failure past
unfolding watch_after has_auth_failure
auth_failed-after label readings [] = refl
auth_failed-after label readings ((now, e) ∷ past) =
    observe-auth_failed now e (watch_after (new_watch label readings) past)
    ∙ ap (λ b. names_failure e || b) (auth_failed-after label readings past)

-- Whatever a run was: it asks for a login where it failed and an agent's text or the error output
-- names the failure to authenticate; else for a relay after a rejection where one came, and after a
-- warning where the process was ended at a safe point; else for nothing.
pub decision_after :
    (label : Text) (readings : Readings) (past : Past) (exit_code : ℤ) (stderr_text : Text)
    → let w = new_watch label readings in
      decision exit_code stderr_text (watch_after w past) ≡ (
        if is_failure exit_code
          && (has_auth_failure past || occurs_in auth_failure_marker stderr_text)
        then some login_failed
        else reason_of (has_rejection past) (has_stopped w past))
unfolding decision IsState
decision_after label readings past exit_code stderr_text =
    let given = (watch_after-IsState label readings past).1 in
    rw (auth_failed-after label readings past, given) refl
