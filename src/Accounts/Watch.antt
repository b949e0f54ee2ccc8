-- ===== src/Accounts/Watch.antt =====
-- src/core/claude_relay.py: the RelayWatch of a run, and when it ends the process.
use claude_code_manager.Base.{
  ℕ, ◌+◌, Bool, true, false, ◌&&◌, ◌||◌, Option, none, some, List, [], ◌∷◌, if◌then◌else◌, leb, ltb,
  any, ◌==◌, Text, codes, Text_eq, occurs_in, ℤ, pos, zero,
}
use claude_code_manager.Accounts.{
  Info, RateLimitReading, Readings, warning_utilization, is_rejected, observe_rate_limit,
}

-- A block of a message: whether it is a tool result, and its text, where it is a dict.
pub data ContentBlock : Type 0 where
  dict_block : Bool → Option Text → ContentBlock
  plain_block : ContentBlock

-- The contents are those that are lists.
pub data RunEvent : Type 0 where
  rate_limit_event : Option Info → RunEvent
  assistant user : Option (List ContentBlock) → RunEvent
  other : RunEvent

pub data RelayReason : Type 0 where
  relay_rejected relay_warning login_failed : RelayReason

abbrev relay_min_reset_ahead : ℕ
relay_min_reset_ahead = 2700000000

abbrev is_tool_result : ContentBlock → Bool
is_tool_result (dict_block result said) = result
is_tool_result plain_block = false

unfoldable pub is_tool_result_event : RunEvent → Bool
is_tool_result_event (user (some blocks)) = any is_tool_result blocks
is_tool_result_event e = false

abbrev text_of : ContentBlock → List Text
text_of (dict_block result (some said)) = said ∷ []
text_of b = []

abbrev pub auth_failure_marker : Text
auth_failure_marker = codes "Failed to authenticate"

abbrev has_marker : ContentBlock → Bool
has_marker b = any (occurs_in auth_failure_marker) (text_of b)

unfoldable pub reset_far_enough : Option ℕ → ℕ → Bool
reset_far_enough none now = true
reset_far_enough (some resets_at) now = ltb (now + relay_min_reset_ahead) resets_at

pub record RelayWatch : Type 0 where
  pub label : Text
  pub reason : Option RelayReason
  pub armed : Bool
  pub auth_failed : Bool
  pub readings : Readings

abbrev pub new_watch : Text → Readings → RelayWatch
new_watch label readings = record {
  label = label;
  reason = none;
  armed = false;
  auth_failed = false;
  readings = readings;
}

abbrev is_high : Option RateLimitReading → Bool
is_high none = false
is_high (some reading) = leb warning_utilization reading.utilization

abbrev pub is_warning : Info → ℕ → Option RateLimitReading → Bool
is_warning info moment reading =
    (info.status == codes "allowed_warning")
    && is_high reading
    && reset_far_enough info.resets_at moment

abbrev warned : Info → ℕ → Option RateLimitReading → RelayWatch → RelayWatch
warned info moment reading w =
    if is_rejected info
    then record w { reason = some relay_rejected; armed = false }
    else if is_warning info moment reading
    then record w { armed = true }
    else w

abbrev pub no_reason : Option RelayReason → Bool
no_reason none = true
no_reason (some r) = false

abbrev pub at_safe_point : RunEvent → RelayWatch → Bool × RelayWatch
at_safe_point e w =
    if w.armed && no_reason w.reason && is_tool_result_event e
    then (true, record w { reason = some relay_warning })
    else (false, w)

abbrev pub fails_to_authenticate : Option (List ContentBlock) → Bool
fails_to_authenticate none = false
fails_to_authenticate (some blocks) = any has_marker blocks

unfoldable pub observe : ℕ → RunEvent → RelayWatch → Bool × RelayWatch
observe now (rate_limit_event none) w = (false, w)
observe now (rate_limit_event (some info)) w =
    let (reading, readings) = observe_rate_limit w.label info now w.readings in
    (false, warned info now reading (record w { readings = readings }))
observe now (assistant content) w =
    if fails_to_authenticate content
    then (false, record w { auth_failed = true })
    else at_safe_point (assistant content) w
observe now (user content) w = at_safe_point (user content) w
observe now other w = at_safe_point other w

abbrev pub is_failure : ℤ → Bool
is_failure (pos zero) = false
is_failure code = true

unfoldable pub decision : ℤ → Text → RelayWatch → Option RelayReason
decision exit_code stderr_text w =
    if is_failure exit_code && (w.auth_failed || occurs_in auth_failure_marker stderr_text)
    then some login_failed
    else w.reason
