-- ===== src/Accounts/SafePoint.antt =====
-- When the RelayWatch ends a process (src/core/claude_relay.py).
use claude_code_manager.Base.{
  ℕ, ◌≡◌, refl, ap, ◌∙◌, Bool, true, false, not, ◌&&◌, ◌||◌, Option, none, some, List, [], ◌∷◌,
  if◌then◌else◌, Text, arith, Bool-cases, inl, inr,
}
use claude_code_manager.Accounts.{Info, Readings, is_rejected, observe_rate_limit}
use claude_code_manager.Accounts.Watch.{
  RunEvent, rate_limit_event, assistant, user, other, RelayWatch, new_watch, observe,
  is_tool_result_event, RelayReason, relay_rejected, relay_warning, is_warning,
  fails_to_authenticate, no_reason, at_safe_point,
}

-- The events of a run, each at its time; the newest is the first.
abbrev pub Past : Type 0
Past = List (ℕ × RunEvent)

unfoldable pub watch_after : RelayWatch → Past → RelayWatch
watch_after w [] = w
watch_after w (x ∷ past) = (observe x.0 x.1 (watch_after w past)).1

abbrev pub is_rejection : RunEvent → Bool
is_rejection (rate_limit_event (some info)) = is_rejected info
is_rejection e = false

-- A warning that arms a relay, of an account with the readings before it.
abbrev pub arms : Text → Readings → ℕ → RunEvent → Bool
arms label readings now (rate_limit_event (some info)) =
    is_warning info now (observe_rate_limit label info now readings).0
arms label readings now e = false

unfoldable pub has_rejection : Past → Bool
has_rejection [] = false
has_rejection (x ∷ past) = is_rejection x.1 || has_rejection past

unfoldable pub has_warning : RelayWatch → Past → Bool
has_warning w [] = false
has_warning w (x ∷ past) = arms w.label (watch_after w past).readings x.0 x.1 || has_warning w past

unfoldable pub has_stopped : RelayWatch → Past → Bool
has_stopped w [] = false
has_stopped w (x ∷ past) = (observe x.0 x.1 (watch_after w past)).0 || has_stopped w past

abbrev pub reason_of : Bool → Bool → Option RelayReason
reason_of rejected stopped =
    if rejected then some relay_rejected else if stopped then some relay_warning else none

-- The reason that a past gives, and whether a relay is armed.
unfoldable pub IsState : RelayWatch → Past → RelayWatch → Type 0
IsState w past v =
    (v.label ≡ w.label)
    × (v.reason ≡ reason_of (has_rejection past) (has_stopped w past))
    × (has_rejection past ≡ false → v.armed ≡ has_warning w past)

-- An answer of a watch in a state.
observe-answer :
    (now : ℕ) (e : RunEvent) (v : RelayWatch)
    → (observe now e v).0 ≡ v.armed && no_reason v.reason && is_tool_result_event e
unfolding observe is_tool_result_event
observe-answer now (rate_limit_event none) v = ground arith
observe-answer now (rate_limit_event (some info)) v = ground arith
observe-answer now (assistant none) v = ground arith
observe-answer now (assistant (some blocks)) v = ground arith
observe-answer now (user none) v = ground arith
observe-answer now (user (some blocks)) v = ground arith
observe-answer now other v = ground arith

-- What an event makes of a state.
IsNext : RelayWatch → RelayWatch → Past → ℕ → RunEvent → Bool × RelayWatch → Type 0
IsNext w v past now e next =
    (next.1.label ≡ w.label)
    × (next.1.reason
        ≡ reason_of (is_rejection e || has_rejection past) (next.0 || has_stopped w past))
    × ((is_rejection e || has_rejection past) ≡ false
        → next.1.armed ≡ arms w.label v.readings now e || has_warning w past)

stopped_now :
    (rejected stopped armed tool : Bool)
    → (armed && no_reason (reason_of rejected stopped) && tool) ≡ true
    → some relay_warning ≡ reason_of rejected true
stopped_now rejected stopped armed tool h = ground arith

at_safe_point-next :
    (w v : RelayWatch) (past : Past) (e : RunEvent)
    → IsState w past v
    → let next = at_safe_point e v in
      (next.1.label ≡ w.label)
      × (next.1.reason ≡ reason_of (has_rejection past) (next.0 || has_stopped w past))
      × (has_rejection past ≡ false → next.1.armed ≡ has_warning w past)
unfolding IsState
at_safe_point-next w v past e (named, given, armed) =
    elim (Bool-cases (v.armed && no_reason v.reason && is_tool_result_event e)) [
      | inl stop ↦ rw stop (
        named,
        stopped_now (has_rejection past) (has_stopped w past) v.armed (is_tool_result_event e)
            (rw given at stop),
        armed,
      )
      | inr go ↦ rw go (named, given, armed)
    ]

info-IsNext :
    (w v : RelayWatch) (past : Past) (now : ℕ) (info : Info)
    → IsState w past v
    → IsNext w v past now
        (rate_limit_event (some info))
        (observe now (rate_limit_event (some info)) v)
unfolding IsState IsNext observe
info-IsNext w v past now info (named, given, armed) = elim (Bool-cases (is_rejected info)) [
  | inl rejected ↦ rw rejected (named, refl, λ h. absurd cc)
  | inr lives ↦
      elim (Bool-cases (is_warning info now (observe_rate_limit v.label info now v.readings).0)) [
        | inl high ↦
            let arming = rw named at high in rw (lives, high) (named, given, λ h. rw arming refl)
        | inr low ↦
            let idle = rw named at low in rw (lives, low) (named, given, λ h. rw idle (armed h))
      ]
]

observe-IsNext :
    (w v : RelayWatch) (past : Past) (now : ℕ) (e : RunEvent)
    → IsState w past v
    → IsNext w v past now e (observe now e v)
unfolding IsState IsNext observe
observe-IsNext w v past now (rate_limit_event none) state = state
observe-IsNext w v past now (rate_limit_event (some info)) state =
    info-IsNext w v past now info state
observe-IsNext w v past now (assistant none) state =
    at_safe_point-next w v past (assistant none) state
observe-IsNext w v past now (assistant (some blocks)) state =
    elim (Bool-cases (fails_to_authenticate (some blocks))) [
      | inl failed ↦ rw failed state
      | inr fine ↦ rw fine (at_safe_point-next w v past (assistant (some blocks)) state)
    ]
observe-IsNext w v past now (user content) state = at_safe_point-next w v past (user content) state
observe-IsNext w v past now other state = at_safe_point-next w v past other state

pub watch_after-IsState :
    (label : Text) (readings : Readings) (past : Past)
    → let w = new_watch label readings in IsState w past (watch_after w past)
unfolding IsState IsNext watch_after has_rejection has_stopped has_warning
watch_after-IsState label readings [] = (refl, refl, λ h. refl)
watch_after-IsState label readings ((now, e) ∷ past) =
    let w : RelayWatch = new_watch label readings in
    observe-IsNext w (watch_after w past) past now e (watch_after-IsState label readings past)

answer_of :
    (rejected stopped armed warned tool : Bool)
    → (rejected ≡ false → armed ≡ warned)
    → (armed && no_reason (reason_of rejected stopped) && tool)
      ≡ (tool && warned && not rejected && not stopped)
answer_of true stopped armed warned tool h = ground arith
answer_of false stopped armed warned tool h = rw (h refl) (ground arith)

-- Whatever events came before: an event ends the process exactly where it is a tool result, a
-- warning armed the relay before it, no rejection came, and the process was not ended already.
pub observe_iff :
    (label : Text) (readings : Readings) (past : Past) (now : ℕ) (e : RunEvent)
    → let w = new_watch label readings in
      (observe now e (watch_after w past)).0 ≡ (
        is_tool_result_event e
        && has_warning w past
        && not (has_rejection past)
        && not (has_stopped w past))
unfolding IsState
observe_iff label readings past now e =
    let w : RelayWatch = new_watch label readings in
    let (named, given, armed) = watch_after-IsState label readings past in
    let v : RelayWatch = watch_after w past in
    observe-answer now e v
    ∙ (ap (λ r. v.armed && no_reason r && is_tool_result_event e) given
        ∙ answer_of (has_rejection past) (has_stopped w past) v.armed (has_warning w past)
            (is_tool_result_event e) armed)
