-- ===== src/Accounts.antt =====
-- src/core/claude_accounts.py: the rate limit readings of the login accounts and the notices of
-- accounts that need a login.
--
-- Times are microseconds, a utilization is in millionths. The `_login_notified` set is the list of
-- its labels, and `_event_readings` the list of its items.
pub mod Watch
pub mod SafePoint
pub mod Decision
pub mod Notices
mod Tests
use claude_code_manager.Base.{
  ℕ, ◌+◌, Bool, true, false, not, ◌&&◌, Option, none, some, List, [], ◌∷◌, if◌then◌else◌, max, any,
  filter, ◌==◌, Text, codes, Text_eq,
}
use claude_code_manager.Memo.{assign}

-- The `rate_limit_info` of an event: the utilizations of its two windows and its reset time, where
-- they are numbers.
pub record Info : Type 0 where
  pub five_hour : Option ℕ
  pub seven_day : Option ℕ
  pub status : Text
  pub resets_at : Option ℕ

pub record RateLimitReading : Type 0 where
  pub at : ℕ
  pub utilization : ℕ
  pub rejected_until : Option ℕ

abbrev pub Readings : Type 0
Readings = List (Text × RateLimitReading)

abbrev pub warning_utilization : ℕ
warning_utilization = 900000

abbrev rejected_without_reset : ℕ
rejected_without_reset = 3600000000

abbrev largest : Option ℕ → Option ℕ → Option ℕ
largest (some u) (some v) = some (max u v)
largest (some u) none = some u
largest none v = v

abbrev given_or : Option ℕ → ℕ → ℕ
given_or none v = v
given_or (some u) v = u

abbrev pub is_rejected : Info → Bool
is_rejected info = info.status == codes "rejected"

abbrev reading_of : Info → ℕ → Option ℕ → Bool → Option RateLimitReading
reading_of info moment none false = none
reading_of info moment (some u) false =
    some (record { at = moment; utilization = u; rejected_until = none })
reading_of info moment used true = some (record {
  at = moment;
  utilization = given_or used 1000000;
  rejected_until = some (given_or info.resets_at (moment + rejected_without_reset));
})

abbrev with_reading : Text → Readings → Option RateLimitReading → Readings
with_reading label readings none = readings
with_reading label readings (some reading) = assign label reading readings

unfoldable pub observe_rate_limit : Text → Info → ℕ → Readings → Option RateLimitReading × Readings
observe_rate_limit label info moment readings =
    let reading =
      reading_of info moment (largest info.five_hour info.seven_day) (is_rejected info) in
    (reading, with_reading label readings reading)

abbrev pub is_member : Text → List Text → Bool
is_member label labels = any (λ l. l == label) labels

unfoldable pub login_notice_due : Text → Bool → List Text → Bool × List Text
login_notice_due label unhealthy notified =
    if not unhealthy
    then (false, filter (λ l. not (l == label)) notified)
    else if is_member label notified
    then (false, notified)
    else (true, label ∷ notified)
