-- ===== src/Examples/Days.antt =====
-- The theorems on days, periods and rates at concrete values.
use cpa_plugin_key_policy.Base.{
  suc, ◌+◌, ◌*◌, ◌≤◌, ◌<◌, ◌≡◌, refl, arith, true, none, [], ◌∷◌, min, inr, string_eq, nat_eq,
}
use cpa_plugin_key_policy.Dict.{get}
use cpa_plugin_key_policy.Calendar.{day_begin, day_start}
use cpa_plugin_key_policy.Cycle.{
  daily, initial, advance_cycle, advance_cycles, known_kind, validate_cycles,
}
use cpa_plugin_key_policy.Cycle.Rolling.{Advanced, advance_cycle-Advanced}
use cpa_plugin_key_policy.Cycle.Validity.{
  validate_cycles-new_cycles, validate_cycles-advance_cycles,
}
use cpa_plugin_key_policy.Limiter.{RateLimiter, minute, allow}
use cpa_plugin_key_policy.Limiter.Windows.{admitted_of, admitted_of_window, allow_retry}
use cpa_plugin_key_policy.Examples.{day, utc, utc-IsCalendar, noon, opened}

advance_cycle-Advanced_example :
    Advanced utc noon daily opened.daily_cycle (advance_cycle utc noon daily opened.daily_cycle)
advance_cycle-Advanced_example = advance_cycle-Advanced utc-IsCalendar noon daily opened.daily_cycle

third_day-begins : 0 < day_start utc (3 * day + 7) 0
unfolding day_start day_begin
third_day-begins = omega arith

opened-valid : validate_cycles utc opened ≡ none
unfolding known_kind
opened-valid = validate_cycles-new_cycles utc-IsCalendar (3 * day + 7) initial third_day-begins refl

validate_cycles-advance_cycles_example :
    validate_cycles utc (advance_cycles utc noon opened).0 ≡ none
validate_cycles-advance_cycles_example =
    validate_cycles-advance_cycles utc-IsCalendar noon opened opened-valid

-- a key that used its rate of 2 in the current minute
abbrev spent_limiter : RateLimiter
spent_limiter = ("key", record { window_start = noon; count = 2 }) ∷ []

admitted_of_window_example :
    admitted_of "key" 2 (noon ∷ (noon + 1) ∷ (noon + 2) ∷ []) [] ≡ min (suc 2) 2
unfolding get
admitted_of_window_example =
    admitted_of_window "key" 2 noon ((noon + 1) ∷ (noon + 2) ∷ []) [] (omega arith) (omega arith)
      (inr refl) ((omega arith, omega arith), ((omega arith, omega arith), tt))

allow_retry_example :
    let (l', answer) = allow "key" 2 (noon + 5) spent_limiter in
    (noon + 5 < answer.retry_at)
    × (answer.retry_at ≤ noon + 5 + minute)
    × ((allow "key" 2 answer.retry_at l').1.allowed ≡ true)
unfolding allow get
allow_retry_example = allow_retry "key" 2 (noon + 5) spent_limiter refl
