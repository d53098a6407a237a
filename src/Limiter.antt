-- ===== src/Limiter.antt =====
-- The request-rate limiter: internal/policy/limiter.go. `RateLimiter.buckets` is the state; a method
-- takes the clock reading that it makes. The rate is an int.
pub mod Windows
use cpa_plugin_key_policy.Base.{
  ℕ, ◌+◌, ◌-◌, Bool, true, false, not, ◌||◌, String, ltb, leb, ◌==◌, nat_eq, string_eq, get_or,
  if◌then◌else◌,
}
use cpa_plugin_key_policy.Dict.{Dict, get, put, remove, keep, map_values}
use cpa_plugin_key_policy.Int64.{Int64, negative}
use cpa_plugin_key_policy.Calendar.{Time}

-- `rateBucket`
pub record RateBucket : Type 0 where
  pub window_start : Time
  pub count : ℕ

abbrev pub RateLimiter : Type 0
RateLimiter = Dict String RateBucket

-- `time.Minute`, in nanoseconds
abbrev pub minute : Time
minute = 60000000000

-- `rateBucket{}`
abbrev pub no_bucket : RateBucket
no_bucket = record { window_start = 0; count = 0 }

-- a window that is over at `now`, or that starts after it
abbrev pub closed : Time → RateBucket → Bool
closed now b = leb minute (now - b.window_start) || ltb now b.window_start

-- the bucket that a request meets
unfoldable pub current_bucket : String → Time → RateLimiter → RateBucket
current_bucket id now l =
    let b = get_or (get id l) no_bucket in
    if b.window_start == 0 || closed now b then record { window_start = now; count = 0 } else b

-- the answer of `Allow`; `retry_at` is the zero Time for an admitted request
pub record Answer : Type 0 where
  pub allowed : Bool
  pub retry_at : Time

abbrev pub admitted : Answer
admitted = record { allowed = true; retry_at = 0 }

-- `Allow`
unfoldable pub allow : String → Int64 → Time → RateLimiter → RateLimiter × Answer
unfolding current_bucket
allow id rpm now l =
    let b = current_bucket id now l in
    if rpm == 0 || negative rpm
    then (l, admitted)
    else if leb rpm b.count
    then (put id b l, record { allowed = false; retry_at = b.window_start + minute })
    else (put id (record b { count = b.count + 1 }) l, admitted)

-- `Reset`
unfoldable pub reset : String → RateLimiter → RateLimiter
reset id l = remove id l

-- `Snapshot`
unfoldable pub snapshot : Time → RateLimiter → Dict String ℕ
snapshot now l = map_values (λ _ b. b.count) (keep (λ _ b. not (closed now b)) l)
