-- ===== src/Limiter/Windows.antt =====
-- What the limiter of internal/policy/limiter.go admits in a window, and when a refused request may
-- come back.
use cpa_plugin_key_policy.Base.{
  ℕ, suc, ◌+◌, ◌-◌, ◌<◌, ◌≤◌, ◌≡◌, ◌≢◌, true, false, List, [], ◌∷◌, String, string_eq, nat_eq, min,
  arith, leb, leb→le, leb-false, ◌⊎◌, length, All, some, get_or, guard, option_map, not, Bool-cases,
  inl, inr, if◌then◌else◌,
}
use cpa_plugin_key_policy.Dict.{get, put, get-put_self, get-put_ne, get-keep, get-map_values}
use cpa_plugin_key_policy.Int64.{Int64, half}
use cpa_plugin_key_policy.Calendar.{Time}
use cpa_plugin_key_policy.Limiter.{
  RateBucket, RateLimiter, minute, no_bucket, closed, current_bucket, allow, admitted, snapshot,
}

-- how many of a list of requests of one key are admitted, one after the other
unfoldable pub admitted_of : String → ℕ → List Time → RateLimiter → ℕ
admitted_of id rpm [] l = 0
admitted_of id rpm (now ∷ later) l =
    let (l', answer) = allow id rpm now l in
    (if answer.allowed then 1 else 0) + admitted_of id rpm later l'

abbrev pub InWindow : Time → Time → Type 0
InWindow start now = (start ≤ now) × (now < start + minute)

-- a rate above 0
abbrev pub IsRate : Int64 → Type 0
IsRate rpm = (0 < rpm) × (rpm < half)

-- The window of a key that is open at `start` with `count` requests.
abbrev Open : String → Time → ℕ → RateLimiter → Type 0
Open id start count l = get id l ≡ some (record { window_start = start; count = count })

module _ (id : String) (rpm start : ℕ) (l : RateLimiter) where
  current_bucket-Open :
      (count now : ℕ)
      → 0 < start
      → Open id start count l
      → InWindow start now
      → current_bucket id now l ≡ record { window_start = start; count = count }
  unfolding current_bucket
  current_bucket-Open count now pos o w = rw o (ground arith)

  allow-Open :
      (count now : ℕ)
      → 0 < start
      → IsRate rpm
      → Open id start count l
      → InWindow start now
      → allow id rpm now l ≡ (
          if leb rpm count
          then (
            put id (record { window_start = start; count = count }) l,
            record { allowed = false; retry_at = start + minute },
          )
          else (put id (record { window_start = start; count = count + 1 }) l, admitted))
  unfolding allow
  allow-Open count now pos rate o w = rw (current_bucket-Open count now pos o w) (ground arith)

  -- the first request of a key that has no open window
  allow_first :
      IsRate rpm
      → (closed start (get_or (get id l) no_bucket) ≡ true)
        ⊎ ((get_or (get id l) no_bucket).window_start ≡ 0)
      → allow id rpm start l ≡ (put id (record { window_start = start; count = 1 }) l, admitted)
  unfolding allow current_bucket
  allow_first rate h = ground arith

-- In an open window the requests are admitted up to the rate, and then refused.
admitted_of-Open :
    (id : String) (rpm start count : ℕ) (times : List Time) (l : RateLimiter)
    → 0 < start
    → IsRate rpm
    → Open id start count l
    → All (InWindow start) times
    → admitted_of id rpm times l ≡ min (length times) (rpm - count)
unfolding admitted_of
admitted_of-Open id rpm start count [] l pos rate o w = omega arith
admitted_of-Open id rpm start count (now ∷ later) l pos rate o (w, ws) =
    elim (Bool-cases (leb rpm count)) [
      | inl full ↦
          rw (allow-Open id rpm start l count now pos rate o w, full)
            (omega (
              leb→le rpm count full,
              arith,
              admitted_of-Open id rpm start count later _ pos rate (get-put_self id _ l) ws,
            ))
      | inr room ↦
          rw (allow-Open id rpm start l count now pos rate o w, room)
            (omega (
              leb-false rpm count room,
              arith,
              admitted_of-Open id rpm start (count + 1) later _ pos rate (get-put_self id _ l) ws,
            ))
    ]

-- From the first request of a key without an open window, at an instant after the zero Time and
-- with a rate, the requests of the next minute are admitted up to the rate and refused beyond it,
-- whenever in the minute they come.
pub admitted_of_window :
    (id : String) (rpm start : ℕ) (times : List Time) (l : RateLimiter)
    → 0 < start
    → IsRate rpm
    → (closed start (get_or (get id l) no_bucket) ≡ true)
      ⊎ ((get_or (get id l) no_bucket).window_start ≡ 0)
    → All (InWindow start) times
    → admitted_of id rpm (start ∷ times) l ≡ min (suc (length times)) rpm
unfolding admitted_of
admitted_of_window id rpm start times l pos rate h ws =
    rw (allow_first id rpm start l rate h)
      (omega (arith, admitted_of-Open id rpm start 1 times _ pos rate (get-put_self id _ l) ws))

current_bucket_window :
    (id : String) (now : Time) (l : RateLimiter)
    → InWindow (current_bucket id now l).window_start now
unfolding current_bucket
current_bucket_window id now l = ground arith

allow_refused :
    (id : String) (rpm now : ℕ) (l : RateLimiter)
    → (allow id rpm now l).1.allowed ≡ false
    → let b = current_bucket id now l in
      IsRate rpm
      × (allow id rpm now l
          ≡ (put id b l, record { allowed = false; retry_at = b.window_start + minute }))
unfolding allow
allow_refused id rpm now l h = ground arith

allow_after :
    (id : String) (rpm : ℕ) (l : RateLimiter) (b : RateBucket)
    → IsRate rpm
    → (allow id rpm (b.window_start + minute) (put id b l)).1.allowed ≡ true
unfolding allow current_bucket
allow_after id rpm l b rate = rw get-put_self (ground arith)

-- A refused request is told an instant after now and at most a minute ahead, and sent again at that
-- instant it is admitted.
pub allow_retry :
    (id : String) (rpm now : ℕ) (l : RateLimiter)
    → (allow id rpm now l).1.allowed ≡ false
    → let (l', answer) = allow id rpm now l in
      (now < answer.retry_at)
      × (answer.retry_at ≤ now + minute)
      × ((allow id rpm answer.retry_at l').1.allowed ≡ true)
allow_retry id rpm now l refused =
    let (rate, e) = allow_refused id rpm now l refused in
    let b = current_bucket id now l in
    let w = current_bucket_window id now l in
    rw e (omega arith, omega arith, allow_after id rpm l b rate)

-- A request of one key changes no other key's window.
pub get-allow_ne :
    (id j : String) (rpm now : ℕ) (l : RateLimiter)
    → id ≢ j
    → get j (allow id rpm now l).0 ≡ get j l
unfolding allow
get-allow_ne id j rpm now l h = ground (
  arith,
  get-put_ne id j (current_bucket id now l) l h,
  get-put_ne id j (record (current_bucket id now l) { count = (current_bucket id now l).count + 1 })
      l h,
)

-- The snapshot reports for a key the count of its window where that is open, and else nothing.
pub get-snapshot :
    (id : String) (now : Time) (l : RateLimiter)
    → get id (snapshot now l)
      ≡ option_map (λ (b : RateBucket). b.count) (guard (λ b. not (closed now b)) (get id l))
unfolding snapshot
get-snapshot id now l = rw (get-map_values, get-keep)
