-- ===== src/Cycle.antt =====
-- Quota periods: internal/policy/cycle.go. A `Cycle` is a period of one window; the three of a key
-- are its `Cycles`. A by_model table that a file leaves out is not modelled: a map is never nil.
pub mod Rolling
pub mod Validity
pub mod Usage
use cpa_plugin_key_policy.Base.{
  ℕ, zero, suc, ◌≡◌, Bool, true, false, not, ◌||◌, ◌&&◌, Option, none, some, List, [], ◌∷◌, String,
  ltb, ◌==◌, nat_eq, if◌then◌else◌,
}
use cpa_plugin_key_policy.Dict.{Dict}
use cpa_plugin_key_policy.Int64.{Int64, add64}
use cpa_plugin_key_policy.Text.{blank}
use cpa_plugin_key_policy.Calendar.{Time, Location, day_start}
use cpa_plugin_key_policy.Bucket.{Bucket, valid}

-- `UsageResetWindow`, for its three values
pub data Window : Type 0 where
  daily weekly monthly : Window

-- `UsageResetWindow.days`
unfoldable pub days : Window → ℕ
days daily = 1
days weekly = 7
days monthly = 30

-- the text of `Cycle.ResetKind`; `other` is any text that the code does not write
pub data ResetKind : Type 0 where
  initial migration manual automatic : ResetKind
  other : String → ResetKind

pub record Cycle : Type 0 where
  pub started_at : Time
  pub resets_at : Time
  pub reset_kind : ResetKind
  pub by_model : Dict String Bucket

pub record Cycles : Type 0 where
  pub daily_cycle : Cycle
  pub weekly_cycle : Cycle
  pub monthly_cycle : Cycle

-- `Cycles.cycle`
unfoldable pub cycle : Window → Cycles → Cycle
cycle daily cycles = cycles.daily_cycle
cycle weekly cycles = cycles.weekly_cycle
cycle monthly cycles = cycles.monthly_cycle

-- a write through the pointer that `Cycles.cycle` returns
unfoldable pub set_cycle : Window → Cycle → Cycles → Cycles
set_cycle daily c cycles = record cycles { daily_cycle = c }
set_cycle weekly c cycles = record cycles { weekly_cycle = c }
set_cycle monthly c cycles = record cycles { monthly_cycle = c }

pub used_from : Int64 → Dict String Bucket → Int64
used_from used [] = used
used_from used ((_, bucket) ∷ m) = used_from (add64 used bucket.charged_nano) m

-- `Cycle.used`
unfoldable pub used : Cycle → Int64
unfolding used_from
used c = used_from 0 c.by_model

-- one round of the loop in `newCycles`
unfoldable pub new_cycle : Location → Time → ResetKind → Window → Cycle
unfolding days
new_cycle loc at kind window =
    let opened : Cycle = record {
      started_at = at;
      resets_at = day_start loc at (days window);
      reset_kind = kind;
      by_model = [];
    } in
    elim window [ daily ↦ record opened { started_at = day_start loc at 0 } | _ ↦ opened ]

-- `newCycles`
unfoldable pub new_cycles : Location → Time → ResetKind → Cycles
unfolding new_cycle
new_cycles loc at kind = record {
  daily_cycle = new_cycle loc at kind daily;
  weekly_cycle = new_cycle loc at kind weekly;
  monthly_cycle = new_cycle loc at kind monthly;
}

-- `for !now.Before(next) { start, next = next, dayStart(next, …) }`: the start and the end of the
-- period that is reached. Every round moves `next` forward, so `now` rounds are enough.
unfoldable pub roll : ℕ → Location → ℕ → Time → Time → Time → Time × Time
roll zero loc n now start next = (start, next)
roll (suc fuel) loc n now start next =
    let rest = roll fuel loc n now next (day_start loc next n) in
    if not (ltb now next) then rest else (start, next)

-- one round of the loop in `advanceCyclesLocked`, and whether it changed the period
unfoldable pub advance_cycle : Location → Time → Window → Cycle → Cycle × Bool
unfolding days
advance_cycle loc now window c =
    if ltb now c.resets_at
    then (c, false)
    else (let start = c.resets_at in
        let (start', next') =
          roll now loc (days window) now start (day_start loc start (days window)) in
        (
          record { started_at = start'; resets_at = next'; reset_kind = automatic; by_model = [] },
          true,
        ))

-- `advanceCyclesLocked`
unfoldable pub advance_cycles : Location → Time → Cycles → Cycles × Bool
advance_cycles loc now cycles =
    let (d, d') = advance_cycle loc now daily cycles.daily_cycle in
    let (w, w') = advance_cycle loc now weekly cycles.weekly_cycle in
    let (m, m') = advance_cycle loc now monthly cycles.monthly_cycle in
    (record { daily_cycle = d; weekly_cycle = w; monthly_cycle = m }, d' || w' || m')

-- `manualResetDeadline`
unfoldable pub manual_reset_deadline : Location → Time → Window → Time
unfolding days
manual_reset_deadline loc now window = day_start loc now (days window)

-- the period that `resetWindowAndPersist` (internal/policy/ledger.go) writes
unfoldable pub manual_cycle : Location → Time → Window → Cycle
manual_cycle loc now window = record {
  started_at = now;
  resets_at = manual_reset_deadline loc now window;
  reset_kind = manual;
  by_model = [];
}

-- the errors of `validateCycles`
pub data CycleError : Type 0 where
  bad_interval bad_reset_date bad_reset_kind empty_model bad_counters : CycleError

unfoldable pub known_kind : ResetKind → Bool
known_kind (other _) = false
known_kind initial = true
known_kind migration = true
known_kind manual = true
known_kind automatic = true

pub validate_models : Dict String Bucket → Option CycleError
validate_models [] = none
validate_models ((name, bucket) ∷ m) =
    let rest = validate_models m in
    if blank name then some empty_model else if not (valid bucket) then some bad_counters else rest

-- one round of `validateCycles`; a round without an error goes on
unfoldable pub validate_cycle : Location → Window → Cycle → Option CycleError
unfolding days known_kind validate_models
validate_cycle loc window c =
    if c.started_at == 0 || not (ltb c.started_at c.resets_at)
    then some bad_interval
    else if not (day_start loc c.started_at (days window) == c.resets_at)
    then some bad_reset_date
    else if not (known_kind c.reset_kind)
    then some bad_reset_kind
    else validate_models c.by_model

pub or_else : Option CycleError → Option CycleError → Option CycleError
or_else none e = e
or_else (some e) _ = some e

-- `validateCycles`
unfoldable pub validate_cycles : Location → Cycles → Option CycleError
unfolding validate_cycle or_else
validate_cycles loc cycles = or_else (validate_cycle loc daily cycles.daily_cycle) (
    or_else (validate_cycle loc weekly cycles.weekly_cycle)
      (validate_cycle loc monthly cycles.monthly_cycle))
