-- ===== src/Cycle/Validity.antt =====
-- The periods that the ledger opens, rolls and resets pass `validateCycles`, which the next start
-- runs over the live file.
use cpa_plugin_key_policy.Base.{
  ℕ, ◌+◌, ◌<◌, ◌≤◌, ◌≡◌, refl, ap, sym, none, true, false, Bool, arith, nat_eq,
}
use cpa_plugin_key_policy.Calendar.{
  Time, Location, IsCalendar, day_start, day_begin, lt-day_start, day_start_zero-le, day_begin_iff,
}
use cpa_plugin_key_policy.Cycle.{
  Window, daily, weekly, monthly, Cycle, Cycles, ResetKind, known_kind, days, new_cycle, new_cycles,
  advance_cycle, advance_cycles, manual_reset_deadline, manual_cycle, validate_cycle,
  validate_cycles, validate_models,
}
use cpa_plugin_key_policy.Cycle.Rolling.{
  Advanced, Follows, here, later, advance_cycle-Advanced, days_pos,
}

-- What `validateCycles` asks of one period.
pub record IsValid (loc : Location) (window : Window) (c : Cycle) : Type 0 where
  pub begun : 0 < c.started_at
  pub interval : c.started_at < c.resets_at
  pub aligned : c.resets_at ≡ day_start loc c.started_at (days window)
  pub kind : known_kind c.reset_kind ≡ true
  pub models : validate_models c.by_model ≡ none

module _ (loc : Location) (window : Window) (c : Cycle) where
  validate_cycle-none : IsValid loc window c → validate_cycle loc window c ≡ none
  unfolding validate_cycle
  validate_cycle-none v = ground (arith, v.aligned, v.kind, v.models)

  none-validate_cycle : validate_cycle loc window c ≡ none → IsValid loc window c
  unfolding validate_cycle
  none-validate_cycle h = record {
    begun = ground arith;
    interval = ground arith;
    aligned = ground arith;
    kind = ground arith;
    models = ground arith;
  }

pub validate_cycles-none :
    (loc : Location) (cycles : Cycles)
    → IsValid loc daily cycles.daily_cycle
    → IsValid loc weekly cycles.weekly_cycle
    → IsValid loc monthly cycles.monthly_cycle
    → validate_cycles loc cycles ≡ none
unfolding validate_cycles
validate_cycles-none loc cycles d w m = rw (
  validate_cycle-none loc daily cycles.daily_cycle d,
  validate_cycle-none loc weekly cycles.weekly_cycle w,
  validate_cycle-none loc monthly cycles.monthly_cycle m,
)

pub validate_cycles_parts :
    (loc : Location) (cycles : Cycles)
    → validate_cycles loc cycles ≡ none
    → IsValid loc daily cycles.daily_cycle
      × IsValid loc weekly cycles.weekly_cycle
      × IsValid loc monthly cycles.monthly_cycle
unfolding validate_cycles
validate_cycles_parts loc cycles h = (
  none-validate_cycle loc daily cycles.daily_cycle (ground arith),
  none-validate_cycle loc weekly cycles.weekly_cycle (ground arith),
  none-validate_cycle loc monthly cycles.monthly_cycle (ground arith),
)

module _ {loc : Location} (cal : IsCalendar loc) where
  -- the first instant of a day is on that day
  civil-day_start : (t : Time) → loc.civil (day_start loc t 0) ≡ loc.civil t
  unfolding day_start
  civil-day_start t =
      let d = loc.civil t in
      ground (
        arith,
        day_begin_iff cal (d + 0) (day_begin loc (d + 0)),
        day_begin_iff cal (d + 1) (day_begin loc (d + 0)),
        day_begin_iff cal (d + 0) t,
        day_begin_iff cal (d + 1) t,
      )

  day_start-day_start : (t : Time) (n : ℕ) → day_start loc (day_start loc t 0) n ≡ day_start loc t n
  unfolding day_start
  day_start-day_start t n = ap (λ d. day_begin loc (d + n)) (civil-day_start t)

  le_of_Follows : (n : ℕ) {s t : Time} → 0 < n → Follows loc n s t → s ≤ t
  le_of_Follows n pos here = omega arith
  le_of_Follows n pos (later {t = u} f) =
      omega (arith, le_of_Follows n pos f, lt-day_start cal u n pos)

  -- Periods opened at an instant pass validation, whatever their kind is of the four known ones.
  new_cycle-IsValid :
      (at : Time) (kind : ResetKind) (window : Window)
      → 0 < day_start loc at 0
      → known_kind kind ≡ true
      → IsValid loc window (new_cycle loc at kind window)
  unfolding new_cycle validate_models
  new_cycle-IsValid at kind daily pos k = record {
    begun = pos;
    interval = omega (arith, day_start_zero-le cal at, lt-day_start cal at 1 (omega arith));
    aligned = sym (day_start-day_start at 1);
    kind = k;
    models = refl;
  }
  new_cycle-IsValid at kind weekly pos k = record {
    begun = omega (arith, day_start_zero-le cal at);
    interval = lt-day_start cal at 7 (omega arith);
    aligned = refl;
    kind = k;
    models = refl;
  }
  new_cycle-IsValid at kind monthly pos k = record {
    begun = omega (arith, day_start_zero-le cal at);
    interval = lt-day_start cal at 30 (omega arith);
    aligned = refl;
    kind = k;
    models = refl;
  }

  -- With zone data that is a calendar, periods opened with a kind that the code writes, on a day
  -- that begins after the zero Time, pass validation.
  pub validate_cycles-new_cycles :
      (at : Time) (kind : ResetKind)
      → 0 < day_start loc at 0
      → known_kind kind ≡ true
      → validate_cycles loc (new_cycles loc at kind) ≡ none
  unfolding new_cycles
  validate_cycles-new_cycles at kind pos k =
      validate_cycles-none loc (new_cycles loc at kind) (new_cycle-IsValid at kind daily pos k)
        (new_cycle-IsValid at kind weekly pos k) (new_cycle-IsValid at kind monthly pos k)

  Advanced-IsValid :
      (now : Time) (window : Window) (c : Cycle) (r : Cycle × Bool)
      → Advanced loc now window c r
      → IsValid loc window c
      → IsValid loc window r.0
  unfolding validate_models known_kind
  Advanced-IsValid now window c (c', false) a v = rw a.1 v
  Advanced-IsValid now window c (c', true) a v = record {
    begun = omega (arith, v.begun, v.interval, le_of_Follows (days window) (days_pos window) a.2);
    interval = omega (arith, a.1.started, a.1.unexpired);
    aligned = a.1.aligned;
    kind = rw a.4;
    models = rw a.3;
  }

  -- With zone data that is a calendar, advancing keeps the periods of a key valid.
  pub validate_cycles-advance_cycles :
      (now : Time) (cycles : Cycles)
      → validate_cycles loc cycles ≡ none
      → validate_cycles loc (advance_cycles loc now cycles).0 ≡ none
  unfolding advance_cycles
  validate_cycles-advance_cycles now cycles h =
      let (d, w, m) = validate_cycles_parts loc cycles h in
      validate_cycles-none loc (advance_cycles loc now cycles).0
        (Advanced-IsValid now daily cycles.daily_cycle
          (advance_cycle loc now daily cycles.daily_cycle)
          (advance_cycle-Advanced cal now daily cycles.daily_cycle) d)
        (Advanced-IsValid now weekly cycles.weekly_cycle
          (advance_cycle loc now weekly cycles.weekly_cycle)
          (advance_cycle-Advanced cal now weekly cycles.weekly_cycle) w)
        (Advanced-IsValid now monthly cycles.monthly_cycle
          (advance_cycle loc now monthly cycles.monthly_cycle)
          (advance_cycle-Advanced cal now monthly cycles.monthly_cycle) m)

  -- With zone data that is a calendar, the period that a manual reset writes after the zero Time is
  -- valid, wherever in a day the reset is made.
  pub manual_cycle-IsValid :
      (now : Time) (window : Window) → 0 < now → IsValid loc window (manual_cycle loc now window)
  unfolding validate_models known_kind manual_cycle manual_reset_deadline
  manual_cycle-IsValid now window pos = record {
    begun = pos;
    interval = lt-day_start cal now (days window) (days_pos window);
    aligned = refl;
    kind = refl;
    models = refl;
  }
