-- ===== src/Cycle/Rolling.antt =====
-- What `advanceCyclesLocked` of internal/policy/cycle.go does to a period.
use cpa_plugin_key_policy.Base.{
  ℕ, zero, suc, ◌+◌, ◌<◌, ◌≤◌, ◌≡◌, refl, Bool, true, false, [], ltb, Bool-cases, inl, inr, arith,
  ltb-false, ltb→lt, lt→ltb,
}
use cpa_plugin_key_policy.Calendar.{Time, Location, IsCalendar, day_start, lt-day_start}
use cpa_plugin_key_policy.Cycle.{
  Window, daily, weekly, monthly, days, Cycle, Cycles, automatic, roll, advance_cycle,
  advance_cycles, cycle,
}

-- The deadlines that follow `start` on the calendar, `n` days apart.
pub data Follows (loc : Location) (n : ℕ) (start : Time) : Time → Type 0 where
  here : Follows loc n start start
  later : {t : Time} → Follows loc n start t → Follows loc n start (day_start loc t n)

Follows-first :
    (loc : Location) (n : ℕ) (start : Time) {t : Time}
    → Follows loc n (day_start loc start n) t
    → Follows loc n start t
Follows-first loc n start here = later here
Follows-first loc n start (later f) = later (Follows-first loc n start f)

-- A period that starts by `now`, ends after it, and ends where its window says.
pub record IsCurrent (loc : Location) (n : ℕ) (now start next : Time) : Type 0 where
  pub started : start ≤ now
  pub unexpired : now < next
  pub aligned : next ≡ day_start loc start n

module _ {loc : Location} (cal : IsCalendar loc) where
  roll-IsCurrent :
      (fuel n : ℕ) (now start next : Time)
      → 0 < n
      → start ≤ now
      → next ≡ day_start loc start n
      → now < next + fuel
      → let (start', next') = roll fuel loc n now start next in
        IsCurrent loc n now start' next' × Follows loc n start start'
  unfolding roll
  roll-IsCurrent zero n now start next pos s a f =
      (record { started = s; unexpired = omega arith; aligned = a }, here)
  roll-IsCurrent (suc fuel) n now start next pos s a f = elim (Bool-cases (ltb now next)) [
    | inl h ↦ rw h (record { started = s; unexpired = ltb→lt now next h; aligned = a }, here)
    | inr h ↦
        let le : next ≤ now = ltb-false now next h in
        let (current, follows) =
          roll-IsCurrent fuel n now next (day_start loc next n) pos le refl
            (omega (arith, lt-day_start cal next n pos)) in
        rw h (current, Follows-first loc n start (rw (← a) follows))
  ]

-- What advancing a period at `now` has come to, by whether it reports a change.
abbrev pub Advanced : Location → Time → Window → Cycle → Cycle × Bool → Type 0
Advanced loc now window c (c', false) = (now < c.resets_at) × (c' ≡ c)
Advanced loc now window c (c', true) =
    (c.resets_at ≤ now)
    × IsCurrent loc (days window) now c'.started_at c'.resets_at
    × Follows loc (days window) c.resets_at c'.started_at
    × (c'.by_model ≡ [])
    × (c'.reset_kind ≡ automatic)

pub days_pos : (window : Window) → 0 < days window
unfolding days
days_pos daily = omega arith
days_pos weekly = omega arith
days_pos monthly = omega arith

module _ {loc : Location} (cal : IsCalendar loc) where
  -- With zone data that is a calendar, advancing leaves an unexpired period alone; an expired one
  -- is replaced by an empty automatic period that contains now and starts on one of the deadlines
  -- that follow the old deadline.
  pub advance_cycle-Advanced :
      (now : Time) (window : Window) (c : Cycle)
      → Advanced loc now window c (advance_cycle loc now window c)
  unfolding advance_cycle
  advance_cycle-Advanced now window c = elim (Bool-cases (ltb now c.resets_at)) [
    | inl h ↦ rw h (ltb→lt now c.resets_at h, refl)
    | inr h ↦
        let le : c.resets_at ≤ now = ltb-false now c.resets_at h in
        let (current, follows) =
          roll-IsCurrent cal now (days window) now c.resets_at
            (day_start loc c.resets_at (days window)) (days_pos window) le refl
            (omega (arith, lt-day_start cal c.resets_at (days window) (days_pos window))) in
        rw h (le, current, follows, refl, refl)
  ]

  advance_cycle_unexpired :
      (now : Time) (window : Window) (c : Cycle)
      → now < (advance_cycle loc now window c).0.resets_at
  advance_cycle_unexpired now window c =
      go (advance_cycle loc now window c) (advance_cycle-Advanced now window c)
    where
      go : (r : Cycle × Bool) → Advanced loc now window c r → now < r.0.resets_at
      go (c', false) h = rw h.1 h.0
      go (c', true) h = h.1.unexpired

  -- With zone data that is a calendar, every period of a key ends later than now once its periods
  -- are advanced, so the fuel of the loop is enough.
  pub advance_cycles_unexpired :
      (now : Time) (window : Window) (cycles : Cycles)
      → now < (cycle window (advance_cycles loc now cycles).0).resets_at
  unfolding advance_cycles cycle
  advance_cycles_unexpired now daily cycles = advance_cycle_unexpired now daily cycles.daily_cycle
  advance_cycles_unexpired now weekly cycles =
      advance_cycle_unexpired now weekly cycles.weekly_cycle
  advance_cycles_unexpired now monthly cycles =
      advance_cycle_unexpired now monthly cycles.monthly_cycle

pub advance_cycle_kept :
    (loc : Location) (now : Time) (window : Window) (c : Cycle)
    → now < c.resets_at
    → advance_cycle loc now window c ≡ (c, false)
unfolding advance_cycle
advance_cycle_kept loc now window c h = rw (lt→ltb now c.resets_at h)

-- With zone data that is a calendar, periods advanced at an instant are left as they are by
-- advancing them again at that instant, which reports no change.
pub advance_cycles_idem :
    {loc : Location} (cal : IsCalendar loc) (now : Time) (cycles : Cycles)
    → let rolled = (advance_cycles loc now cycles).0 in
      advance_cycles loc now rolled ≡ (rolled, false)
unfolding advance_cycles
advance_cycles_idem {loc} cal now cycles =
    let d = (advance_cycle loc now daily cycles.daily_cycle).0 in
    let w = (advance_cycle loc now weekly cycles.weekly_cycle).0 in
    let m = (advance_cycle loc now monthly cycles.monthly_cycle).0 in
    rw (
      advance_cycle_kept loc now daily d (advance_cycle_unexpired cal now daily cycles.daily_cycle),
      advance_cycle_kept loc now weekly w
          (advance_cycle_unexpired cal now weekly cycles.weekly_cycle),
      advance_cycle_kept loc now monthly m
          (advance_cycle_unexpired cal now monthly cycles.monthly_cycle),
    )
