-- ===== src/Ledger/Journaled.antt =====
-- Booking a journalled record: `recordJournaled` of internal/policy/handoff.go, in the instance that
-- takes over.
use cpa_plugin_key_policy.Base.{
  ◌≤◌, ◌≡◌, ◌⊎◌, refl, Bool, true, false, ◌||◌, Option, none, some, String, string_eq, nat_eq, ltb,
  ◌==◌, if◌then◌else◌, get_or, arith,
}
use cpa_plugin_key_policy.Dict.{get, put}
use cpa_plugin_key_policy.Calendar.{Time, Location, IsCalendar}
use cpa_plugin_key_policy.Bucket.{Bucket}
use cpa_plugin_key_policy.Cycle.{
  Window, daily, weekly, monthly, Cycle, Cycles, cycle, advance_cycles,
}
use cpa_plugin_key_policy.Cycle.Rolling.{Advanced, advance_cycle-Advanced}
use cpa_plugin_key_policy.Ledger.{
  Ledger, KeyUsage, no_usage, mark_dirty, evict_expired, charge_cycle, charge_cycles, deduct_charge,
  charge_periods, book_day, open_date, record_call,
}

-- a period that began after the record does not count it
unfoldable pub charge_cycle_from : Time → String → Bucket → Cycle → Cycle
charge_cycle_from at model delta c = if ltb at c.started_at then c else charge_cycle model delta c

unfoldable pub charge_cycles_from : Time → String → Bucket → Cycles → Cycles
charge_cycles_from at model delta cycles = record {
  daily_cycle = charge_cycle_from at model delta cycles.daily_cycle;
  weekly_cycle = charge_cycle_from at model delta cycles.weekly_cycle;
  monthly_cycle = charge_cycle_from at model delta cycles.monthly_cycle;
}

unfoldable pub charge_periods_from :
    Location → Time → Time → String → Bucket → Bool → Option Cycles → KeyUsage → KeyUsage
charge_periods_from loc now at model delta deduct none usage = usage
charge_periods_from loc now at model delta deduct (some cycles) usage = record usage {
  cycles = some (charge_cycles_from at model delta (advance_cycles loc now cycles).0);
  balance = if deduct then deduct_charge delta.charged_nano usage.balance else usage.balance;
}

-- the instant that a record is booked at
unfoldable pub booking_time : Time → Time → Time
booking_time now at = if at == 0 || ltb now at then now else at

-- `recordJournaled`
unfoldable pub record_journaled : String → String → Bucket → Bool → Time → Time → Ledger → Ledger
record_journaled id model delta deduct at now l =
    let at' = booking_time now at in
    let usage = get_or (get id l.entries) no_usage in
    let charged = charge_periods_from l.location now at' model delta deduct usage.cycles usage in
    let booked = book_day (open_date at' l) model delta charged in
    mark_dirty (evict_expired now (record l { entries = put id booked l.entries })).0

charge_cycle_from_begun :
    (now : Time) (model : String) (delta : Bucket) (c : Cycle)
    → c.started_at ≤ now
    → charge_cycle_from now model delta c ≡ charge_cycle model delta c
unfolding charge_cycle_from
charge_cycle_from_begun now model delta c h = ground (arith, h)

-- no period of a key begins after an instant
abbrev pub Begun : Time → Option Cycles → Type 0
Begun now held =
    (cycles : Cycles) (window : Window)
    → held ≡ some cycles
    → (cycle window cycles).started_at ≤ now

started_at-Advanced :
    (loc : Location) (now : Time) (window : Window) (c : Cycle) (r : Cycle × Bool)
    → Advanced loc now window c r
    → c.started_at ≤ now
    → r.0.started_at ≤ now
started_at-Advanced loc now window c (c', false) (_, same) h = rw same h
started_at-Advanced loc now window c (c', true) (_, current, _, _, _) h = current.started

started_at-advance_cycles :
    {loc : Location}
    → IsCalendar loc
    → (now : Time) (window : Window) (cycles : Cycles) → (cycle window cycles).started_at ≤ now
    → (cycle window (advance_cycles loc now cycles).0).started_at ≤ now
unfolding advance_cycles cycle
started_at-advance_cycles {loc} cal now daily cycles h =
    started_at-Advanced loc now daily cycles.daily_cycle _
      (advance_cycle-Advanced cal now daily cycles.daily_cycle) h
started_at-advance_cycles {loc} cal now weekly cycles h =
    started_at-Advanced loc now weekly cycles.weekly_cycle _
      (advance_cycle-Advanced cal now weekly cycles.weekly_cycle) h
started_at-advance_cycles {loc} cal now monthly cycles h =
    started_at-Advanced loc now monthly cycles.monthly_cycle _
      (advance_cycle-Advanced cal now monthly cycles.monthly_cycle) h

charge_periods_from-Begun :
    {loc : Location} (cal : IsCalendar loc) (now : Time) (model : String) (delta : Bucket)
    (deduct : Bool) (held : Option Cycles) (usage : KeyUsage)
    → Begun now held
    → charge_periods_from loc now now model delta deduct held usage
      ≡ charge_periods loc now model delta deduct held usage
unfolding charge_periods_from charge_periods charge_cycles_from charge_cycles cycle
charge_periods_from-Begun cal now model delta deduct none usage h = refl
charge_periods_from-Begun {loc} cal now model delta deduct (some cycles) usage h =
    let rolled = (advance_cycles loc now cycles).0 in
    let begun : (window : Window) → (cycle window rolled).started_at ≤ now =
      λ window. started_at-advance_cycles cal now window cycles (h cycles window refl) in
    rw
      (
        charge_cycle_from_begun now model delta rolled.daily_cycle (begun daily),
        charge_cycle_from_begun now model delta rolled.weekly_cycle (begun weekly),
        charge_cycle_from_begun now model delta rolled.monthly_cycle (begun monthly),
      )
      refl

-- With zone data that is a calendar, a journalled record without an instant, or with one that is
-- not before the clock, is booked exactly as a record is now, for a key none of whose periods
-- begins after now.
pub record_journaled-record_call :
    (id model : String) (delta : Bucket) (deduct : Bool) (at now : Time) (l : Ledger)
    → IsCalendar l.location
    → (at ≡ 0) ⊎ (now ≤ at)
    → Begun now (get_or (get id l.entries) no_usage).cycles
    → record_journaled id model delta deduct at now l ≡ record_call id model delta deduct now l
unfolding record_journaled record_call booking_time
record_journaled-record_call id model delta deduct at now l cal late h =
    let usage = get_or (get id l.entries) no_usage in
    let is_now : (if at == 0 || ltb now at then now else at) ≡ now = ground (arith, late) in
    rw (is_now, charge_periods_from-Begun cal now model delta deduct usage.cycles usage h) refl
