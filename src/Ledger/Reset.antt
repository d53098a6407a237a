-- ===== src/Ledger/Reset.antt =====
-- The manual reset: `resetWindowAndPersist` of internal/policy/ledger.go, with its amounts in
-- nanodollars and the callback as in Ledger/Adjust.antt.
pub mod Outcomes
use cpa_plugin_key_policy.Base.{
  ℕ, Bool, true, false, not, ◌||◌, Option, none, some, String, string_eq, nat_eq, ◌==◌,
  if◌then◌else◌,
}
use cpa_plugin_key_policy.Dict.{Dict, get, put}
use cpa_plugin_key_policy.Int64.{Int64}
use cpa_plugin_key_policy.Calendar.{Time, Date}
use cpa_plugin_key_policy.Cycle.{
  Window, Cycles, cycle, set_cycle, used, advance_cycles, manual_reset_deadline, manual_cycle,
}
use cpa_plugin_key_policy.Ledger.{Ledger, KeyUsage, mark_dirty}
use cpa_plugin_key_policy.Ledger.Flush.{live_snapshot}
use cpa_plugin_key_policy.Ledger.Adjust.{Persist}

-- `UsageResetExpectation`
pub record ResetExpectation : Type 0 where
  pub started_at : Time
  pub reset_after_manual_at : Time

-- the errors of a reset
pub data ResetError : Type 0 where
  unknown_key reset_changed not_persisted : ResetError

-- `UsageResetResult`, in nanodollars
pub record ResetResult : Type 0 where
  pub key_id : String
  pub window : Window
  pub before_daily : Int64
  pub before_weekly : Int64
  pub before_monthly : Int64
  pub after_daily : Int64
  pub after_weekly : Int64
  pub after_monthly : Int64
  pub next_accounting_boundary_at : Time

pub data Answer : Type 0 where
  refused : ResetError → Answer
  done : ResetResult → Answer

-- whether the period that the client saw is not the one of now
unfoldable pub is_changed : Option ResetExpectation → Ledger → Time → Window → Cycles → Bool
is_changed none l now window cycles = false
is_changed (some expected) l now window cycles =
    not ((cycle window cycles).started_at == expected.started_at)
    || not (manual_reset_deadline l.location now window == expected.reset_after_manual_at)

-- the write through the pointer to a key's usage
unfoldable pub with_cycles : String → KeyUsage → Cycles → Ledger → Ledger
with_cycles id usage cycles l = record l {
  entries = put id (record usage { cycles = some cycles }) l.entries;
}

-- the key's periods rolled forward to now
unfoldable pub advanced : String → KeyUsage → Cycles → Time → Ledger → Ledger × Cycles
unfolding mark_dirty with_cycles
advanced id usage cycles now l =
    let (current, changed) = advance_cycles l.location now cycles in
    let l' = with_cycles id usage current l in (if changed then mark_dirty l' else l', current)

unfoldable pub reset_result : String → Window → Cycles → Cycles → ResetResult
reset_result id window cycles cycles' = record {
  key_id = id;
  window = window;
  before_daily = used cycles.daily_cycle;
  before_weekly = used cycles.weekly_cycle;
  before_monthly = used cycles.monthly_cycle;
  after_daily = used cycles'.daily_cycle;
  after_weekly = used cycles'.weekly_cycle;
  after_monthly = used cycles'.monthly_cycle;
  next_accounting_boundary_at = (cycle window cycles').resets_at;
}

-- `resetWindowAndPersist` once the periods are current
unfoldable pub reset_current :
    Persist
    → String
    → Window
    → Option ResetExpectation
    → Time
    → KeyUsage
    → Cycles
    → Ledger
    → Ledger × Answer
unfolding mark_dirty with_cycles
reset_current persist id window expected now usage cycles l =
    if is_changed expected l now window cycles
    then (l, refused reset_changed)
    else (let cycles' = set_cycle window (manual_cycle l.location now window) cycles in
        let l' = mark_dirty (with_cycles id usage cycles' l) in
        if persist l'.history_through (live_snapshot l'.history_through l')
        then (record l' { dirty = false }, done (reset_result id window cycles cycles'))
        else (l, refused not_persisted))

unfoldable pub reset_usage :
    Persist
    → String
    → Window
    → Option ResetExpectation
    → Time
    → Ledger
    → KeyUsage
    → Option Cycles
    → Ledger × Answer
reset_usage persist id window expected now l usage none = (l, refused unknown_key)
reset_usage persist id window expected now l usage (some cycles) =
    let (l', current) = advanced id usage cycles now l in
    reset_current persist id window expected now usage current l'

unfoldable pub reset_entry :
    Persist
    → String
    → Window
    → Option ResetExpectation
    → Time
    → Ledger
    → Option KeyUsage
    → Ledger × Answer
reset_entry persist id window expected now l none = (l, refused unknown_key)
reset_entry persist id window expected now l (some usage) =
    reset_usage persist id window expected now l usage usage.cycles

-- `resetWindowAndPersist`
unfoldable pub reset_window :
    Persist → String → Window → Option ResetExpectation → Time → Ledger → Ledger × Answer
reset_window persist id window expected now l =
    reset_entry persist id window expected now l (get id l.entries)
