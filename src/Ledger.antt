-- ===== src/Ledger.antt =====
-- The usage ledger: `usageLedger` of internal/policy/ledger.go and the methods that change it.
-- A method runs under the ledger's lock, so it is a function of the state and of the clock reading
-- that it makes; a Go map is a `Dict`, a nil pointer `none`.
pub mod Views
pub mod Eviction
pub mod Staleness
pub mod Recording
pub mod Journaled
pub mod Closing
pub mod Periods
pub mod Adjust
pub mod Reset
pub mod Flush
use cpa_plugin_key_policy.Base.{
  ℕ, ◌+◌, ◌%◌, Bool, true, false, not, ◌&&◌, ◌||◌, Option, none, some, List, [], ◌∷◌, String, ltb,
  leb, ◌==◌, nat_eq, string_eq, if◌then◌else◌, get_or, length, is_some, any,
}
use cpa_plugin_key_policy.Dict.{Dict, get, put, remove, keep, map_values, exists}
use cpa_plugin_key_policy.Int64.{Int64, modulus, sub64}
use cpa_plugin_key_policy.Calendar.{Time, Date, Location, date_key, date_key_back, shift_date}
use cpa_plugin_key_policy.Bucket.{Bucket, empty_bucket, add}
use cpa_plugin_key_policy.Cycle.{
  Cycle, Cycles, ResetKind, initial, used, new_cycles, advance_cycles,
}
use cpa_plugin_key_policy.Balance.{Balance, empty_balance}

abbrev pub Models : Type 0
Models = Dict String Bucket

abbrev pub Days : Type 0
Days = Dict Date Models

-- `KeyUsage`
pub record KeyUsage : Type 0 where
  pub cycles : Option Cycles
  pub balance : Option Balance
  pub days : Days

-- `&KeyUsage{Days: make(…)}`
abbrev pub no_usage : KeyUsage
no_usage = record { cycles = none; balance = none; days = [] }

-- `usageLedger`; `revision` is a uint64
pub record Ledger : Type 0 where
  pub location : Location
  pub timezone : String
  pub entries : Dict String KeyUsage
  pub dirty : Bool
  pub revision : ℕ
  pub history_through : Date
  pub closed_through : Date
  pub history_stale : Bool
  pub last_evicted_date : Date

-- `UsageRetentionDays`
abbrev pub usage_retention_days : ℕ
usage_retention_days = 90

-- `newUsageLedger`, past its defaults for arguments that are left out
abbrev pub new_usage_ledger : Location → String → Ledger
new_usage_ledger location timezone = record {
  location = location;
  timezone = timezone;
  entries = [];
  dirty = false;
  revision = 0;
  history_through = 0;
  closed_through = 0;
  history_stale = false;
  last_evicted_date = 0;
}

-- `markDirtyLocked`
unfoldable pub mark_dirty : Ledger → Ledger
mark_dirty l = record l { dirty = true; revision = (l.revision + 1) % modulus }

-- the inner loop of `evictExpiredLocked`
unfoldable pub evict_days : Date → KeyUsage → KeyUsage
evict_days oldest usage = record usage { days = keep (λ date _. not (ltb date oldest)) usage.days }

-- an entry that `evictExpiredLocked` deletes after its days
unfoldable pub spent : KeyUsage → Bool
spent usage = not (is_some usage.cycles) && length usage.days == 0

-- `evictExpiredLocked`, past its test of the date
unfoldable pub evict_older : Date → Ledger → Ledger × Bool
unfolding evict_days spent mark_dirty
evict_older oldest l =
    let evicted = map_values (λ _ usage. evict_days oldest usage) l.entries in
    let changed =
      exists (λ _ usage. exists (λ date _. ltb date oldest) usage.days) l.entries
      || exists (λ _ usage. spent usage) evicted in
    let stale =
      exists
        (λ _ usage. exists (λ date _. ltb date oldest && leb date l.history_through) usage.days)
        l.entries in
    let l' = record l {
      entries = keep (λ _ usage. not (spent usage)) evicted;
      history_stale = l.history_stale || stale;
    } in
    (if changed then mark_dirty l' else l', changed)

-- the first day that `evictExpiredLocked` keeps
unfoldable pub oldest_kept : Ledger → Time → Date
oldest_kept l now = date_key_back l.location now 89

-- `evictExpiredLocked`
unfoldable pub evict_expired : Time → Ledger → Ledger × Bool
unfolding evict_older oldest_kept
evict_expired now l =
    let current = date_key l.location now in
    if current == l.last_evicted_date
    then (l, false)
    else evict_older (oldest_kept l now) (record l { last_evicted_date = current })

-- `load`
unfoldable pub load : Dict String KeyUsage → Date → Time → Ledger → Ledger
load keys history_through now l =
    (evict_expired now (record l {
      entries = keys;
      history_through = history_through;
      closed_through = history_through;
      history_stale = false;
      last_evicted_date = 0;
      dirty = false;
    })).0

-- `bucket := m[model]; bucket.add(delta); m[model] = bucket`
unfoldable pub add_to : String → Bucket → Models → Models
add_to model delta m = put model (add (get_or (get model m) empty_bucket) delta) m

unfoldable pub charge_cycle : String → Bucket → Cycle → Cycle
charge_cycle model delta c = record c { by_model = add_to model delta c.by_model }

-- the loop over the windows in `record`
unfoldable pub charge_cycles : String → Bucket → Cycles → Cycles
unfolding charge_cycle
charge_cycles model delta cycles = record {
  daily_cycle = charge_cycle model delta cycles.daily_cycle;
  weekly_cycle = charge_cycle model delta cycles.weekly_cycle;
  monthly_cycle = charge_cycle model delta cycles.monthly_cycle;
}

-- `usage.Balance.Nano -= delta.ChargedNano`, on a balance made where there is none
unfoldable pub deduct_charge : Int64 → Option Balance → Option Balance
deduct_charge charge balance =
    let b = get_or balance empty_balance in some (record b { nano = sub64 b.nano charge })

-- what `record` does to the periods and the balance of a key that has periods
unfoldable pub charge_periods :
    Location → Time → String → Bucket → Bool → Option Cycles → KeyUsage → KeyUsage
charge_periods loc now model delta deduct none usage = usage
charge_periods loc now model delta deduct (some cycles) usage = record usage {
  cycles = some (charge_cycles model delta (advance_cycles loc now cycles).0);
  balance = if deduct then deduct_charge delta.charged_nano usage.balance else usage.balance;
}

-- what `record` does to the day
unfoldable pub book_day : Date → String → Bucket → KeyUsage → KeyUsage
book_day date model delta usage =
    let models = get_or (get date usage.days) [] in
    record usage { days = put date (add_to model delta models) usage.days }

-- `openDateLocked`
unfoldable pub open_date : Time → Ledger → Date
open_date now l =
    let date = date_key l.location now in
    if ltb l.closed_through date then date else shift_date l.closed_through 1

-- `record`, a reserved word here
unfoldable pub record_call : String → String → Bucket → Bool → Time → Ledger → Ledger
unfolding charge_periods
record_call id model delta deduct now l =
    let usage = get_or (get id l.entries) no_usage in
    let charged = charge_periods l.location now model delta deduct usage.cycles usage in
    let booked = book_day (open_date now l) model delta charged in
    mark_dirty (evict_expired now (record l { entries = put id booked l.entries })).0
