-- ===== src/Ledger/Flush.antt =====
-- Persistence cuts: `planFlush`, the snapshots and `markFlushed` of internal/policy/ledger.go.
use cpa_plugin_key_policy.Base.{
  ℕ, ◌+◌, ◌%◌, ◌≡◌, arith, Bool, true, false, not, ◌&&◌, ◌||◌, Option, none, some, String, ltb, leb,
  max, ◌==◌, nat_eq, string_eq, if◌then◌else◌, length, is_some,
}
use cpa_plugin_key_policy.Dict.{Dict, keep, map_values, exists, sum}
use cpa_plugin_key_policy.Calendar.{Time, Date, Location, date_key_back}
use cpa_plugin_key_policy.Int64.{modulus}
use cpa_plugin_key_policy.Cycle.{Cycles, advance_cycles}
use cpa_plugin_key_policy.Ledger.{Ledger, KeyUsage, Models, Days, evict_expired}

-- `liveKey`, which has the fields of a `KeyUsage`
abbrev pub LiveKey : Type 0
LiveKey = KeyUsage

-- `flushPlan`; `history` is none where no history write is planned
pub record FlushPlan : Type 0 where
  pub revision : ℕ
  pub through : Date
  pub history_through : Date
  pub history : Option (Dict String Days)
  pub live : Dict String LiveKey

abbrev pub later_day : Date → Date → Models → Bool
later_day through date models = ltb through date && ltb 0 (length models)

abbrev pub closed_day : Date → Date → Models → Bool
closed_day through date models = leb date through && ltb 0 (length models)

abbrev pub live_key : Date → KeyUsage → LiveKey
live_key through usage = record usage { days = keep (later_day through) usage.days }

-- `liveSnapshotLocked`
unfoldable pub live_snapshot : Date → Ledger → Dict String LiveKey
live_snapshot through l = map_values (λ _. live_key through) l.entries

-- `historySnapshotLocked`
unfoldable pub history_snapshot : Date → Ledger → Dict String Days
history_snapshot through l =
    keep (λ _ days. ltb 0 (length days))
      (map_values (λ _ (usage : KeyUsage). keep (closed_day through) usage.days) l.entries)

-- `hasDaysInRangeLocked`
unfoldable pub has_days_in_range : Date → Date → Ledger → Bool
has_days_in_range after through l =
    exists
      (λ _ usage.
        exists (λ date models. ltb after date && leb date through && ltb 0 (length models))
          usage.days)
      l.entries

advanced_periods : Location → Time → Option Cycles → Option Cycles
advanced_periods loc now none = none
advanced_periods loc now (some cycles) = some (advance_cycles loc now cycles).0

unfoldable pub advance_key : Location → Time → KeyUsage → KeyUsage
unfolding advanced_periods
advance_key loc now usage = record usage { cycles = advanced_periods loc now usage.cycles }

-- 1 for a key whose periods change
key_changes : Location → Time → Option Cycles → ℕ
key_changes loc now none = 0
key_changes loc now (some cycles) = if (advance_cycles loc now cycles).1 then 1 else 0

-- the loop of `planFlush` that rolls every key's periods forward; each key that changes marks the
-- ledger dirty
unfoldable pub advance_all : Time → Ledger → Ledger
unfolding key_changes
advance_all now l =
    let marks = sum (λ usage. key_changes l.location now usage.cycles) l.entries in
    record l {
      entries = map_values (λ _. advance_key l.location now) l.entries;
      dirty = l.dirty || ltb 0 marks;
      revision = (l.revision + marks) % modulus;
    }

-- whether `planFlush` plans a history write
unfoldable pub need_history : Date → Ledger → Bool
need_history yesterday l =
    l.history_stale
    || ltb l.history_through yesterday && has_days_in_range l.history_through yesterday l

-- the plan without a history write
abbrev pub live_plan : Ledger → FlushPlan
live_plan l = record {
  revision = l.revision;
  through = l.history_through;
  history_through = 0;
  history = none;
  live = live_snapshot l.history_through l;
}

-- the watermark of the history that is planned
abbrev pub planned_through : Date → Ledger → Date
planned_through yesterday l = max yesterday l.history_through

abbrev pub history_plan : Date → Ledger → FlushPlan
history_plan yesterday l = record (live_plan l) {
  history_through = planned_through yesterday l;
  history = some (history_snapshot (planned_through yesterday l) l);
}

-- what planning a history write does to the ledger
abbrev pub close_days : Date → Ledger → Ledger
close_days yesterday l = record l {
  closed_through = max l.closed_through (planned_through yesterday l);
  history_stale = false;
}

-- `planFlush` after its retention pass and the rolling of the periods
unfoldable pub plan_cut : Date → Ledger → Ledger × Option FlushPlan
plan_cut yesterday l =
    if not l.dirty && not (need_history yesterday l)
    then (l, none)
    else if need_history yesterday l
    then (close_days yesterday l, some (history_plan yesterday l))
    else (l, some (live_plan l))

-- `planFlush`
unfoldable pub plan_flush : Time → Ledger → Ledger × Option FlushPlan
unfolding plan_cut advance_all
plan_flush now l =
    plan_cut (date_key_back l.location now 1) (advance_all now (evict_expired now l).0)

-- the switch of `markFlushed`
unfoldable pub mark_history : FlushPlan → Bool → Ledger → Ledger
mark_history plan history_written l =
    if history_written
    then record l { history_through = plan.history_through }
    else if is_some plan.history
    then record l { history_stale = true }
    else l

-- `markFlushed`
unfoldable pub mark_flushed : FlushPlan → Bool → Bool → Ledger → Ledger
mark_flushed plan history_written live_written l =
    let l' = mark_history plan history_written l in
    if live_written && l'.revision == plan.revision then record l' { dirty = false } else l'

pub entries-mark_flushed :
    (plan : FlushPlan) (history_written live_written : Bool) (l : Ledger)
    → (mark_flushed plan history_written live_written l).entries ≡ l.entries
unfolding mark_flushed mark_history
entries-mark_flushed plan history_written live_written l = ground arith
