-- ===== src/Persistence/Recovery.antt =====
-- A start that reads the files back finds what the ledger held when they were written: `mergeUsage`
-- after `FlushUsage` (internal/policy/persistence.go, internal/policy/store.go).
use cpa_plugin_key_policy.Base.{
  ◌≤◌, ◌≡◌, refl, sym, ◌∙◌, true, not, Option, none, some, [], String, ltb, nat_eq, string_eq,
  get_or, guard, option_map, length, arith, Bool-cases, inl, inr,
}
use cpa_plugin_key_policy.Dict.{
  Dict, get, keep, get-keep, get-map_values, get-merge, merged, get_of_empty,
}
use cpa_plugin_key_policy.Calendar.{Date}
use cpa_plugin_key_policy.Ledger.{Ledger, KeyUsage, Models, Days, no_usage}
use cpa_plugin_key_policy.Ledger.Views.{usage_of}
use cpa_plugin_key_policy.Ledger.Flush.{
  LiveKey, later_day, closed_day, live_key, live_snapshot, history_snapshot,
}
use cpa_plugin_key_policy.Persistence.{
  HistoryFile, unused, live_file, merge_days, merge_key, merge_files, history_usage,
}

-- A day without models is not written.
abbrev pub written : Option Models → Option Models
written = guard (λ models. ltb 0 (length models))

-- What a key shows after the files are read back, against what it showed before.
pub record SameUsage (before after : KeyUsage) : Type 0 where
  pub cycles : after.cycles ≡ before.cycles
  pub balance : after.balance ≡ before.balance
  pub days : (date : Date) → get date after.days ≡ written (get date before.days)

unused_parts :
    (k : LiveKey) → unused k ≡ true → (k.cycles ≡ none) × (k.balance ≡ none) × (length k.days ≡ 0)
unfolding unused
unused_parts k h = ground arith

merged_day :
    (t t0 date : Date) (o : Option Models)
    → t0 ≤ t
    → merged
        (λ models _. models)
        (guard (λ _. ltb t date) (guard (later_day t date) (guard (later_day t0 date) o)))
        (guard (closed_day t date) o)
      ≡ written o
merged_day t t0 date none h = refl
merged_day t t0 date (some models) h = ground arith

-- The days of the live file end up beside the days of the history file.
get-merge_days :
    (t t0 : Date) (days there : Days) (date : Date)
    → t0 ≤ t
    → get date there ≡ guard (closed_day t date) (get date days)
    → get date (merge_days t (keep (later_day t) (keep (later_day t0) days)) there)
      ≡ written (get date days)
unfolding merge_days
get-merge_days t t0 days there date le h =
    rw (get-merge, get-keep, get-keep, get-keep, h) (merged_day t t0 date (get date days) le)

closed_only :
    (t t0 date : Date) (o : Option Models)
    → t0 ≤ t
    → guard (later_day t date) (guard (later_day t0 date) o) ≡ none
    → guard (closed_day t date) o ≡ written o
closed_only t t0 date none le h = refl
closed_only t t0 date (some models) le h = ground arith

-- Where the live file leaves a key out, it held nothing later than the history.
get_of_unused :
    (t t0 : Date) (days : Days) (date : Date)
    → t0 ≤ t
    → length (keep (later_day t) (keep (later_day t0) days)) ≡ 0
    → guard (closed_day t date) (get date days) ≡ written (get date days)
get_of_unused t t0 days date le h =
    let gone = get_of_empty date (keep (later_day t) (keep (later_day t0) days)) h in
    closed_only t t0 date (get date days) le (rw (get-keep, get-keep) at gone)

module _ (t t0 : Date) (le : t0 ≤ t) where
  merge_key_same :
      (u : KeyUsage) (there : Option KeyUsage)
      → ((date : Date)
          → get date (get_or there no_usage).days ≡ guard (closed_day t date) (get date u.days))
      → SameUsage u (merge_key t (live_key t (live_key t0 u)) there)
  unfolding merge_key
  merge_key_same u there h = record {
    cycles = refl;
    balance = refl;
    days = λ date. get-merge_days t t0 u.days (get_or there no_usage).days date le (h date);
  }

  -- What is read back of one key, with what the history file holds of it.
  merged-SameUsage :
      (o there : Option KeyUsage)
      → ((get_or there no_usage).cycles ≡ none)
      → ((get_or there no_usage).balance ≡ none)
      → ((date : Date)
          → get date (get_or there no_usage).days
            ≡ guard (closed_day t date) (get date (get_or o no_usage).days))
      → SameUsage (get_or o no_usage) (
          get_or
            (merged
              (merge_key t)
              (guard (λ k. not (unused k)) (option_map (live_key t) (option_map (live_key t0) o)))
              there)
            no_usage)
  unfolding get
  merged-SameUsage none there c b h = record { cycles = c; balance = b; days = h }
  merged-SameUsage (some u) there c b h = elim (Bool-cases (unused (live_key t (live_key t0 u)))) [
    | inl e ↦
        let (no_cycles, no_balance, no_days) = unused_parts (live_key t (live_key t0 u)) e in
        rw e (record {
          cycles = c ∙ sym no_cycles;
          balance = b ∙ sym no_balance;
          days = λ date. h date ∙ get_of_unused t t0 u.days date le no_days;
        })
    | inr e ↦ rw e (merge_key_same u there h)
  ]

-- The watermark and the days of a history file that may be missing.
abbrev pub file_through : Option HistoryFile → Date
file_through none = 0
file_through (some h) = h.through

abbrev pub file_days : Option HistoryFile → Dict String Days
file_days none = []
file_days (some h) = h.days

-- The days of a history up to `through` are those that the ledger holds.
abbrev pub HistoryHolds : Date → Dict String Days → Ledger → Type 0
HistoryHolds through days l =
    (id : String) (date : Date)
    → get date (get_or (get id days) [])
      ≡ guard (closed_day through date) (get date (usage_of id l).days)

history_entry :
    (id : String) (o : Option Days)
    → let u = get_or (option_map (history_usage id) o) no_usage in
      (u.cycles ≡ none) × (u.balance ≡ none) × (u.days ≡ get_or o [])
history_entry id none = (refl, refl, refl)
history_entry id (some days) = (refl, refl, refl)

-- Reading back a live file cut from `l` beside a history that holds what `l` closed.
pub merge_files-SameUsage :
    (l : Ledger) (dataset_id : String) (t t0 : Date) (days : Dict String Days) (id : String)
    → t0 ≤ t
    → HistoryHolds t days l
    → SameUsage (usage_of id l) (
        get_or
          (get id
            (merge_files (live_file dataset_id l.timezone t (live_snapshot t0 l)) t days).keys)
          no_usage)
unfolding merge_files live_file live_snapshot
merge_files-SameUsage l dataset_id t t0 days id le holds =
    let (c, b, d) = history_entry id (get id days) in
    rw (get-merge, get-keep, get-map_values, get-map_values, get-map_values)
      (merged-SameUsage t t0 le (get id l.entries) (option_map (history_usage id) (get id days)) c b
        (λ date. rw d (holds id date)))

snapshot_day :
    (through date : Date) (o : Option KeyUsage)
    → get date (
        get_or
          (guard
            (λ days. ltb 0 (length days))
            (option_map (λ (u : KeyUsage). keep (closed_day through) u.days) o))
          [])
      ≡ guard (closed_day through date) (get date (get_or o no_usage).days)
unfolding get
snapshot_day through date none = refl
snapshot_day through date (some u) =
    elim (Bool-cases (ltb 0 (length (keep (closed_day through) u.days)))) [
      | inl e ↦ rw e (rw get-keep)
      | inr e ↦ rw e (
          let gone = get_of_empty date (keep (closed_day through) u.days) (ground arith) in
          rw get-keep at (sym gone))
    ]

-- The history snapshot holds what the ledger closed.
pub history_snapshot-HistoryHolds :
    (through : Date) (l : Ledger) → HistoryHolds through (history_snapshot through l) l
unfolding history_snapshot
history_snapshot-HistoryHolds through l id date =
    rw (get-keep, get-map_values) (snapshot_day through date (get id l.entries))
