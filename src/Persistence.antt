-- ===== src/Persistence.antt =====
-- The two usage files and what a start reads from them: `writeLive`, `writeHistory`, `mergeUsage`
-- (internal/policy/persistence.go) and `FlushUsage` (internal/policy/store.go). Encoding to JSON and
-- the atomic replacement of a file belong to the system; a write is given by whether it succeeds.
pub mod Recovery
pub mod Flushing
pub mod Meanwhile
pub mod Cuts
pub mod Adjusting
pub mod Steps
pub mod Loading
use cpa_plugin_key_policy.Base.{
  ℕ, Bool, true, false, not, ◌&&◌, Option, none, some, List, [], ◌∷◌, String, ltb, ◌==◌, nat_eq,
  string_eq, if◌then◌else◌, get_or, length, is_some,
}
use cpa_plugin_key_policy.Dict.{Dict, get, keep, map_values, merge}
use cpa_plugin_key_policy.Calendar.{Time, Date}
use cpa_plugin_key_policy.Ledger.{Ledger, KeyUsage, Models, Days, no_usage}
use cpa_plugin_key_policy.Ledger.Flush.{
  LiveKey, FlushPlan, later_day, live_key, plan_flush, mark_flushed,
}

-- `liveFile`
pub record LiveFile : Type 0 where
  pub dataset_id : String
  pub timezone : String
  pub history_through : Date
  pub keys : Dict String LiveKey

-- `historyFile`
pub record HistoryFile : Type 0 where
  pub dataset_id : String
  pub through : Date
  pub days : Dict String Days

-- an entry that `writeLive` leaves out
unfoldable pub unused : LiveKey → Bool
unused key = not (is_some key.cycles) && not (is_some key.balance) && length key.days == 0

-- what `writeLive` writes
unfoldable pub live_file : String → String → Date → Dict String LiveKey → LiveFile
unfolding unused
live_file dataset_id timezone through keys = record {
  dataset_id = dataset_id;
  timezone = timezone;
  history_through = through;
  keys = keep (λ _ key. not (unused key)) (map_values (λ _. live_key through) keys);
}

-- what `writeHistory` writes
unfoldable pub history_file : String → Date → Dict String Days → HistoryFile
history_file dataset_id through days = record {
  dataset_id = dataset_id;
  through = through;
  days = days;
}

-- the errors of `mergeUsage`
pub data MergeError : Type 0 where
  dataset_mismatch live_ahead : MergeError

-- `UsageDataset`
pub record UsageDataset : Type 0 where
  pub dataset_id : String
  pub timezone : String
  pub through : Date
  pub keys : Dict String KeyUsage

pub data Merged : Type 0 where
  dataset : UsageDataset → Merged
  failed : MergeError → Merged

-- `for date, models := range key.Days { if date > dataset.Through { … } }`
unfoldable pub merge_days : Date → Days → Days → Days
merge_days through live days =
    merge (λ models _. models) (keep (λ date _. ltb through date) live) days

-- one round of the loop over the live keys
unfoldable pub merge_key : Date → LiveKey → Option KeyUsage → KeyUsage
unfolding merge_days
merge_key through key there = record {
  cycles = key.cycles;
  balance = key.balance;
  days = merge_days through key.days (get_or there no_usage).days;
}

abbrev pub history_usage : String → Days → KeyUsage
history_usage _ days = record no_usage { days = days }

pub merge_files : LiveFile → Date → Dict String Days → UsageDataset
merge_files live through days = record {
  dataset_id = live.dataset_id;
  timezone = live.timezone;
  through = through;
  keys = merge (merge_key through) live.keys (map_values history_usage days);
}

-- `mergeUsage`
unfoldable pub merge_usage : LiveFile → Option HistoryFile → Merged
unfolding merge_files merge_key
merge_usage live none = dataset (merge_files live 0 [])
merge_usage live (some history) =
    if not (history.dataset_id == live.dataset_id)
    then failed dataset_mismatch
    else if ltb history.through live.history_through
    then failed live_ahead
    else dataset (merge_files live history.through history.days)

-- the files of a state path
pub record Files : Type 0 where
  pub live : Option LiveFile
  pub history : Option HistoryFile

-- the history write of `FlushUsage`: the file, the watermark of the live file, and whether it was
-- written
pub write_planned :
    String → Bool → FlushPlan → Option HistoryFile → Option HistoryFile × Date × Bool
write_planned dataset_id succeeds plan file = elim plan.history [
  | none ↦ (file, plan.through, false)
  | some days ↦
      if succeeds
      then (some (history_file dataset_id plan.history_through days), plan.history_through, true)
      else (file, plan.through, false)
]

-- `FlushUsage` past its plan, with the outcomes of the history and the live write
pub flush_plan : String → Bool → Bool → FlushPlan → Ledger → Files → Ledger × Files
unfolding write_planned
flush_plan dataset_id history_ok live_ok plan l files =
    let (history, through, written) = write_planned dataset_id history_ok plan files.history in
    let live = live_file dataset_id l.timezone through plan.live in
    (
      mark_flushed plan written live_ok l,
      record { live = if live_ok then some live else files.live; history = history },
    )

-- the rest of `FlushUsage` with what a plan gives; `meanwhile` is what becomes of the ledger between
-- `planFlush` and `markFlushed`, where its lock is free
abbrev pub perform :
    String → Bool → Bool → (Ledger → Ledger) → Files → Ledger × Option FlushPlan → Ledger × Files
perform dataset_id history_ok live_ok meanwhile files (l, none) = (l, files)
perform dataset_id history_ok live_ok meanwhile files (l, some plan) =
    flush_plan dataset_id history_ok live_ok plan (meanwhile l) files

-- `FlushUsage` of a store that has a state path
unfoldable pub flush_usage :
    String → Bool → Bool → (Ledger → Ledger) → Time → Ledger → Files → Ledger × Files
flush_usage dataset_id history_ok live_ok meanwhile now l files =
    if dataset_id == ""
    then (l, files)
    else perform dataset_id history_ok live_ok meanwhile files (plan_flush now l)
