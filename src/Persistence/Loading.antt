-- ===== src/Persistence/Loading.antt =====
-- Reading a dataset: `LoadUsage`, `readHeader`, `decodeLive`, `decodeHistory`, `validateDate` and `validateDays` of
-- internal/policy/persistence.go, on files whose JSON is decoded. The version is the current one, and
-- a date is a day number, of which only the empty text, 0, is no date. Zones are a parameter.
pub mod Flushed
use cpa_plugin_key_policy.Base.{
  ℕ, Bool, true, false, not, ◌&&◌, ◌||◌, Option, none, some, List, [], ◌∷◌, String, ltb, ◌==◌,
  nat_eq, string_eq, if◌then◌else◌,
}
use cpa_plugin_key_policy.Base.Results.{Result, ok, err, ◌>>=◌}
use cpa_plugin_key_policy.Dict.{Dict}
use cpa_plugin_key_policy.Text.{blank, trim_space}
use cpa_plugin_key_policy.Calendar.{Date, Location}
use cpa_plugin_key_policy.Bucket.{valid}
use cpa_plugin_key_policy.Cycle.{Cycles, CycleError, validate_cycles}
use cpa_plugin_key_policy.Balance.{Balance, validate_balance}
use cpa_plugin_key_policy.Ledger.{Models, Days}
use cpa_plugin_key_policy.Ledger.Flush.{LiveKey}
use cpa_plugin_key_policy.Persistence.{
  LiveFile, HistoryFile, MergeError, UsageDataset, Merged, dataset, failed, merge_usage, Files,
}

pub data LoadError : Type 0 where
  no_live_usage bad_timezone empty_key_id bad_balance bad_days no_history no_through late_day
        no_dataset_id :
      LoadError
  bad_cycles : CycleError → LoadError
  not_merged : MergeError → LoadError

-- the loop of `validateDays` over the models of a day
unfoldable pub validate_day : Models → Bool
validate_day [] = true
validate_day ((model, bucket) ∷ models) = not (blank model) && valid bucket && validate_day models

-- `validateDays`
unfoldable pub validate_days : Days → Bool
unfolding validate_day
validate_days [] = true
validate_days ((date, models) ∷ days) = not (date == 0) && validate_day models && validate_days days

-- the periods of a key in `decodeLive`
abbrev pub cycles_error : Location → Option Cycles → Option CycleError
cycles_error loc none = none
cycles_error loc (some cycles) = validate_cycles loc cycles

abbrev pub balance_ok : Option Balance → Bool
balance_ok none = true
balance_ok (some balance) = validate_balance balance

unfoldable pub checked_key : Bool → Option CycleError → Bool → Bool → Option LoadError
checked_key unnamed (some e) balanced dated = some (if unnamed then empty_key_id else bad_cycles e)
checked_key unnamed none balanced dated =
    if unnamed
    then some empty_key_id
    else if not balanced
    then some bad_balance
    else if not dated
    then some bad_days
    else none

-- one round of the loop of `decodeLive`
unfoldable pub check_live_key : Location → String → LiveKey → Option LoadError
unfolding checked_key validate_days
check_live_key loc id key =
    checked_key (blank id) (cycles_error loc key.cycles) (balance_ok key.balance)
      (validate_days key.days)

unfoldable pub first_error : Option LoadError → Option LoadError → Option LoadError
first_error none e = e
first_error (some e) _ = some e

unfoldable pub check_live_keys : Location → Dict String LiveKey → Option LoadError
unfolding check_live_key first_error
check_live_keys loc [] = none
check_live_keys loc ((id, key) ∷ keys) =
    first_error (check_live_key loc id key) (check_live_keys loc keys)

unfoldable pub answer_unless {ℓ} : {A : Type ℓ} → Option LoadError → A → Result LoadError A
answer_unless none a = ok a
answer_unless (some e) a = err e

-- the check of `readHeader` on the name of a dataset
unfoldable pub header_error : String → Option LoadError
header_error dataset_id = if trim_space dataset_id == "" then some no_dataset_id else none

-- `decodeLive` in the zone of the file
unfoldable pub decode_live_in :
    Option LoadError → Option Location → LiveFile → Result LoadError LiveFile
unfolding check_live_keys answer_unless
decode_live_in (some e) _ disk = err e
decode_live_in none none disk = err bad_timezone
decode_live_in none (some loc) disk =
    answer_unless (check_live_keys loc disk.keys)
      (record disk { dataset_id = trim_space disk.dataset_id })

-- `decodeLive`
unfoldable pub decode_live : (String → Option Location) → LiveFile → Result LoadError LiveFile
unfolding decode_live_in header_error
decode_live zones disk =
    decode_live_in (header_error disk.dataset_id)
      (if disk.timezone == "" then none else zones disk.timezone) disk

-- the loop over the dates of a key in `decodeHistory`
unfoldable pub ends_by : Date → Days → Bool
ends_by through [] = true
ends_by through ((date, models) ∷ days) = not (ltb through date) && ends_by through days

-- one round of the loop of `decodeHistory`
unfoldable pub check_history_key : Date → String → Days → Option LoadError
unfolding validate_days ends_by
check_history_key through id days =
    if blank id
    then some empty_key_id
    else if not (validate_days days)
    then some bad_days
    else if not (ends_by through days)
    then some late_day
    else none

unfoldable pub check_history_keys : Date → Dict String Days → Option LoadError
unfolding check_history_key first_error
check_history_keys through [] = none
check_history_keys through ((id, days) ∷ keys) =
    first_error (check_history_key through id days) (check_history_keys through keys)

-- `decodeHistory`
unfoldable pub decode_history : HistoryFile → Result LoadError HistoryFile
unfolding header_error check_history_keys first_error answer_unless
decode_history disk =
    answer_unless
      (first_error (header_error disk.dataset_id) (
        first_error (if disk.through == 0 then some no_through else none)
          (check_history_keys disk.through disk.days)))
      (record disk { dataset_id = trim_space disk.dataset_id })

-- the history file that `LoadUsage` merges, if there is one
unfoldable pub load_history : LiveFile → Option HistoryFile → Result LoadError (Option HistoryFile)
unfolding decode_history
load_history live none = if live.history_through == 0 then ok none else err no_history
load_history live (some disk) = decode_history disk >>= λ history. ok (some history)

unfoldable pub merged_or : Merged → Result LoadError UsageDataset
merged_or (dataset d) = ok d
merged_or (failed e) = err (not_merged e)

unfoldable pub load_files :
    (String → Option Location)
    → Option LiveFile
    → Option HistoryFile
    → Result LoadError UsageDataset
unfolding decode_live load_history merged_or
load_files zones none file = err no_live_usage
load_files zones (some disk) file = do
  live ← decode_live zones disk
  history ← load_history live file
  merged_or (merge_usage live history)

-- `LoadUsage`
unfoldable pub load_usage : (String → Option Location) → Files → Result LoadError UsageDataset
unfolding load_files
load_usage zones files = load_files zones files.live files.history
