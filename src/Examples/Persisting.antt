-- ===== src/Examples/Persisting.antt =====
-- The theorems on flushes at concrete values.
use cpa_plugin_key_policy.Base.{
  string_eq, ◌+◌, [], ◌∷◌, ◌==◌, ℕ, ◌≡◌, ◌≢◌, inr, refl, arith, true, false, none, some, Option,
  String, if◌then◌else◌,
}
use cpa_plugin_key_policy.Dict.{get, put, keep, map_values, exists}
use cpa_plugin_key_policy.Calendar.{
  Location, date_key, date_key_back, day_start_back, day_begin, shift_date,
}
use cpa_plugin_key_policy.Bucket.{add, valid}
use cpa_plugin_key_policy.Ledger.{
  Ledger, mark_dirty, record_call, new_usage_ledger, evict_expired, evict_older, oldest_kept,
  open_date, charge_periods, book_day, add_to, evict_days, spent,
}
use cpa_plugin_key_policy.Ledger.Flush.{plan_flush, plan_cut, advance_all}
use cpa_plugin_key_policy.Persistence.{Files, flush_usage}
use cpa_plugin_key_policy.Persistence.Flushing.{InSync, Recovers, flush_cut}
use cpa_plugin_key_policy.Persistence.Cuts.{flush_cut-Recovers}
use cpa_plugin_key_policy.Persistence.Loading.{validate_days}
use cpa_plugin_key_policy.Persistence.Loading.Flushed.{AreSound, Loads, flush_cut-Loads}
use cpa_plugin_key_policy.Text.{blank, trim_space}
use cpa_plugin_key_policy.Persistence.Meanwhile.{Call, IsOn, record_calls}
use cpa_plugin_key_policy.Persistence.Steps.{
  start, next, records, flushes, Reach-InSync, flush_usage-Recovers, new_usage_ledger-InSync,
}
use cpa_plugin_key_policy.Examples.{utc, noon, call}

abbrev no_files : Files
no_files = record { live = none; history = none }

-- a ledger with one record
abbrev booked : Ledger
booked = record_call "key" "gpt" call true noon (new_usage_ledger utc "UTC")

-- a call that comes while the flush writes its files
abbrev late : Call
late = record { id = "key"; model = "gpt"; delta = call; deduct = true; at = noon + 1 }

late-IsOn : IsOn booked.location (date_key booked.location noon) late
unfolding record_call evict_expired evict_older mark_dirty date_key oldest_kept date_key_back
    day_start_back day_begin open_date shift_date charge_periods book_day add_to add evict_days
    spent get put keep map_values exists
late-IsOn = (refl, omega arith)

Reach-InSync_example :
    let r = flush_usage "set" true true (record_calls (late ∷ [])) noon booked no_files in
    InSync "set" r.0 r.1.history
Reach-InSync_example = Reach-InSync (new_usage_ledger-InSync "set" "UTC" utc) (
    next (next start (records "key" "gpt" call true noon (omega arith)))
      (flushes (late ∷ []) true true noon (late-IsOn, tt)))

booked-InSync : InSync "set" booked none
booked-InSync =
    Reach-InSync (new_usage_ledger-InSync "set" "UTC" utc)
      (next start (records {files = no_files} "key" "gpt" call true noon (omega arith)))

-- a dirty ledger has a plan
plan_cut_dirty : (yesterday : ℕ) (l : Ledger) → l.dirty ≡ true → (plan_cut yesterday l).1 ≢ none
unfolding plan_cut
plan_cut_dirty yesterday l h = ground (arith, h)

booked-dirty : (advance_all noon (evict_expired noon booked).0).dirty ≡ true
unfolding advance_all evict_expired evict_older record_call mark_dirty date_key oldest_kept
    date_key_back day_start_back day_begin exists put book_day get open_date map_values keep
booked-dirty = refl

booked_first : booked.dirty ≡ true
unfolding record_call mark_dirty
booked_first = refl

booked_stale : booked.history_stale ≡ false
unfolding record_call evict_expired evict_older mark_dirty date_key oldest_kept date_key_back
    day_start_back day_begin open_date shift_date charge_periods book_day add_to add evict_days
    spent get put keep map_values exists
booked_stale = refl

plans : (plan_flush noon booked).1 ≢ none
unfolding plan_flush
plans =
    plan_cut_dirty (date_key_back booked.location noon 1)
      (advance_all noon (evict_expired noon booked).0) booked-dirty

flush_usage-Recovers_example :
    let (l', files') = flush_usage "set" true true (λ l. l) noon booked no_files in
    Recovers l' files'
flush_usage-Recovers_example = flush_usage-Recovers refl noon booked no_files booked-InSync plans

plans_cut : (plan_cut 10 booked).1 ≢ none
plans_cut = plan_cut_dirty 10 booked booked_first

flush_cut-Recovers_example :
    let (l', files') = flush_cut "set" false true 10 booked no_files in Recovers l' files'
flush_cut-Recovers_example =
    flush_cut-Recovers "set" 10 booked no_files false booked-InSync (inr booked_stale) plans_cut

booked-AreSound : AreSound utc booked
unfolding record_call evict_expired evict_older mark_dirty date_key oldest_kept date_key_back
    day_start_back day_begin open_date shift_date charge_periods book_day add_to add evict_days
    spent get put keep map_values exists blank validate_days valid
booked-AreSound = (record { named = refl; cycled = refl; balanced = refl; dated = refl }, tt)

abbrev zones : String → Option Location
zones name = if name == "UTC" then some utc else none

flush_cut-Loads_example :
    let (l', files') = flush_cut "set" true true 10 booked no_files in Loads zones l' files'
unfolding record_call evict_expired evict_older mark_dirty date_key oldest_kept date_key_back
    day_start_back day_begin open_date shift_date charge_periods book_day add_to add evict_days
    spent get put keep map_values exists trim_space
flush_cut-Loads_example =
    flush_cut-Loads zones utc "set" booked refl refl refl refl booked-AreSound 10 no_files
      (omega arith) booked-InSync tt plans_cut
