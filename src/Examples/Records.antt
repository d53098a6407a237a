-- ===== src/Examples/Records.antt =====
-- The theorems on the ledger at concrete values.
use cpa_plugin_key_policy.Base.{
  inl, ◌≤◌, ◌*◌, ◌≡◌, refl, arith, true, false, none, some, string_eq, nat_eq,
}
use cpa_plugin_key_policy.Dict.{get, put}
use cpa_plugin_key_policy.Int64.{add64, sub64}
use cpa_plugin_key_policy.Calendar.{day_start, date_key_back, day_start_back, day_begin}
use cpa_plugin_key_policy.Bucket.{add}
use cpa_plugin_key_policy.Cycle.{
  new_cycle, daily, monthly, Cycles, weekly, cycle, used, initial, new_cycles, advance_cycles,
}
use cpa_plugin_key_policy.Ledger.{mark_dirty, oldest_kept, evict_expired, open_date, record_call}
use cpa_plugin_key_policy.Ledger.Views.{usage_of, bucket_of}
use cpa_plugin_key_policy.Ledger.Eviction.{Kept, evict_expired-Kept}
use cpa_plugin_key_policy.Ledger.Recording.{
  record_call-closed, bucket_of-record_call, record_call-used, record_call-balance, balance_nano,
}
use cpa_plugin_key_policy.Ledger.Journaled.{Begun, record_journaled, record_journaled-record_call}
use cpa_plugin_key_policy.Ledger.Periods.{KeyBirth, forget_key, open_cycles}
use cpa_plugin_key_policy.Ledger.Periods.Forgetting.{open_cycles-forget_key}
use cpa_plugin_key_policy.Ledger.Adjust.{
  Persist, BalanceAdjustment, adjust_balance, adjust_entry, adjust_usage, answer_or_apply,
  apply_credit, earlier_request, find_request, with_balance, credit, latest,
}
use cpa_plugin_key_policy.Ledger.Adjust.Retry.{again, adjust_balance-again}
use cpa_plugin_key_policy.Ledger.Reset.{reset_window}
use cpa_plugin_key_policy.Ledger.Reset.Outcomes.{Answered, Aside, reset_window-Answered}
use cpa_plugin_key_policy.Examples.{
  texts_differ, numbers_differ, day, utc, utc-IsCalendar, noon, call, opened, prepaid, ledger,
}

record_call-closed_example :
    get 5 (usage_of "key" (record_call "key" "gpt" call true noon ledger)).days
    ≡ get 5 (usage_of "key" ledger).days
unfolding oldest_kept date_key_back day_start_back day_begin
record_call-closed_example =
    record_call-closed "key" "gpt" call true noon ledger "key" 5 (omega arith) (omega arith)
      (omega arith)

bucket_of-record_call_example :
    bucket_of "key" (open_date noon ledger) "gpt" (record_call "key" "gpt" call true noon ledger)
    ≡ add (bucket_of "key" (open_date noon ledger) "gpt" ledger) call
bucket_of-record_call_example =
    bucket_of-record_call "key" "gpt" call true noon ledger utc-IsCalendar (omega arith)

record_call-used_example :
    (after : Cycles) × ((usage_of "key" (record_call "key" "gpt" call true noon ledger)).cycles
      ≡ some after)
    × (used (cycle weekly after) ≡ add64 (used (cycle weekly (advance_cycles utc noon opened).0)) 5)
    × ((cycle weekly after).resets_at ≡ (cycle weekly (advance_cycles utc noon opened).0).resets_at)
unfolding get
record_call-used_example = record_call-used "key" "gpt" call true noon ledger opened refl weekly

record_call-balance_example :
    balance_nano (usage_of "key" (record_call "key" "gpt" call true noon ledger)).balance
    ≡ sub64 (balance_nano (usage_of "key" ledger).balance) 5
unfolding get
record_call-balance_example = record_call-balance "key" "gpt" call true noon ledger opened refl

evict_expired-Kept_example :
    Kept
      (oldest_kept ledger noon)
      (usage_of "key" ledger)
      (usage_of "key" (evict_expired noon ledger).0)
evict_expired-Kept_example = evict_expired-Kept ledger noon "key"

abbrev reborn : KeyBirth
reborn = record { id = "key"; created_at = 9 * day }

open_cycles-forget_key_example :
    let usage = usage_of "key" (open_cycles reborn noon (forget_key "key" noon ledger).0) in
    (usage.cycles ≡ some (advance_cycles utc noon (new_cycles utc (9 * day) initial)).0)
    × (usage.balance ≡ none)
open_cycles-forget_key_example =
    open_cycles-forget_key reborn noon noon ledger (numbers_differ (9 * day) 0 refl)

abbrev always : Persist
always = λ _ _. true

abbrev never : Persist
never = λ _ _. false

abbrev topped_up : BalanceAdjustment
topped_up = record {
  key_id = "key";
  amount = 50;
  before = 700;
  after = 750;
  net_credited = 1050;
  duplicate = false;
}

adjust_balance-again_example :
    let l' = (adjust_balance always "key" 50 "order-1" ledger).0 in
    adjust_balance never "key" 50 "order-1" l' ≡ (l', again topped_up)
unfolding adjust_balance adjust_entry adjust_usage answer_or_apply apply_credit earlier_request
    find_request with_balance credit latest mark_dirty get put
adjust_balance-again_example =
    adjust_balance-again always never "key" 50 "order-1" ledger topped_up (omega arith)
      (omega arith) (omega arith) (texts_differ "order-1" "" refl) refl

reset_window-Answered_example :
    let r = reset_window always "key" weekly none noon ledger in
    Answered "key" weekly noon opened ledger r.0 r.1 × Aside "key" ledger r.0
unfolding get
reset_window-Answered_example =
    reset_window-Answered always "key" weekly none noon ledger prepaid opened refl refl

opened-Begun : Begun noon (some opened)
unfolding new_cycles new_cycle cycle day_start day_begin
opened-Begun cycles window h =
    let same : cycles ≡ opened = cc in
    rw same (elim window as (λ w. (cycle w opened).started_at ≤ noon) [
      | daily ↦ omega arith
      | weekly ↦ omega arith
      | monthly ↦ omega arith
    ])

record_journaled-record_call_example :
    record_journaled "key" "gpt" call true 0 noon ledger
    ≡ record_call "key" "gpt" call true noon ledger
unfolding get
record_journaled-record_call_example =
    record_journaled-record_call "key" "gpt" call true 0 noon ledger utc-IsCalendar (inl refl)
      opened-Begun
