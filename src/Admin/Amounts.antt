-- ===== src/Admin/Amounts.antt =====
-- The operations on the amounts of a key: `AdjustBalance` of internal/policy/balance.go and
-- `ResetUsageWindow` of internal/policy/admin.go. Each is told whether the live file can be written.
pub mod Adjusting
use cpa_plugin_key_policy.Base.{
  ℕ, ◌+◌, ◌-◌, Bool, true, false, not, ◌||◌, Option, none, some, is_some, List, [], ◌∷◌, ◌++◌,
  String, string_eq, nat_eq, ◌==◌, if◌then◌else◌, ltb,
}
use cpa_plugin_key_policy.Base.Results.{Result, ok, err}
use Prim.Native.Char.{code}
use cpa_plugin_key_policy.Dict.{get}
use cpa_plugin_key_policy.Text.{trim_space}
use cpa_plugin_key_policy.Int64.{Int64, sub64}
use cpa_plugin_key_policy.Calendar.{Time}
use cpa_plugin_key_policy.Cycle.{Window, daily, weekly, monthly}
use cpa_plugin_key_policy.Money.{Floats, usd, usd_to_nano}
use cpa_plugin_key_policy.Ledger.{Ledger}
use cpa_plugin_key_policy.Ledger.Adjust.{
  AdjustError, unknown_key, request_conflict, not_persisted, BalanceAdjustment, Adjusted, refused,
  adjusted, adjust_balance,
}
use cpa_plugin_key_policy.Ledger.Reset.{
  ResetExpectation, ResetError, ResetResult, Answer, reset_window,
}
use cpa_plugin_key_policy.Persistence.Adjusting.{adjusted_files}
use cpa_plugin_key_policy.Store.{KeyConfig, Store, balance_mode}
use cpa_plugin_key_policy.Admin.{Value, nothing, text, amount, instant, AuditEvent, Instance}
use cpa_plugin_key_policy.Admin.Changes.{text_length}

-- the errors of both
pub data AmountError : Type 0 where
  no_id no_amount excessive long_note long_request_id no_such_key not_balance_mode : AmountError
  invalid_window invalid_expectation : AmountError
  not_adjusted : AdjustError → AmountError
  not_reset : ResetError → AmountError

-- `maxBalanceAdjustmentUSD`
abbrev pub max_balance_adjustment_usd : Int64
max_balance_adjustment_usd = 1000000

-- `maxBalanceNoteRunes`
abbrev pub max_balance_note_runes : ℕ
max_balance_note_runes = 200

-- `maxBalanceRequestIDLen`
abbrev pub max_balance_request_id_len : ℕ
max_balance_request_id_len = 128

-- the bytes of a code point in UTF-8, and of a text
utf8_size : ℕ → ℕ
utf8_size c = if ltb c 128 then 1 else if ltb c 2048 then 2 else if ltb c 65536 then 3 else 4

unfoldable pub byte_length : String → ℕ
unfolding utf8_size
byte_length String.[] = 0
byte_length (String.◌∷◌ c s) = utf8_size (code c) + byte_length s

-- `UsageResetWindow.valid`, with the window that a text names
unfoldable pub window_of : String → Option Window
window_of name =
    if name == "daily"
    then some daily
    else if name == "weekly"
    then some weekly
    else if name == "monthly"
    then some monthly
    else none

abbrev pub name_of : Window → String
name_of daily = "daily"
name_of weekly = "weekly"
name_of monthly = "monthly"

-- `math.Abs(x) > maxBalanceAdjustmentUSD`
abbrev pub is_excessive : (fl : Floats) → fl.Float → Bool
is_excessive fl x =
    fl.lt (fl.of_int max_balance_adjustment_usd) x
    || fl.lt x (fl.of_int (sub64 0 max_balance_adjustment_usd))

-- why `AdjustBalance` refuses its arguments
unfoldable pub refused_amount :
    (fl : Floats) → String → fl.Float → String → String → Option AmountError
unfolding text_length byte_length
refused_amount fl id dollars note request_id =
    if id == ""
    then some no_id
    else if fl.is_nan dollars || fl.is_inf dollars || usd_to_nano fl dollars == 0
    then some no_amount
    else if is_excessive fl dollars
    then some excessive
    else if ltb max_balance_note_runes (text_length note)
    then some long_note
    else if ltb max_balance_request_id_len (byte_length request_id)
    then some long_request_id
    else none

-- an expectation with a zero Time
abbrev pub is_empty_expectation : Option ResetExpectation → Bool
is_empty_expectation none = false
is_empty_expectation (some e) = e.started_at == 0 || e.reset_after_manual_at == 0

module _ {fl : Floats} where
  -- why it refuses the key
  unfoldable pub refused_key : Option (KeyConfig fl) → Option AmountError
  refused_key none = some no_such_key
  refused_key (some key) = if balance_mode key then none else some not_balance_mode

  noted : String → String → List (String × Value fl × Value fl)
  noted field value = if value == "" then [] else (field, nothing, text value) ∷ []

  unfoldable pub adjustment_event : String → String → BalanceAdjustment → AuditEvent fl
  unfolding noted
  adjustment_event note request_id a = record {
    action = "adjust_balance";
    key_id = a.key_id;
    changes =
        ("amount_usd", nothing, amount (usd fl a.amount))
          ∷ ("balance_usd", amount (usd fl a.before), amount (usd fl a.after))
          ∷ noted "note" note
        ++ noted "request_id" request_id;
  }

  -- the instance with the ledger of an operation
  abbrev pub with_usage : Ledger → Instance fl → Instance fl
  with_usage l i = record i { store = record i.store { usage = l } }

  -- the end of `AdjustBalance`, by whether an earlier request answers it
  unfoldable pub adjustment_booked :
      String
      → String
      → String
      → Instance fl
      → Ledger
      → BalanceAdjustment
      → Bool
      → Instance fl × Result AmountError BalanceAdjustment
  unfolding adjustment_event
  adjustment_booked dataset_id note request_id i l a true = (with_usage l i, ok a)
  adjustment_booked dataset_id note request_id i l a false = (
    record (with_usage l i) {
      files = adjusted_files dataset_id l i.files;
      audited = i.audited ++ (adjustment_event note request_id a ∷ []);
    },
    ok a,
  )

  -- `AdjustBalance` from the answer of the ledger
  unfoldable pub adjustment_answered :
      String
      → String
      → String
      → Instance fl
      → Ledger × Adjusted
      → Instance fl × Result AmountError BalanceAdjustment
  unfolding adjustment_booked
  adjustment_answered dataset_id note request_id i (l, refused e) =
      (with_usage l i, err (not_adjusted e))
  adjustment_answered dataset_id note request_id i (l, adjusted a) =
      adjustment_booked dataset_id note request_id i l a a.duplicate

  -- an adjustment by why its arguments and its key are refused
  unfoldable pub adjusted_unless :
      Instance fl
      → Option AmountError
      → Option AmountError
      → Instance fl × Result AmountError BalanceAdjustment
      → Instance fl × Result AmountError BalanceAdjustment
  adjusted_unless i (some e) unfit r = (i, err e)
  adjusted_unless i none (some e) r = (i, err e)
  adjusted_unless i none none r = r

  -- `AdjustBalance`
  unfoldable pub adjust_account :
      String
      → Bool
      → String
      → fl.Float
      → String
      → String
      → Instance fl
      → Instance fl × Result AmountError BalanceAdjustment
  unfolding refused_amount refused_key adjustment_answered adjusted_unless
  adjust_account dataset_id live_ok raw_id dollars raw_note raw_request_id i =
      let id = trim_space raw_id in
      let note = trim_space raw_note in
      let request_id = trim_space raw_request_id in
      adjusted_unless i (refused_amount fl id dollars note request_id)
        (refused_key (get id i.store.keys))
        (adjustment_answered dataset_id note request_id i
          (adjust_balance (λ _ _. live_ok) id (usd_to_nano fl dollars) request_id i.store.usage))

  unfoldable pub reset_event : ResetResult → AuditEvent fl
  reset_event r = record {
    action = "reset_usage";
    key_id = r.key_id;
    changes =
        ("window", text "", text (name_of r.window))
        ∷ ("daily_usd", amount (usd fl r.before_daily), amount (usd fl r.after_daily))
        ∷ ("weekly_usd", amount (usd fl r.before_weekly), amount (usd fl r.after_weekly))
        ∷ ("monthly_usd", amount (usd fl r.before_monthly), amount (usd fl r.after_monthly))
        ∷ ("next_reset_at", nothing, instant r.next_accounting_boundary_at)
        ∷ [];
  }

  -- `ResetUsageWindow` from the answer of the ledger
  unfoldable pub reset_answered :
      String → Instance fl → Ledger × Answer → Instance fl × Result AmountError ResetResult
  unfolding reset_event
  reset_answered dataset_id i (l, Answer.refused e) = (with_usage l i, err (not_reset e))
  reset_answered dataset_id i (l, Answer.done r) = (
    record (with_usage l i) {
      files = adjusted_files dataset_id l i.files;
      audited = i.audited ++ (reset_event r ∷ []);
    },
    ok r,
  )

  -- `ResetUsageWindow` of a window that is valid
  unfoldable pub reset_valid :
      String
      → Bool
      → String
      → Window
      → Option ResetExpectation
      → Time
      → Instance fl
      → Instance fl × Result AmountError ResetResult
  unfolding reset_answered
  reset_valid dataset_id live_ok id window expected now i =
      if is_empty_expectation expected
      then (i, err invalid_expectation)
      else if not (is_some (get id i.store.keys))
      then (i, err no_such_key)
      else reset_answered dataset_id i
          (reset_window (λ _ _. live_ok) id window expected now i.store.usage)

  -- `ResetUsageWindow`
  unfoldable pub reset_usage_window :
      String
      → Bool
      → String
      → String
      → Option ResetExpectation
      → Time
      → Instance fl
      → Instance fl × Result AmountError ResetResult
  unfolding window_of reset_valid
  reset_usage_window dataset_id live_ok raw_id name expected now i =
      let id = trim_space raw_id in
      if id == "" then (i, err no_id) else elim (window_of name) [
        | none ↦ (i, err invalid_window)
        | some window ↦ reset_valid dataset_id live_ok id window expected now i
      ]
