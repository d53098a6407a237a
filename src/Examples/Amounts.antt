-- ===== src/Examples/Amounts.antt =====
-- The theorem on the adjustment of an account at a concrete instance, over floats that are whole
-- numbers with a sign.
use cpa_plugin_key_policy.Base.{
  ℕ, ◌≡◌, refl, true, false, none, [], ◌∷◌, string_eq, ◌==◌, Bool-cases, inl, inr, arith, ◌*◌, ◌/◌,
  ◌%◌, nat_eq,
}
use cpa_plugin_key_policy.Base.Results.{ok, err}
use cpa_plugin_key_policy.Dict.{get, put}
use cpa_plugin_key_policy.Int64.{modulus, lt64, le64}
use cpa_plugin_key_policy.Money.{Floats, usd_to_nano}
use cpa_plugin_key_policy.Text.{trim_space}
use cpa_plugin_key_policy.Ledger.{Ledger, new_usage_ledger}
use cpa_plugin_key_policy.Ledger.Adjust.{
  BalanceAdjustment, adjust_balance, adjust_entry, adjust_usage, answer_or_apply, earlier_request,
  apply_credit, answer_request,
}
use cpa_plugin_key_policy.Persistence.Flushing.{InSync, Recovers}
use cpa_plugin_key_policy.Store.{KeyConfig, balance_mode}
use cpa_plugin_key_policy.Admin.{Instance}
use cpa_plugin_key_policy.Admin.Amounts.{adjust_account, excessive}
use cpa_plugin_key_policy.Admin.Amounts.Adjusting.{Outcome, adjust_account-Outcome}
use cpa_plugin_key_policy.Examples.{utc, prepaid, store}

-- whole numbers of 64 bits as floats, which have a sign
abbrev signed : Floats
signed = record {
  Float = ℕ;
  of_int = λ n. n;
  mul = λ a b. (a * b) % modulus;
  div = λ a b. a / b;
  lt = lt64;
  le = le64;
  equal = λ a b. a == b;
  is_nan = λ _. false;
  is_inf = λ _. false;
  round = λ n. n;
}

abbrev account : KeyConfig signed
account = record {
  id = "key";
  name = "Key";
  enabled = true;
  key_hash = "sha256:secret";
  key_preview = "...";
  rpm = 60;
  daily_limit_usd = 0;
  weekly_limit_usd = 0;
  monthly_limit_usd = 0;
  quota_mode = "balance";
  created_at = 7;
  updated_at = 7;
}

-- a ledger with a prepaid key and no days
abbrev paid : Ledger
paid = record (new_usage_ledger utc "UTC") { entries = ("key", record prepaid { days = [] }) ∷ [] }

abbrev bank : Instance signed
bank = record {
  store = record {
    enabled = true;
    keys = ("key", account) ∷ [];
    keys_by_hash = ("sha256:secret", account) ∷ [];
    prices = record { rows = []; index = [] };
    limiter = [];
    usage = paid;
    media_traces = record { order = []; index = [] };
    health = store.health;
    handoff = none;
  };
  state = none;
  files = record { live = none; history = none };
  audited = [];
}

-- the balance of 700 nanodollars, topped up by 5 dollars
abbrev topped_up : BalanceAdjustment
topped_up = record {
  key_id = "key";
  amount = 5000000000;
  before = 700;
  after = 5000000700;
  net_credited = 5000001000;
  duplicate = false;
}

-- the instance after that
abbrev topped_up_bank : Instance signed
topped_up_bank = (adjust_account "dataset" true " key" 5 "top-up" "r1" bank).0

adjust_account_booked : (adjust_account "dataset" true " key" 5 "top-up" "r1" bank).1 ≡ ok topped_up
unfolding adjust_account trim_space usd_to_nano get balance_mode adjust_balance adjust_entry
    adjust_usage answer_or_apply earlier_request apply_credit
adjust_account_booked = refl

-- the same request again, and an amount that is too large
adjust_account_again :
    adjust_account "dataset" true "key" 5 "" "r1" topped_up_bank
    ≡ (topped_up_bank, ok (record topped_up { duplicate = true }))
unfolding adjust_account trim_space usd_to_nano get balance_mode adjust_balance adjust_entry
    adjust_usage answer_or_apply earlier_request apply_credit put answer_request
adjust_account_again = refl

adjust_account_excessive :
    adjust_account "dataset" true " key" 1000001 "top-up" "r1" bank ≡ (bank, err excessive)
unfolding adjust_account trim_space usd_to_nano
adjust_account_excessive = refl

-- the adjustment is booked, not refused: the outcome at its answer
adjust_account-Outcome_example :
    Outcome "dataset" " key" 5 "top-up" "r1" bank (topped_up_bank, ok topped_up)
unfolding adjust_account trim_space usd_to_nano get balance_mode adjust_balance adjust_entry
    adjust_usage answer_or_apply earlier_request apply_credit
adjust_account-Outcome_example = adjust_account-Outcome "dataset" true " key" 5 "top-up" "r1" bank

paid-InSync : InSync "dataset" paid none
unfolding get
paid-InSync = record {
  named = tt;
  reaches = refl;
  closed = omega arith;
  holds = λ _ id date. elim (Bool-cases ("key" == id)) [ inl t ↦ rw t refl | inr f ↦ rw f refl ];
}

-- the files give the topped up ledger back
adjust_account-Recovers : Recovers topped_up_bank.store.usage topped_up_bank.files
unfolding adjust_account trim_space usd_to_nano get balance_mode adjust_balance adjust_entry
    adjust_usage answer_or_apply earlier_request apply_credit
adjust_account-Recovers =
    let outcome : Outcome "dataset" " key" 5 "top-up" "r1" bank (topped_up_bank, ok topped_up) =
      adjust_account-Outcome "dataset" true " key" 5 "top-up" "r1" bank in
    elim outcome [ inl (old, _) ↦ absurd (cc) | inr booked ↦ (booked.recovers paid-InSync refl).1 ]
