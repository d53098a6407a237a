-- ===== src/Examples.antt =====
-- Concrete values for the tests: a clock without time zones, float64 as whole numbers, a ledger
-- with two keys, a price table and a store.
pub mod Days
pub mod Records
pub mod Persisting
pub mod Requests
pub mod Money
pub mod Managing
pub mod Amounts
pub mod Scanning
pub mod Searching
use cpa_plugin_key_policy.Base.{
  ℕ, suc, zero, ◌+◌, ◌-◌, ◌*◌, ◌/◌, ◌^◌, ◌≤◌, ◌<◌, ◌≡◌, ◌≢◌, ◌↔◌, refl, arith, Bool, true, false,
  Option, none, some, List, [], ◌∷◌, String, ltb, leb, leb→le, ◌==◌, nat_eq, string_eq, Bool-cases,
  inl, inr,
}
use native.Mathlib.Nat.{mul-le-mul, mul_assoc}
use cpa_plugin_key_policy.Calendar.{Time, Date, Location, IsCalendar}
use cpa_plugin_key_policy.Bucket.{Bucket, empty_bucket}
use cpa_plugin_key_policy.Cycle.{Cycles, initial, new_cycles}
use cpa_plugin_key_policy.Balance.{Balance}
use cpa_plugin_key_policy.Ledger.{Ledger, KeyUsage, new_usage_ledger}
use cpa_plugin_key_policy.Money.{Floats, IsIeee}
use cpa_plugin_key_policy.Tokens.{UsageDetail}
use cpa_plugin_key_policy.Price.{ModelPrice}
use cpa_plugin_key_policy.Store.{Library, KeyConfig, Store}
use cpa_plugin_key_policy.Billing.{UsageEvent}

-- texts that a test tells apart
pub texts_differ : (a b : String) → (a == b) ≡ false → a ≢ b
texts_differ a b h = ground (arith, string_eq.same_iff a b, h)

pub numbers_differ : (a b : ℕ) → (a == b) ≡ false → a ≢ b
numbers_differ a b h = ground (arith, nat_eq.same_iff a b, h)

-- a day, in nanoseconds
abbrev pub day : Time
day = 86400000000000

-- UTC
abbrev pub utc : Location
utc = record { civil = λ t. t / day + 1; midnight = λ d. (d - 1) * day; zone_end = λ t. t }

utc_skipped :
    (d : Date) (t : Time)
    → utc.civil (utc.midnight d) ≢ d
    → (utc.zone_end (utc.midnight d) ≤ t) ↔ (d ≤ utc.civil t)
utc_skipped zero t h = (λ le. omega arith, λ le. omega arith)
utc_skipped (suc n) t h = absurd (h (omega arith))

pub utc-IsCalendar : IsCalendar utc
utc-IsCalendar = record {
  midnight_exists = λ d t h. (λ le. omega arith, λ le. omega arith);
  midnight_skipped = utc_skipped;
}

abbrev pub noon : Time
noon = 10 * day + 43200000000000

-- one call of 5 nanodollars
abbrev pub call : Bucket
call = record empty_bucket { calls = 1; charged_nano = 5 }

abbrev pub opened : Cycles
opened = new_cycles utc (3 * day + 7) initial

abbrev pub prepaid : KeyUsage
prepaid = record {
  cycles = some opened;
  balance = some (record { nano = 700; net_credited_nano = 1000; requests = [] });
  days = (5, ("gpt", call) ∷ []) ∷ [];
}

abbrev pub ledger : Ledger
ledger = record (new_usage_ledger utc "UTC") {
  entries = ("key", prepaid) ∷ ("other", prepaid) ∷ [];
  history_through = 3;
  closed_through = 8;
}

-- whole numbers as floats
abbrev pub whole : Floats
whole = record {
  Float = ℕ;
  of_int = λ n. n;
  mul = λ a b. a * b;
  div = λ a b. a / b;
  lt = ltb;
  le = leb;
  equal = λ a b. a == b;
  is_nan = λ _. false;
  is_inf = λ _. false;
  round = λ n. n;
}

pub whole-IsIeee : IsIeee whole
whole-IsIeee = record {
  of_int_mono = λ a b h _. ground (arith, h);
  le_trans = λ x y z h k. ground (arith, h, k);
  of_int_number = λ a. refl;
  of_int_finite = λ a. refl;
  lt_total = λ x y _ _ h. ground (arith, h);
  mul_mono = λ x y u v _ h _ k _ _.
      (ground arith, ground (arith, h, k, mul-le-mul (leb→le x y h) (leb→le u v k)));
  mul_exact = λ k m b _ _ _ _. mul_assoc (2 ^ k) m b;
  round_most = λ x k m _ h _ _. ground (arith, h);
}

abbrev pub lib : Library
lib = record { lower = λ c. c; upper = λ c. c; digest = λ s. s }

abbrev pub detail : UsageDetail
detail = record {
  input_tokens = 100;
  output_tokens = 20;
  reasoning_tokens = 5;
  cached_tokens = 0;
  cache_read_tokens = 30;
  cache_creation_tokens = 10;
  total_tokens = 125;
}

abbrev pub gpt_row : ModelPrice whole
gpt_row = record {
  name = "gpt";
  provider = "";
  billing_mode = "tokens";
  billing_multiplier = 2;
  input_price_per_million = 3;
  output_price_per_million = 7;
  cache_read_price_per_million = 1;
  cache_write_price_per_million = none;
  per_call_usd = 0;
}

abbrev pub client : KeyConfig whole
client = record {
  id = "key";
  name = "Key";
  enabled = true;
  key_hash = "sha256:secret";
  key_preview = "...";
  rpm = 60;
  daily_limit_usd = 2;
  weekly_limit_usd = 0;
  monthly_limit_usd = 0;
  quota_mode = "";
  created_at = 3 * day + 7;
  updated_at = 3 * day + 7;
}

abbrev pub store : Store whole
store = record {
  enabled = true;
  keys = ("key", client) ∷ [];
  keys_by_hash = ("sha256:secret", client) ∷ [];
  prices = record { rows = gpt_row ∷ []; index = ("gpt\0", gpt_row) ∷ [] };
  limiter = [];
  usage = ledger;
  media_traces = record {
    order = record { id = "trace"; at = noon } ∷ [];
    index = ("trace", noon) ∷ [];
  };
  health = record {
    skipped_failed = 0;
    ignored_unknown_key = 0;
    ignored_no_model = 0;
    invalid_usage = 0;
    clamped_tokens = 0;
    unmetered_per_call = 0;
    ignored_empty_usage = 0;
    unpriced_calls = 0;
  };
  handoff = some [];
}

abbrev pub event : UsageEvent
event = record {
  trace_id = "trace";
  provider = "openai";
  executor_type = "";
  model = "gpt";
  requested_model = "";
  api_key = "key";
  failed = false;
  detail = detail;
}
