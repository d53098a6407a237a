-- ===== src/Billing.antt =====
-- Billing a usage record: `billTokens`, `RecordUsage` and `ListCost` of internal/policy/billing.go.
pub mod Recording
pub mod Once
use cpa_plugin_key_policy.Base.{
  ℕ, ◌+◌, Bool, true, false, not, ◌&&◌, ◌||◌, Option, none, some, String, string_eq, nat_eq, ◌==◌,
  if◌then◌else◌, is_some, get_or,
}
use cpa_plugin_key_policy.Text.{trim_space, to_lower}
use cpa_plugin_key_policy.Int64.{Int64, add64}
use cpa_plugin_key_policy.Calendar.{Time}
use cpa_plugin_key_policy.Bucket.{Bucket, empty_bucket}
use cpa_plugin_key_policy.Ledger.{record_call}
use cpa_plugin_key_policy.MediaTrace.{take, contains}
use cpa_plugin_key_policy.Tokens.{
  UsageDetail, TokenSemantics, sanitize_detail, split_tokens, token_semantics_for,
}
use cpa_plugin_key_policy.Money.{Floats, usd_to_nano, token_charge}
use cpa_plugin_key_policy.Price.{ModelPrice, priced, lookup_price}
use cpa_plugin_key_policy.Charging.{bill_tokens}
use cpa_plugin_key_policy.Store.{
  Library, KeyConfig, Health, Store, HandoffEntry, usage_entry, balance_mode, find_by_secret,
  find_by_id, journal,
}

-- `UsageEvent`
pub record UsageEvent : Type 0 where
  pub trace_id : String
  pub provider : String
  pub executor_type : String
  pub model : String
  pub requested_model : String
  pub api_key : String
  pub failed : Bool
  pub detail : UsageDetail

-- `UsageResult`
pub data UsageResult : Type 0 where
  recorded ignored_disabled skipped_failed ignored_unknown_key ignored_no_model invalid_usage
        ignored_empty unmetered_per_call :
      UsageResult

-- the model's name, trimmed, or else the name that the client sent
unfoldable pub model_of : UsageEvent → String
model_of event =
    let model = trim_space event.model in
    if model == "" then trim_space event.requested_model else model

-- a bucket whose four token classes are empty
unfoldable pub bills_nothing : Bucket → Bool
bills_nothing b =
    b.input_tokens == 0
    && b.cache_read_tokens == 0
    && b.cache_write_tokens == 0
    && b.output_tokens == 0

module _ (fl : Floats) where
  -- the price of a model that no row names
  unfoldable pub unlisted : ModelPrice fl
  unlisted = record {
    name = "";
    provider = "";
    billing_mode = "tokens";
    billing_multiplier = fl.of_int 1;
    input_price_per_million = fl.of_int 0;
    output_price_per_million = fl.of_int 0;
    cache_read_price_per_million = fl.of_int 0;
    cache_write_price_per_million = none;
    per_call_usd = fl.of_int 0;
  }

  -- the bucket of one call of a per-call row
  unfoldable pub one_call : ModelPrice fl → Bucket
  one_call price = record empty_bucket {
    calls = 1;
    charged_nano = usd_to_nano fl price.per_call_usd;
  }

  -- what `RecordUsage` does with the bucket: an unpriced call is counted, then booked and journalled
  unfoldable pub book :
      String → KeyConfig fl → Bool → Bucket → Time → Store fl → Store fl × UsageResult
  book model key is_priced bucket now s =
      let bucket' = if is_priced then bucket else record bucket { unpriced_calls = 1 } in
      let health =
        if is_priced
        then s.health
        else record s.health { unpriced_calls = add64 s.health.unpriced_calls 1 } in
      let deduct = balance_mode key in
      (
        journal (usage_entry key.id model bucket' deduct now) (record s {
          health = health;
          usage = record_call key.id model bucket' deduct now s.usage;
        }),
        recorded,
      )

  -- its per-call branch; a trace id is taken only where the record has one
  unfoldable pub record_per_call :
      UsageEvent
      → String
      → KeyConfig fl
      → ModelPrice fl
      → Bool
      → Time
      → Store fl
      → Store fl × UsageResult
  unfolding one_call book
  record_per_call event model key price is_priced now s =
      let (traces, taken) = take event.trace_id now s.media_traces in
      let s' = if event.trace_id == "" then s else record s { media_traces = traces } in
      if event.trace_id == "" || not taken
      then (
        record s' {
          health = record s.health { unmetered_per_call = add64 s.health.unmetered_per_call 1 };
        },
        unmetered_per_call,
      )
      else book model key is_priced (one_call price) now s'

  -- its token branch
  unfoldable pub record_tokens :
      Library
      → UsageEvent
      → UsageDetail
      → String
      → KeyConfig fl
      → ModelPrice fl
      → Bool
      → Time
      → Store fl
      → Store fl × UsageResult
  unfolding book
  record_tokens lib event detail model key price is_priced now s =
      let semantics = token_semantics_for lib.lower event.provider event.executor_type in
      let bucket = bill_tokens fl price semantics detail in
      if is_priced && bills_nothing bucket
      then (
        record s {
          health = record s.health { ignored_empty_usage = add64 s.health.ignored_empty_usage 1 };
        },
        ignored_empty,
      )
      else book model key is_priced bucket now s

  -- `found && price.Priced()`
  unfoldable pub row_priced : Option (ModelPrice fl) → Bool
  row_priced none = false
  row_priced (some row) = priced fl row

  -- `RecordUsage` once the record has a key, a model and token counts
  unfoldable pub record_priced :
      Library
      → UsageEvent
      → UsageDetail
      → String
      → KeyConfig fl
      → Time
      → Store fl
      → Store fl × UsageResult
  unfolding unlisted row_priced
  record_priced lib event detail model key now s =
      let found = lookup_price fl lib.lower s.prices event.provider model in
      let is_priced = row_priced found in
      let price = get_or found unlisted in
      let name = to_lower lib.lower model in
      if price.billing_mode == "per_call"
      then record_per_call event name key price is_priced now s
      else record_tokens lib event detail name key price is_priced now s

  unfoldable pub record_for :
      Library → UsageEvent → KeyConfig fl → Time → Store fl → Store fl × UsageResult
  unfolding record_priced
  record_for lib event key now s =
      let model = model_of event in
      let d = sanitize_detail event.detail in
      if model == ""
      then (
        record s {
          health = record s.health { ignored_no_model = add64 s.health.ignored_no_model 1 };
        },
        ignored_no_model,
      )
      else if d.invalid
      then (
        record s { health = record s.health { invalid_usage = add64 s.health.invalid_usage 1 } },
        invalid_usage,
      )
      else record_priced lib event d.detail model key now (
          if d.clamped
          then record s {
            health = record s.health { clamped_tokens = add64 s.health.clamped_tokens 1 };
          }
          else s)

  -- the key of a record, by its id or else by its secret
  unfoldable pub key_of : Library → UsageEvent → Store fl → Option (KeyConfig fl)
  key_of lib event s = elim (find_by_id event.api_key s) [
    | some key ↦ some key
    | none ↦ find_by_secret lib event.api_key s
  ]

  unfoldable pub record_found :
      Library → UsageEvent → Option (KeyConfig fl) → Time → Store fl → Store fl × UsageResult
  unfolding record_for
  record_found lib event none now s = (
    record s {
      health = record s.health { ignored_unknown_key = add64 s.health.ignored_unknown_key 1 };
    },
    ignored_unknown_key,
  )
  record_found lib event (some key) now s = record_for lib event key now s

  -- `RecordUsage`
  unfoldable pub record_usage : Library → UsageEvent → Time → Store fl → Store fl × UsageResult
  record_usage lib event now s =
      if not s.enabled
      then (s, ignored_disabled)
      else if event.failed
      then (
        record s { health = record s.health { skipped_failed = add64 s.health.skipped_failed 1 } },
        skipped_failed,
      )
      else record_found lib event (key_of lib event s) now s

  -- `ListCost` of a priced row
  unfoldable pub list_price :
      Library → UsageEvent → UsageDetail → Time → ModelPrice fl → Store fl → Store fl × Option Int64
  list_price lib event detail now price s =
      let (traces, here) = contains event.trace_id now s.media_traces in
      if price.billing_mode == "per_call"
      then if event.trace_id == "" then (s, none) else (
        record s { media_traces = traces },
        if here then some (usd_to_nano fl price.per_call_usd) else none,
      )
      else (
        s,
        some
            (bill_tokens fl (record price { billing_multiplier = fl.of_int 1 })
              (token_semantics_for lib.lower event.provider event.executor_type)
              detail).charged_nano,
      )

  list_found :
      Library
      → UsageEvent
      → UsageDetail
      → Time
      → Option (ModelPrice fl)
      → Store fl
      → Store fl × Option Int64
  unfolding list_price
  list_found lib event detail now none s = (s, none)
  list_found lib event detail now (some price) s =
      if not (priced fl price) then (s, none) else list_price lib event detail now price s

  -- `ListCost`; an answer of false is none
  unfoldable pub list_cost : Library → UsageEvent → Time → Store fl → Store fl × Option Int64
  unfolding list_found
  list_cost lib event now s =
      let model = model_of event in
      let d = sanitize_detail event.detail in
      if event.failed || model == "" || d.invalid
      then (s, none)
      else list_found lib event d.detail now
          (lookup_price fl lib.lower s.prices event.provider model) s
