-- ===== src/Charging.antt =====
-- What a record of tokens costs: `billTokens` of internal/policy/billing.go.
pub mod Bounds
use cpa_plugin_key_policy.Base.{
  ℕ, Bool, true, false, Option, none, some, is_some, get_or, if◌then◌else◌,
}
use cpa_plugin_key_policy.Int64.{Int64, add64}
use cpa_plugin_key_policy.Bucket.{Bucket}
use cpa_plugin_key_policy.Tokens.{UsageDetail, TokenSemantics, split_tokens}
use cpa_plugin_key_policy.Money.{Floats, token_charge}
use cpa_plugin_key_policy.Price.{ModelPrice}

module _ (fl : Floats) where
  -- the price of a cache read, and of a cache write
  unfoldable pub read_price : ModelPrice fl → fl.Float
  read_price price =
      if fl.equal price.cache_read_price_per_million (fl.of_int 0)
      then price.input_price_per_million
      else price.cache_read_price_per_million

  unfoldable pub write_price : ModelPrice fl → fl.Float
  write_price price = get_or price.cache_write_price_per_million price.input_price_per_million

  -- the charge of one class of tokens
  unfoldable pub class_cost : ModelPrice fl → Int64 → fl.Float → Int64
  class_cost price tokens class_price =
      token_charge fl (fl.mul (fl.of_int tokens) class_price) price.billing_multiplier

  -- `billTokens`
  unfoldable pub bill_tokens : ModelPrice fl → TokenSemantics → UsageDetail → Bucket
  unfolding read_price write_price class_cost
  bill_tokens price semantics detail =
      let split = split_tokens semantics detail (is_some price.cache_write_price_per_million) in
      let input_cost = class_cost price split.input price.input_price_per_million in
      let output_cost = class_cost price split.output price.output_price_per_million in
      let read_cost = class_cost price split.cache_read (read_price price) in
      let write_cost = class_cost price split.cache_write (write_price price) in
      record {
        calls = 1;
        unpriced_calls = 0;
        input_tokens = split.input;
        cache_read_tokens = split.cache_read;
        cache_write_tokens = split.cache_write;
        output_tokens = split.output;
        charged_nano = add64 (add64 (add64 input_cost read_cost) write_cost) output_cost;
        cache_read_cost_nano = read_cost;
        cache_write_cost_nano = write_cost;
      }
