-- ===== src/Examples/Money.antt =====
-- The theorems on charges, tokens, prices and traces at concrete values.
use cpa_plugin_key_policy.Base.{◌+◌, ◌-◌, refl, arith, true, [], ◌∷◌, string_eq, nat_eq}
use cpa_plugin_key_policy.Dict.{get, put}
use cpa_plugin_key_policy.Text.{trim_space, to_lower, trim_prefix, append}
use cpa_plugin_key_policy.Tokens.{independent, subset, split_tokens}
use cpa_plugin_key_policy.Tokens.Sanitizing.{IsSane}
use cpa_plugin_key_policy.Tokens.Splitting.{IsSplit, prompt_tokens, split_tokens-IsSplit}
use cpa_plugin_key_policy.MediaTrace.{no_traces, remember, remember_at, trim, trim_from, take}
use cpa_plugin_key_policy.MediaTrace.Capacity.{
  IsBounded, fresh, remembers, adopts, takes, Reached-IsBounded,
}
use cpa_plugin_key_policy.Charging.{bill_tokens}
use cpa_plugin_key_policy.Charging.Bounds.{IsSummed, bill_tokens-IsSummed}
use cpa_plugin_key_policy.Price.{
  PriceTable, valid_price, valid_multiplier, zero_price, normalize_provider, price_key,
  normalize_model_prices, lookup_price,
}
use cpa_plugin_key_policy.Price.Rows.{IsPriced}
use cpa_plugin_key_policy.Price.Lookup.{IsTable, normalize_model_prices-IsTable}
use cpa_plugin_key_policy.Price.Finding.{Found, lookup_price-Found}
use cpa_plugin_key_policy.Examples.{whole, whole-IsIeee, lib, noon, detail, gpt_row}

detail-IsSane : IsSane detail
detail-IsSane = record {
  input = omega arith;
  output = omega arith;
  reasoning = omega arith;
  cached = omega arith;
  reads = omega arith;
  creation = omega arith;
  total = omega arith;
}

split_tokens-IsSplit_example :
    IsSplit (prompt_tokens independent detail) detail (split_tokens independent detail true)
split_tokens-IsSplit_example = split_tokens-IsSplit independent detail true detail-IsSane

gpt_row-IsPriced : IsPriced whole gpt_row
unfolding valid_price valid_multiplier zero_price
gpt_row-IsPriced = record {
  input = refl;
  output = refl;
  cache_read = refl;
  cache_write = λ w e. absurd (cc);
  multiplier = refl;
  per_call = refl;
}

bill_tokens-IsSummed_example : IsSummed whole gpt_row (bill_tokens whole gpt_row subset detail)
bill_tokens-IsSummed_example =
    bill_tokens-IsSummed whole gpt_row subset detail whole-IsIeee gpt_row-IsPriced detail-IsSane

Reached-IsBounded_example :
    IsBounded 1
      (take "trace"
        (noon + 2)
        (remember_at "older" (noon - 5) (noon + 1) (remember "trace" noon no_traces))).0
unfolding trim trim_from get
Reached-IsBounded_example =
    Reached-IsBounded (
      takes "trace" (noon + 2)
        (adopts "older" (noon - 5) (noon + 1) (remembers "trace" noon fresh)))

abbrev price_table : PriceTable whole
price_table = record { rows = gpt_row ∷ []; index = ("gpt\0", gpt_row) ∷ [] }

price_table-IsTable : IsTable whole lib.lower price_table
unfolding normalize_model_prices trim_space get to_lower normalize_provider put trim_prefix
    price_key append
price_table-IsTable = normalize_model_prices-IsTable whole lib.lower (gpt_row ∷ []) price_table refl

normalize_model_prices-IsTable_example : IsTable whole lib.lower price_table
unfolding normalize_model_prices trim_space get to_lower normalize_provider put trim_prefix
    price_key append
normalize_model_prices-IsTable_example =
    normalize_model_prices-IsTable whole lib.lower (gpt_row ∷ []) price_table refl

lookup_price-Found_example : Found lib.lower price_table "openai" "gpt" gpt_row
unfolding lookup_price trim_prefix to_lower trim_space get normalize_provider price_key append
lookup_price-Found_example =
    lookup_price-Found whole lib.lower price_table "openai" "gpt" gpt_row price_table-IsTable refl
