-- ===== src/Price.antt =====
-- Price rows and their lookup: internal/policy/price.go. A row is found through the text
-- that joins its lowered name and its normalised provider by a NUL; the index holds the row in
-- place of its position. `lower` is unicode.ToLower.
pub mod Rows
pub mod Lookup
pub mod Finding
pub mod Snapshot
use Prim.Native.Char.{Char}
use cpa_plugin_key_policy.Base.{
  ℕ, ◌≡◌, ◌↔◌, ap, Bool, true, false, not, ◌&&◌, ◌||◌, Option, none, some, List, [], ◌∷◌, ◌++◌,
  String, Comparable, ◌==◌, string_eq, arith, if◌then◌else◌, is_some,
}
use cpa_plugin_key_policy.Dict.{Dict, get, put}
use cpa_plugin_key_policy.Text.{trim_space, to_lower, trim_prefix, append}
use cpa_plugin_key_policy.Money.{Floats}

-- what `priceKey` gives
abbrev pub PriceKey : Type 0
PriceKey = String

-- `maxPricePerMillion`, `maxPerCallUSD`, `maxBillingMultiplier`
abbrev pub max_price_per_million : ℕ
max_price_per_million = 10000

abbrev pub max_per_call_usd : ℕ
max_per_call_usd = 10000

abbrev pub max_billing_multiplier : ℕ
max_billing_multiplier = 50

-- `ModelPrice`
pub record ModelPrice (fl : Floats) : Type 0 where
  pub name : String
  pub provider : String
  pub billing_mode : String
  pub billing_multiplier : fl.Float
  pub input_price_per_million : fl.Float
  pub output_price_per_million : fl.Float
  pub cache_read_price_per_million : fl.Float
  pub cache_write_price_per_million : Option fl.Float
  pub per_call_usd : fl.Float

-- `normalizeProvider`
unfoldable pub normalize_provider : (Char → Char) → String → String
normalize_provider lower provider =
    trim_prefix "openai-compatible-" (to_lower lower (trim_space provider))

-- `priceKey`
unfoldable pub price_key : (Char → Char) → String → String → PriceKey
unfolding normalize_provider append
price_key lower name provider =
    append (to_lower lower (trim_space name)) (append "\0" (normalize_provider lower provider))

-- the errors of `normalizeModelPrices`
pub data PriceError : Type 0 where
  name_required duplicate_row bad_multiplier bad_billing_mode bad_token_price bad_write_price
        bad_per_call :
      PriceError

module _ (fl : Floats) where
  unfoldable pub zero_price : fl.Float
  zero_price = fl.of_int 0

  positive : fl.Float → Bool
  unfolding zero_price
  positive price = fl.lt zero_price price

  -- `ModelPrice.Priced`
  unfoldable pub priced : ModelPrice fl → Bool
  unfolding positive
  priced p =
      if p.billing_mode == "per_call"
      then positive p.per_call_usd
      else positive p.input_price_per_million
        || positive p.output_price_per_million
        || positive p.cache_read_price_per_million
        || elim p.cache_write_price_per_million [ none ↦ false | some w ↦ positive w ]

  -- `validPrice`
  unfoldable pub valid_price : fl.Float → ℕ → Bool
  unfolding zero_price
  valid_price price most =
      not (fl.is_nan price)
      && not (fl.is_inf price)
      && fl.le zero_price price
      && fl.le price (fl.of_int most)

  -- the test of the multiplier in `normalizeModelPrices`
  unfoldable pub valid_multiplier : fl.Float → Bool
  valid_multiplier m = not (
      fl.is_nan m
      || fl.is_inf m
      || fl.lt m (fl.of_int 1)
      || fl.lt (fl.of_int max_billing_multiplier) m)

  -- its switch over the billing mode
  pub billing_mode_of : (Char → Char) → String → Option String
  billing_mode_of lower mode =
      let text = to_lower lower (trim_space mode) in
      if text == "" || text == "tokens"
      then some "tokens"
      else if text == "per_call"
      then some "per_call"
      else none

  pub data RowResult : Type 0 where
    row : ModelPrice fl → RowResult
    bad_row : PriceError → RowResult

  -- the checks of one row past the duplicate test, on a row with its name and provider set
  pub check_prices : ModelPrice fl → RowResult
  unfolding valid_price
  check_prices r =
      if not (
        valid_price r.input_price_per_million max_price_per_million
        && valid_price r.output_price_per_million max_price_per_million
        && valid_price r.cache_read_price_per_million max_price_per_million)
      then bad_row bad_token_price
      else if elim r.cache_write_price_per_million [
        | none ↦ false
        | some w ↦ not (valid_price w max_price_per_million)
      ]
      then bad_row bad_write_price
      else if not (valid_price r.per_call_usd max_per_call_usd)
      then bad_row bad_per_call
      else row r

  pub with_mode : ModelPrice fl → Option String → RowResult
  unfolding check_prices
  with_mode r none = bad_row bad_billing_mode
  with_mode r (some mode) = check_prices (record r { billing_mode = mode })

  unfoldable pub check_row : (Char → Char) → ModelPrice fl → RowResult
  unfolding valid_multiplier billing_mode_of with_mode zero_price
  check_row lower r =
      let m =
        if fl.equal r.billing_multiplier zero_price then fl.of_int 1 else r.billing_multiplier in
      if not (valid_multiplier m)
      then bad_row bad_multiplier
      else with_mode (record r { billing_multiplier = m }) (billing_mode_of lower r.billing_mode)

  -- `priceTable`
  pub record PriceTable : Type 0 where
    pub rows : List (ModelPrice fl)
    pub index : Dict PriceKey (ModelPrice fl)

  pub data TableResult : Type 0 where
    table : PriceTable → TableResult
    bad_table : PriceError → TableResult

  pub add_row : PriceKey → RowResult → PriceTable → TableResult
  add_row key (bad_row e) t = bad_table e
  add_row key (row r) t = table (record { rows = t.rows ++ r ∷ []; index = put key r t.index })

  -- one round of the loop in `normalizeModelPrices`
  unfoldable pub normalize_row : (Char → Char) → ModelPrice fl → PriceTable → TableResult
  unfolding add_row check_row
  normalize_row lower raw t =
      let name = trim_space raw.name in
      let provider = normalize_provider lower raw.provider in
      let key = price_key lower name provider in
      if name == ""
      then bad_table name_required
      else if is_some (get key t.index)
      then bad_table duplicate_row
      else add_row key (check_row lower (record raw { name = name; provider = provider })) t

  unfoldable pub normalize_rows : (Char → Char) → List (ModelPrice fl) → TableResult → TableResult
  unfolding normalize_row
  normalize_rows lower [] t = t
  normalize_rows lower (raw ∷ rows) (bad_table e) = bad_table e
  normalize_rows lower (raw ∷ rows) (table t) =
      normalize_rows lower rows (normalize_row lower raw t)

  -- `normalizeModelPrices`
  unfoldable pub normalize_model_prices : (Char → Char) → List (ModelPrice fl) → TableResult
  unfolding normalize_rows
  normalize_model_prices lower rows =
      normalize_rows lower rows (table (record { rows = []; index = [] }))

  -- `priceTable.lookup`
  unfoldable pub lookup_price :
      (Char → Char) → PriceTable → String → String → Option (ModelPrice fl)
  unfolding price_key
  lookup_price lower t raw_provider model =
      let provider = normalize_provider lower raw_provider in
      let fallback = get (price_key lower model "") t.index in
      if provider == ""
      then fallback
      else elim (get (price_key lower model provider) t.index) [ some r ↦ some r | none ↦ fallback ]

  -- `priceTable.row`
  unfoldable pub row_of : (Char → Char) → PriceTable → String → String → Option (ModelPrice fl)
  unfolding price_key
  row_of lower t name provider = get (price_key lower name provider) t.index
