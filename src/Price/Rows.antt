-- ===== src/Price/Rows.antt =====
-- What the checks of `normalizeModelPrices` accept of one row: internal/policy/price.go.
use Prim.Native.Char.{Char}
use cpa_plugin_key_policy.Base.{
  ◌≡◌, refl, inl, inr, true, Option, none, some, String, string_eq, arith, Bool-cases,
  if◌then◌else◌,
}
use cpa_plugin_key_policy.Money.{Floats}
use cpa_plugin_key_policy.Price.{
  ModelPrice, valid_price, max_price_per_million, max_per_call_usd, row, check_prices, with_mode,
  check_row, zero_price, valid_multiplier, billing_mode_of,
}

module _ (fl : Floats) where
  -- what an accepted row charges at most
  pub record IsPriced (r : ModelPrice fl) : Type 0 where
    pub input : valid_price fl r.input_price_per_million max_price_per_million ≡ true
    pub output : valid_price fl r.output_price_per_million max_price_per_million ≡ true
    pub cache_read : valid_price fl r.cache_read_price_per_million max_price_per_million ≡ true
    pub cache_write :
        (w : fl.Float)
        → r.cache_write_price_per_million ≡ some w
        → valid_price fl w max_price_per_million ≡ true
    pub multiplier : valid_multiplier fl r.billing_multiplier ≡ true
    pub per_call : valid_price fl r.per_call_usd max_per_call_usd ≡ true

  -- a row that the checks accept, against the row that they were given
  pub record Accepted (raw r : ModelPrice fl) : Type 0 where
    pub name : r.name ≡ raw.name
    pub provider : r.provider ≡ raw.provider
    pub prices : IsPriced r

  check_prices_lem :
      (raw r : ModelPrice fl)
      → valid_multiplier fl raw.billing_multiplier ≡ true
      → check_prices fl raw ≡ row r
      → (raw ≡ r) × IsPriced raw
  unfolding check_prices
  check_prices_lem raw r v h = (
    ground arith,
    record {
      input = ground arith;
      output = ground arith;
      cache_read = ground arith;
      cache_write = λ w e. ground (arith, h, e);
      multiplier = v;
      per_call = ground arith;
    },
  )

  with_mode_lem :
      (raw r : ModelPrice fl) (mode : Option String)
      → valid_multiplier fl raw.billing_multiplier ≡ true
      → with_mode fl raw mode ≡ row r
      → Accepted raw r
  unfolding with_mode
  with_mode_lem raw r none v h = cc
  with_mode_lem raw r (some mode) v h =
      let (e, p) = check_prices_lem (record raw { billing_mode = mode }) r v h in
      rw (← e) (record {
        name = refl;
        provider = refl;
        prices = record {
          input = p.input;
          output = p.output;
          cache_read = p.cache_read;
          cache_write = p.cache_write;
          multiplier = p.multiplier;
          per_call = p.per_call;
        };
      })

  pub check_row_lem :
      (lower : Char → Char) (raw r : ModelPrice fl)
      → check_row fl lower raw ≡ row r
      → Accepted raw r
  unfolding check_row
  check_row_lem lower raw r h =
      let m =
        if fl.equal raw.billing_multiplier (zero_price fl)
        then fl.of_int 1
        else raw.billing_multiplier in
      elim (Bool-cases (valid_multiplier fl m)) [
        | inl v ↦
            let a =
              with_mode_lem (record raw { billing_multiplier = m }) r
                (billing_mode_of fl lower raw.billing_mode) v (ground (arith, v)) in
            record { name = a.name; provider = a.provider; prices = a.prices }
        | inr v ↦ absurd (ground (arith, v))
      ]
