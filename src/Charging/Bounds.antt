-- ===== src/Charging/Bounds.antt =====
-- The size of a charge: `billTokens` of internal/policy/billing.go and `tokenCharge` of
-- internal/policy/money.go, with prices that `normalizeModelPrices` accepts.
use cpa_plugin_key_policy.Base.{
  ℕ, ◌+◌, ◌*◌, ◌^◌, ◌≤◌, ◌<◌, ◌≡◌, true, false, is_some, Bool-cases, Option-cases, inl, inr, arith,
}
use cpa_plugin_key_policy.Bucket.{Bucket}
use cpa_plugin_key_policy.Tokens.{UsageDetail, TokenSemantics, split_tokens}
use cpa_plugin_key_policy.Tokens.Sanitizing.{IsSane}
use cpa_plugin_key_policy.Tokens.Splitting.{split_tokens-IsSplit}
use cpa_plugin_key_policy.Money.{Floats, IsIeee, token_charge}
use cpa_plugin_key_policy.Price.{
  ModelPrice, valid_price, valid_multiplier, zero_price, max_price_per_million,
  max_billing_multiplier,
}
use cpa_plugin_key_policy.Price.Rows.{IsPriced}
use cpa_plugin_key_policy.Charging.{read_price, write_price, class_cost, bill_tokens}

-- the most that one class of tokens is charged, in nanodollars
abbrev pub most_per_class : ℕ
most_per_class = 2 ^ 32 * 500000000

module _ (fl : Floats) (ieee : IsIeee fl) where
  -- a float between 0 and a whole number
  record IsWithin (top : ℕ) (x : fl.Float) : Type 0 where
    least : fl.le (fl.of_int 0) x ≡ true
    most : fl.le x (fl.of_int top) ≡ true

  valid_price-IsWithin :
      (price : fl.Float) (most : ℕ) → valid_price fl price most ≡ true → IsWithin most price
  unfolding valid_price zero_price
  valid_price-IsWithin price most h = record { least = ground (arith, h); most = ground (arith, h) }

  valid_multiplier-IsWithin :
      (m : fl.Float) → valid_multiplier fl m ≡ true → IsWithin max_billing_multiplier m
  unfolding valid_multiplier
  valid_multiplier-IsWithin m h =
      let number : fl.is_nan m ≡ false = ground (arith, h) in
      let above : fl.lt m (fl.of_int 1) ≡ false = ground (arith, h) in
      let below : fl.lt (fl.of_int max_billing_multiplier) m ≡ false = ground (arith, h) in
      record {
        least =
            ieee.le_trans _ (fl.of_int 1) _ (ieee.of_int_mono 0 1 (omega arith) (omega arith))
              (ieee.lt_total m (fl.of_int 1) number (ieee.of_int_number 1) above);
        most = ieee.lt_total _ m (ieee.of_int_number max_billing_multiplier) number below;
      }

  of_int-IsWithin :
      (tokens most : ℕ) → tokens ≤ most → most < 2 ^ 63 → IsWithin most (fl.of_int tokens)
  of_int-IsWithin tokens most h small = record {
    least = ieee.of_int_mono 0 tokens (omega arith) (omega arith);
    most = ieee.of_int_mono tokens most h small;
  }

  mul-IsWithin :
      (m b : ℕ) (x y : fl.Float)
      → 0 < m
      → 0 < b
      → m * b < 2 ^ 31
      → IsWithin (2 ^ 32 * m) x
      → IsWithin b y
      → IsWithin (2 ^ 32 * (m * b)) (fl.mul x y)
  mul-IsWithin m b x y pm pb small hx hy =
      let (least, most) =
        ieee.mul_mono x _ y _ hx.least hx.most hy.least hy.most (ieee.of_int_finite (2 ^ 32 * m))
          (ieee.of_int_finite b) in
      record {
        least = least;
        most =
            rw (← ieee.mul_exact 32 m b pm pb (omega (arith, small)) (omega (arith, small))) most;
      }

  -- One class of tokens of a record is charged at most 2^32 * 5 * 10^8.
  class_cost_lem :
      (price : ModelPrice fl) (tokens : ℕ) (class_price : fl.Float)
      → IsPriced fl price
      → tokens ≤ 2 ^ 32
      → valid_price fl class_price max_price_per_million ≡ true
      → class_cost fl price tokens class_price ≤ most_per_class
  unfolding class_cost token_charge
  class_cost_lem price tokens class_price p ht hc =
      let t : IsWithin (2 ^ 32 * 1) (fl.of_int tokens) =
        of_int-IsWithin tokens (2 ^ 32 * 1) ht (omega arith) in
      let t1 =
        mul-IsWithin 1 10000 (fl.of_int tokens) class_price (omega arith) (omega arith)
          (omega arith) t (valid_price-IsWithin class_price max_price_per_million hc) in
      let t2 =
        mul-IsWithin 10000 1000 _ (fl.of_int 1000) (omega arith) (omega arith) (omega arith) t1
          (of_int-IsWithin 1000 1000 (omega arith) (omega arith)) in
      let t3 =
        mul-IsWithin 10000000 50 _ price.billing_multiplier (omega arith) (omega arith)
          (omega arith) t2 (valid_multiplier-IsWithin price.billing_multiplier p.multiplier) in
      ieee.round_most _ 32 500000000 t3.least t3.most (omega arith) (omega arith)

  read_price-valid :
      (price : ModelPrice fl)
      → IsPriced fl price
      → valid_price fl (read_price fl price) max_price_per_million ≡ true
  unfolding read_price
  read_price-valid price p =
      elim (Bool-cases (fl.equal price.cache_read_price_per_million (fl.of_int 0))) [
        | inl t ↦ rw t p.input
        | inr t ↦ rw t p.cache_read
      ]

  write_price-valid :
      (price : ModelPrice fl)
      → IsPriced fl price
      → valid_price fl (write_price fl price) max_price_per_million ≡ true
  unfolding write_price
  write_price-valid price p = elim (Option-cases price.cache_write_price_per_million) [
    | inl t ↦ rw t p.input
    | inr (w, t) ↦ rw t (p.cache_write w t)
  ]

module _ (fl : Floats) where
  -- what the charge of a bucket is made of
  pub record IsSummed (price : ModelPrice fl) (b : Bucket) : Type 0 where
    pub whole :
        b.charged_nano
        ≡ class_cost fl price b.input_tokens price.input_price_per_million
          + b.cache_read_cost_nano
          + b.cache_write_cost_nano
          + class_cost fl price b.output_tokens price.output_price_per_million
    pub most : b.charged_nano ≤ 4 * most_per_class

-- For a price row that the checks accept, a sane record, and floats that round as IEEE 754 says,
-- the charge is the sum of the four class charges as numbers, with no wrap-around, and is at most
-- four times 2^32 * 5 * 10^8, which is below 2^63.
pub bill_tokens-IsSummed :
    (fl : Floats) (price : ModelPrice fl) (semantics : TokenSemantics) (d : UsageDetail)
    → IsIeee fl
    → IsPriced fl price
    → IsSane d
    → IsSummed fl price (bill_tokens fl price semantics d)
unfolding bill_tokens
bill_tokens-IsSummed fl price semantics d ieee p sane =
    let writes_apart = is_some price.cache_write_price_per_million in
    let t = split_tokens semantics d writes_apart in
    let split = split_tokens-IsSplit semantics d writes_apart sane in
    let input =
      class_cost_lem fl ieee price t.input price.input_price_per_million p
        (omega (arith, split.input)) p.input in
    let output =
      class_cost_lem fl ieee price t.output price.output_price_per_million p
        (omega (arith, split.output_most, sane.output, sane.reasoning)) p.output in
    let reads =
      class_cost_lem fl ieee price t.cache_read (read_price fl price) p
        (omega (arith, split.cache_read)) (read_price-valid fl ieee price p) in
    let writes =
      class_cost_lem fl ieee price t.cache_write (write_price fl price) p
        (omega (arith, split.cache_write)) (write_price-valid fl ieee price p) in
    record {
      whole = omega (arith, input, output, reads, writes);
      most = omega (arith, input, output, reads, writes);
    }
