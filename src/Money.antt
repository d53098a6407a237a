-- ===== src/Money.antt =====
-- Dollars and nanodollars: internal/policy/money.go. A float64 is not modelled bit by bit: its
-- operations are a parameter, with what IEEE 754 says of them as hypotheses where it is used.
use cpa_plugin_key_policy.Base.{ℕ, ◌≤◌, ◌<◌, ◌*◌, ◌^◌, ◌≡◌, Bool, true, false, ◌||◌, if◌then◌else◌}
use cpa_plugin_key_policy.Int64.{Int64}

-- float64: conversion from int64, products, quotients, order, the tests of package math, and
-- `int64(math.Round(x))`
pub record Floats : Type 1 where
  pub Float : Type 0
  pub of_int : Int64 → Float
  pub mul : Float → Float → Float
  pub div : Float → Float → Float
  pub lt : Float → Float → Bool
  pub le : Float → Float → Bool
  pub equal : Float → Float → Bool
  pub is_nan : Float → Bool
  pub is_inf : Float → Bool
  pub round : Float → Int64

-- `nanoPerUSD`
abbrev pub nano_per_usd : ℕ
nano_per_usd = 1000000000

module _ (fl : Floats) where
  -- `USDToNano`
  unfoldable pub usd_to_nano : fl.Float → Int64
  usd_to_nano usd =
      if fl.is_nan usd || fl.is_inf usd then 0 else fl.round (fl.mul usd (fl.of_int nano_per_usd))

  -- `Nano.USD`
  unfoldable pub usd : Int64 → fl.Float
  usd n = fl.div (fl.of_int n) (fl.of_int nano_per_usd)

  -- `tokenCharge`
  unfoldable pub token_charge : fl.Float → fl.Float → Int64
  token_charge tokens_times_price multiplier =
      fl.round (fl.mul (fl.mul tokens_times_price (fl.of_int 1000)) multiplier)

-- The rounding of IEEE 754 is monotone, and exact where the result is a float64: for products of
-- finite nonnegative floats, and for whole numbers of at most 53 significant bits. Floats that are
-- numbers are ordered.
pub record IsIeee (fl : Floats) : Type 0 where
  pub of_int_mono : (a b : ℕ) → a ≤ b → b < 2 ^ 63 → fl.le (fl.of_int a) (fl.of_int b) ≡ true
  pub le_trans : (x y z : fl.Float) → fl.le x y ≡ true → fl.le y z ≡ true → fl.le x z ≡ true
  pub of_int_number : (a : ℕ) → fl.is_nan (fl.of_int a) ≡ false
  pub of_int_finite : (a : ℕ) → fl.is_inf (fl.of_int a) ≡ false
  pub lt_total :
      (x y : fl.Float)
      → fl.is_nan x ≡ false
      → fl.is_nan y ≡ false
      → fl.lt x y ≡ false
      → fl.le y x ≡ true
  pub mul_mono :
      (x y u v : fl.Float)
      → fl.le (fl.of_int 0) x ≡ true
      → fl.le x y ≡ true
      → fl.le (fl.of_int 0) u ≡ true
      → fl.le u v ≡ true
      → fl.is_inf y ≡ false
      → fl.is_inf v ≡ false
      → (fl.le (fl.of_int 0) (fl.mul x u) ≡ true) × (fl.le (fl.mul x u) (fl.mul y v) ≡ true)
  pub mul_exact :
      (k m b : ℕ)
      → 0 < m
      → 0 < b
      → m * b < 2 ^ 53
      → 2 ^ k * (m * b) < 2 ^ 63
      → fl.mul (fl.of_int (2 ^ k * m)) (fl.of_int b) ≡ fl.of_int (2 ^ k * (m * b))
  pub round_most :
      (x : fl.Float) (k m : ℕ)
      → fl.le (fl.of_int 0) x ≡ true
      → fl.le x (fl.of_int (2 ^ k * m)) ≡ true
      → m < 2 ^ 53
      → 2 ^ k * m < 2 ^ 63
      → fl.round x ≤ 2 ^ k * m
