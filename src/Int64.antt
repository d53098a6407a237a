-- ===== src/Int64.antt =====
-- Go's int64, and `type Nano int64` of internal/policy/money.go, as 64-bit patterns: a number below
-- 2^64 that stands for itself below 2^63 and for itself less 2^64 from there on.
use cpa_plugin_key_policy.Base.{ℕ, ◌+◌, ◌-◌, ◌%◌, ◌^◌, ◌<◌, ◌≡◌, Bool, arith, leb, ltb}

abbrev pub Int64 : Type 0
Int64 = ℕ

abbrev pub modulus : ℕ
modulus = 2 ^ 64

abbrev pub half : ℕ
half = 2 ^ 63

-- a pattern of 64 bits
abbrev pub IsInt64 : Int64 → Type 0
IsInt64 a = a < modulus

-- a value of 0 or more
abbrev pub IsNonneg : Int64 → Type 0
IsNonneg a = a < half

-- `a + b`, which wraps
abbrev pub add64 : Int64 → Int64 → Int64
add64 a b = (a + b) % modulus

-- `a - b`, which wraps
abbrev pub sub64 : Int64 → Int64 → Int64
sub64 a b = (a + (modulus - b)) % modulus

-- the pattern moved so that the order of the values is that of numbers
abbrev pub biased : Int64 → ℕ
biased a = (a + half) % modulus

abbrev pub lt64 : Int64 → Int64 → Bool
lt64 a b = ltb (biased a) (biased b)

abbrev pub le64 : Int64 → Int64 → Bool
le64 a b = leb (biased a) (biased b)

abbrev pub negative : Int64 → Bool
negative a = leb half a

pub add64_comm : (a b : Int64) → add64 a b ≡ add64 b a
add64_comm a b = omega arith

pub add64_assoc : (a b c : Int64) → add64 (add64 a b) c ≡ add64 a (add64 b c)
add64_assoc a b c = omega arith

pub add64-sub64 : (a b : Int64) → IsInt64 a → IsInt64 b → add64 (sub64 a b) b ≡ a
add64-sub64 a b ha hb = omega arith
