-- ===== src/Cycle/Usage.antt =====
-- What a period has used is the sum of what its models were charged, whatever the order.
use cpa_plugin_key_policy.Base.{
  ℕ, ◌+◌, ◌%◌, ◌≡◌, [], ◌∷◌, String, string_eq, arith, get_or, inl, inr, Option-cases,
}
use cpa_plugin_key_policy.Dict.{Dict, get, put, sum, sum-put, sum-put_new}
use cpa_plugin_key_policy.Int64.{Int64, IsInt64, modulus, add64}
use cpa_plugin_key_policy.Bucket.{Bucket, empty_bucket, add}
use cpa_plugin_key_policy.Cycle.{Cycle, used, used_from}

abbrev pub charged : Bucket → ℕ
charged b = b.charged_nano

used_from-sum :
    (u : Int64) (m : Dict String Bucket) → IsInt64 u → used_from u m ≡ (u + sum charged m) % modulus
unfolding used_from sum
used_from-sum u [] h = omega arith
used_from-sum u ((_, b) ∷ m) h =
    omega (arith, used_from-sum (add64 u b.charged_nano) m (omega arith))

pub used-sum : (c : Cycle) → used c ≡ sum charged c.by_model % modulus
unfolding used
used-sum c = omega (arith, used_from-sum 0 c.by_model (omega arith))

-- Adding a record to a model's bucket raises the sum of the charges by the record's charge.
pub sum-add :
    (model : String) (delta : Bucket) (m : Dict String Bucket)
    → sum charged (put model (add (get_or (get model m) empty_bucket) delta) m) % modulus
      ≡ (sum charged m + delta.charged_nano) % modulus
sum-add model delta m = elim (Option-cases (get model m)) [
  | inl e ↦
      rw e (unfold add in omega (arith, sum-put_new charged model (add empty_bucket delta) m e))
  | inr (b, e) ↦ rw e (unfold add in omega (arith, sum-put charged model (add b delta) b m e))
]
