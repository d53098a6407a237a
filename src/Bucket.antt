-- ===== src/Bucket.antt =====
-- `Bucket`: internal/policy/bucket.go. The counters are int64.
use cpa_plugin_key_policy.Base.{Bool, true, false, ◌||◌, if◌then◌else◌}
use cpa_plugin_key_policy.Int64.{Int64, add64, negative}

pub record Bucket : Type 0 where
  pub calls : Int64
  pub unpriced_calls : Int64
  pub input_tokens : Int64
  pub cache_read_tokens : Int64
  pub cache_write_tokens : Int64
  pub output_tokens : Int64
  pub charged_nano : Int64
  pub cache_read_cost_nano : Int64
  pub cache_write_cost_nano : Int64

-- the zero value
abbrev pub empty_bucket : Bucket
empty_bucket = record {
  calls = 0;
  unpriced_calls = 0;
  input_tokens = 0;
  cache_read_tokens = 0;
  cache_write_tokens = 0;
  output_tokens = 0;
  charged_nano = 0;
  cache_read_cost_nano = 0;
  cache_write_cost_nano = 0;
}

-- `Bucket.add`
unfoldable pub add : Bucket → Bucket → Bucket
add b src = record {
  calls = add64 b.calls src.calls;
  unpriced_calls = add64 b.unpriced_calls src.unpriced_calls;
  input_tokens = add64 b.input_tokens src.input_tokens;
  cache_read_tokens = add64 b.cache_read_tokens src.cache_read_tokens;
  cache_write_tokens = add64 b.cache_write_tokens src.cache_write_tokens;
  output_tokens = add64 b.output_tokens src.output_tokens;
  charged_nano = add64 b.charged_nano src.charged_nano;
  cache_read_cost_nano = add64 b.cache_read_cost_nano src.cache_read_cost_nano;
  cache_write_cost_nano = add64 b.cache_write_cost_nano src.cache_write_cost_nano;
}

-- `Bucket.validate`: whether it returns nil
unfoldable pub valid : Bucket → Bool
valid b =
    if negative b.calls
      || negative b.unpriced_calls
      || negative b.input_tokens
      || negative b.cache_read_tokens
      || negative b.cache_write_tokens
      || negative b.output_tokens
      || negative b.charged_nano
      || negative b.cache_read_cost_nano
      || negative b.cache_write_cost_nano
    then false
    else true
