-- ===== src/Tokens/Splitting.antt =====
-- The token classes of `splitTokens` (internal/policy/billing.go) are disjoint and lose nothing.
use cpa_plugin_key_policy.Base.{ℕ, ◌+◌, ◌*◌, ◌≤◌, ◌≡◌, Bool, true, false, arith}
use cpa_plugin_key_policy.Int64.{Int64, sub64}
use cpa_plugin_key_policy.Tokens.{
  UsageDetail, TokenSemantics, subset, independent, separate_reasoning, TokenSplit, min64,
  extra_output, split_inside, split_tokens, max_tokens_per_record,
}
use cpa_plugin_key_policy.Tokens.Sanitizing.{IsSane}

-- the tokens of the prompt as a provider reports them
abbrev pub prompt_tokens : TokenSemantics → UsageDetail → ℕ
prompt_tokens independent d = d.input_tokens + d.cache_read_tokens + d.cache_creation_tokens
prompt_tokens _ d = d.input_tokens

min64_lem :
    (a b : Int64)
    → a ≤ max_tokens_per_record
    → b ≤ max_tokens_per_record
    → (min64 a b ≤ a) × (min64 a b ≤ b)
unfolding min64
min64_lem a b ha hb = ground arith

extra_output-le : (s : TokenSemantics) (d : UsageDetail) → extra_output s d ≤ d.reasoning_tokens
unfolding extra_output
extra_output-le subset d = ground arith
extra_output-le independent d = ground arith
extra_output-le separate_reasoning d = ground arith

-- What every split of a sane record satisfies.
pub record IsSplit (prompt : ℕ) (d : UsageDetail) (t : TokenSplit) : Type 0 where
  pub whole : t.input + t.cache_read + t.cache_write ≡ prompt
  pub input : t.input ≤ 2 * max_tokens_per_record
  pub cache_read : t.cache_read ≤ max_tokens_per_record
  pub cache_write : t.cache_write ≤ max_tokens_per_record
  pub output : d.output_tokens ≤ t.output
  pub output_most : t.output ≤ d.output_tokens + d.reasoning_tokens

split_inside_lem :
    (s : TokenSemantics) (d : UsageDetail) (writes_apart : Bool)
    → IsSane d
    → IsSplit d.input_tokens d (split_inside s d writes_apart)
unfolding split_inside
split_inside_lem s d true h =
    let (r1, r2) = min64_lem d.cache_read_tokens d.input_tokens h.reads h.input in
    let rest = sub64 d.input_tokens (min64 d.cache_read_tokens d.input_tokens) in
    let e : rest + min64 d.cache_read_tokens d.input_tokens ≡ d.input_tokens =
      omega (arith, h.input) in
    let (w1, w2) = min64_lem d.cache_creation_tokens rest h.creation (omega (arith, h.input)) in
    let x = extra_output-le s d in
    record {
      whole = omega (arith, h.input);
      input = omega (arith, h.input);
      cache_read = omega (arith, h.input);
      cache_write = omega (arith, h.creation);
      output = omega (arith, h.output, h.reasoning);
      output_most = omega (arith, h.output, h.reasoning);
    }
split_inside_lem s d false h =
    let (r1, r2) = min64_lem d.cache_read_tokens d.input_tokens h.reads h.input in
    let x = extra_output-le s d in
    record {
      whole = omega (arith, h.input);
      input = omega (arith, h.input);
      cache_read = omega (arith, h.input);
      cache_write = omega arith;
      output = omega (arith, h.output, h.reasoning);
      output_most = omega (arith, h.output, h.reasoning);
    }

-- Of a sane record the input, cache read and cache write classes add up to the whole prompt with no
-- wrap-around, whether writes are a class of their own or not; the input is at most twice the
-- ceiling of a record and the cache classes at most the ceiling; and the output holds the reported
-- output and at most the reasoning more.
pub split_tokens-IsSplit :
    (s : TokenSemantics) (d : UsageDetail) (writes_apart : Bool)
    → IsSane d
    → IsSplit (prompt_tokens s d) d (split_tokens s d writes_apart)
unfolding split_tokens
split_tokens-IsSplit subset d w h = split_inside_lem subset d w h
split_tokens-IsSplit separate_reasoning d w h = split_inside_lem separate_reasoning d w h
split_tokens-IsSplit independent d true h = record {
  whole = omega arith;
  input = omega (arith, h.input);
  cache_read = h.reads;
  cache_write = h.creation;
  output = omega arith;
  output_most = omega arith;
}
split_tokens-IsSplit independent d false h = record {
  whole = omega (arith, h.input, h.creation);
  input = omega (arith, h.input, h.creation);
  cache_read = h.reads;
  cache_write = omega arith;
  output = omega arith;
  output_most = omega arith;
}
