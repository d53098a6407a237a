-- ===== src/Tokens.antt =====
-- Token counts of a usage record: `sanitizeDetail`, `splitTokens`, `tokenSemanticsFor` and
-- `ShapeTokens` of internal/policy/billing.go. The counts are int64.
pub mod Sanitizing
pub mod Splitting
use cpa_plugin_key_policy.Base.{
  ℕ, ◌^◌, Bool, true, false, not, ◌&&◌, ◌||◌, List, [], ◌∷◌, String, any, ◌==◌, nat_eq, string_eq,
  if◌then◌else◌,
}
use Prim.Native.Char.{Char}
use cpa_plugin_key_policy.Text.{trim_space, to_lower, append, has_prefix, contains}
use cpa_plugin_key_policy.Int64.{Int64, add64, sub64, lt64, le64, negative}

-- `UsageDetail`
pub record UsageDetail : Type 0 where
  pub input_tokens : Int64
  pub output_tokens : Int64
  pub reasoning_tokens : Int64
  pub cached_tokens : Int64
  pub cache_read_tokens : Int64
  pub cache_creation_tokens : Int64
  pub total_tokens : Int64

-- `maxTokensPerRecord` (internal/policy/price.go)
abbrev pub max_tokens_per_record : Int64
max_tokens_per_record = 2 ^ 31

-- a field of the first loop of `sanitizeDetail`: its value, whether it was clamped, whether it is
-- invalid
pub record Field : Type 0 where
  pub value : Int64
  pub clamped : Bool
  pub invalid : Bool

unfoldable pub billed_field : Int64 → Field
billed_field v =
    if negative v
    then record { value = 0; clamped = true; invalid = false }
    else if lt64 max_tokens_per_record v
    then record { value = v; clamped = false; invalid = true }
    else record { value = v; clamped = false; invalid = false }

-- a field of its second loop
unfoldable pub unbilled_field : Int64 → Field
unbilled_field v =
    if negative v || lt64 max_tokens_per_record v
    then record { value = 0; clamped = true; invalid = false }
    else record { value = v; clamped = false; invalid = false }

-- the results of `sanitizeDetail`
pub record Sanitized : Type 0 where
  pub detail : UsageDetail
  pub clamped : Bool
  pub invalid : Bool

-- `sanitizeDetail`
unfoldable pub sanitize_detail : UsageDetail → Sanitized
sanitize_detail d =
    let input = billed_field d.input_tokens in
    let output = billed_field d.output_tokens in
    let reasoning = billed_field d.reasoning_tokens in
    let reads = billed_field d.cache_read_tokens in
    let creation = billed_field d.cache_creation_tokens in
    let total = unbilled_field d.total_tokens in
    let cached = unbilled_field d.cached_tokens in
    record {
      detail = record {
        input_tokens = input.value;
        output_tokens = output.value;
        reasoning_tokens = reasoning.value;
        cached_tokens = cached.value;
        cache_read_tokens = reads.value;
        cache_creation_tokens = creation.value;
        total_tokens = total.value;
      };
      clamped =
          input.clamped || output.clamped || reasoning.clamped || reads.clamped || creation.clamped
          || total.clamped || cached.clamped;
      invalid =
          input.invalid || output.invalid || reasoning.invalid || reads.invalid || creation.invalid;
    }

-- `tokenSemantics`
pub data TokenSemantics : Type 0 where
  subset independent separate_reasoning : TokenSemantics

-- `tokenSplit`
pub record TokenSplit : Type 0 where
  pub input : Int64
  pub cache_read : Int64
  pub cache_write : Int64
  pub output : Int64

unfoldable pub min64 : Int64 → Int64 → Int64
min64 a b = if lt64 b a then b else a

-- what the default case of `splitTokens` adds to the output
unfoldable pub extra_output : TokenSemantics → UsageDetail → Int64
extra_output separate_reasoning d = d.reasoning_tokens
extra_output _ d =
    if lt64 0 d.reasoning_tokens
      && sub64 (sub64 d.total_tokens d.input_tokens) d.output_tokens == d.reasoning_tokens
    then d.reasoning_tokens
    else 0

-- the default case of `splitTokens`: cache reads are inside the input
unfoldable pub split_inside : TokenSemantics → UsageDetail → Bool → TokenSplit
unfolding min64 extra_output
split_inside semantics d writes_apart =
    let cache_read = min64 d.cache_read_tokens d.input_tokens in
    let input = sub64 d.input_tokens cache_read in
    let cache_write = if writes_apart then min64 d.cache_creation_tokens input else 0 in
    record {
      input = sub64 input cache_write;
      cache_read = cache_read;
      cache_write = cache_write;
      output = add64 d.output_tokens (extra_output semantics d);
    }

-- `splitTokens`
unfoldable pub split_tokens : TokenSemantics → UsageDetail → Bool → TokenSplit
unfolding split_inside
split_tokens independent d writes_apart = record {
  input = if writes_apart then d.input_tokens else add64 d.input_tokens d.cache_creation_tokens;
  cache_read = d.cache_read_tokens;
  cache_write = if writes_apart then d.cache_creation_tokens else 0;
  output = d.output_tokens;
}
split_tokens subset d writes_apart = split_inside subset d writes_apart
split_tokens separate_reasoning d writes_apart = split_inside separate_reasoning d writes_apart

-- `strings.Contains` of any of the markers
unfoldable pub contains_any : List String → String → Bool
contains_any markers value = any (λ marker. contains marker value) markers

-- `tokenSemanticsFor`; `lower` is unicode.ToLower
unfoldable pub token_semantics_for : (Char → Char) → String → String → TokenSemantics
unfolding contains_any
token_semantics_for lower raw_provider raw_executor =
    let provider = to_lower lower (trim_space raw_provider) in
    let executor_type = to_lower lower (trim_space raw_executor) in
    let value = trim_space (append provider (append " " executor_type)) in
    if executor_type == "openaicompatexecutor"
      || provider == "openai-compatibility"
      || has_prefix "openai-compatible-" provider
    then subset
    else if contains "claude" value || contains "anthropic" value
    then independent
    else if contains_any ("gemini" ∷ "aistudio" ∷ "antigravity" ∷ "vertex" ∷ "interaction" ∷ [])
        value
    then separate_reasoning
    else subset

-- the results of `ShapeTokens`
pub record Shape : Type 0 where
  pub prompt : Int64
  pub cached : Int64
  pub generated : Int64
  pub reasoning : Int64

-- `ShapeTokens`
unfoldable pub shape_tokens : (Char → Char) → String → String → UsageDetail → Shape
shape_tokens lower provider executor_type d =
    let s = sanitize_detail d in
    if s.invalid
    then record { prompt = 0; cached = 0; generated = 0; reasoning = 0 }
    else (let split =
          split_tokens (token_semantics_for lower provider executor_type) s.detail true in
        record {
          prompt = add64 (add64 split.input split.cache_read) split.cache_write;
          cached = split.cache_read;
          generated = split.output;
          reasoning = s.detail.reasoning_tokens;
        })
