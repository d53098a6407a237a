-- ===== src/Tokens/Sanitizing.antt =====
-- What `sanitizeDetail` of internal/policy/billing.go lets through.
use cpa_plugin_key_policy.Base.{◌≤◌, ◌≡◌, false, arith}
use cpa_plugin_key_policy.Int64.{Int64}
use cpa_plugin_key_policy.Tokens.{
  UsageDetail, max_tokens_per_record, billed_field, unbilled_field, sanitize_detail,
}

-- Every count is between 0 and the ceiling of a record.
pub record IsSane (d : UsageDetail) : Type 0 where
  pub input : d.input_tokens ≤ max_tokens_per_record
  pub output : d.output_tokens ≤ max_tokens_per_record
  pub reasoning : d.reasoning_tokens ≤ max_tokens_per_record
  pub cached : d.cached_tokens ≤ max_tokens_per_record
  pub reads : d.cache_read_tokens ≤ max_tokens_per_record
  pub creation : d.cache_creation_tokens ≤ max_tokens_per_record
  pub total : d.total_tokens ≤ max_tokens_per_record

billed_field_lem :
    (v : Int64) → (billed_field v).invalid ≡ false → (billed_field v).value ≤ max_tokens_per_record
unfolding billed_field
billed_field_lem v h = ground arith

unbilled_field_lem : (v : Int64) → (unbilled_field v).value ≤ max_tokens_per_record
unfolding unbilled_field
unbilled_field_lem v = ground arith

-- A record that sanitizing does not reject has every count between 0 and the ceiling.
pub sanitize_detail-IsSane :
    (d : UsageDetail) → (sanitize_detail d).invalid ≡ false → IsSane (sanitize_detail d).detail
unfolding sanitize_detail
sanitize_detail-IsSane d h = record {
  input = billed_field_lem d.input_tokens (ground arith);
  output = billed_field_lem d.output_tokens (ground arith);
  reasoning = billed_field_lem d.reasoning_tokens (ground arith);
  cached = unbilled_field_lem d.cached_tokens;
  reads = billed_field_lem d.cache_read_tokens (ground arith);
  creation = billed_field_lem d.cache_creation_tokens (ground arith);
  total = unbilled_field_lem d.total_tokens;
}

billed_field_sane :
    (v : Int64)
    → v ≤ max_tokens_per_record
    → billed_field v ≡ record { value = v; clamped = false; invalid = false }
unfolding billed_field
billed_field_sane v h = ground arith

unbilled_field_sane :
    (v : Int64)
    → v ≤ max_tokens_per_record
    → unbilled_field v ≡ record { value = v; clamped = false; invalid = false }
unfolding unbilled_field
unbilled_field_sane v h = ground arith

-- Sane counts pass sanitizing unchanged, and are neither counted as clamped nor rejected.
pub sanitize_detail_sane :
    (d : UsageDetail)
    → IsSane d
    → sanitize_detail d ≡ record { detail = d; clamped = false; invalid = false }
unfolding sanitize_detail
sanitize_detail_sane d s = rw (
  billed_field_sane d.input_tokens s.input,
  billed_field_sane d.output_tokens s.output,
  billed_field_sane d.reasoning_tokens s.reasoning,
  billed_field_sane d.cache_read_tokens s.reads,
  billed_field_sane d.cache_creation_tokens s.creation,
  unbilled_field_sane d.total_tokens s.total,
  unbilled_field_sane d.cached_tokens s.cached,
)
