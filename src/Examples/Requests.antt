-- ===== src/Examples/Requests.antt =====
-- The theorems on billing and admission at concrete values.
use cpa_plugin_key_policy.Base.{
  ◌∷◌, ◌+◌, arith, ◌≡◌, ◌≢◌, ◌↔◌, refl, true, false, none, some, [], string_eq, nat_eq, ◌==◌,
  if◌then◌else◌,
}
use cpa_plugin_key_policy.Dict.{get}
use cpa_plugin_key_policy.Cycle.{Window}
use cpa_plugin_key_policy.Ledger.{evict_expired, record_call}
use cpa_plugin_key_policy.Ledger.Periods.{current_cycles}
use cpa_plugin_key_policy.Limiter.{allow}
use cpa_plugin_key_policy.Ledger.Adjust.{balance_allows}
use cpa_plugin_key_policy.Text.{
  has_suffix, trim_space, fields, to_lower, append, trim_slashes, has_prefix, strip_prefix,
  to_upper, contains,
}
use cpa_plugin_key_policy.MediaTrace.{take, trim, trim_from}
use cpa_plugin_key_policy.Store.{
  balance_mode, KeyConfig, Store, find_by_secret, find_by_id, find_by_secret_when_enabled, hash_key,
}
use cpa_plugin_key_policy.Billing.{
  recorded, one_call, unmetered_per_call, key_of, book, record_per_call, record_usage, UsageEvent,
}
use cpa_plugin_key_policy.Billing.Recording.{Outcome, record_usage-Outcome, record_usage-free}
use cpa_plugin_key_policy.Billing.Once.{record_per_call-once}
use cpa_plugin_key_policy.Quota.{
  quota_limits_for_key, QuotaLimits, any_limit, is_exceeded, quota_denial,
}
use cpa_plugin_key_policy.Quota.Denials.{quota_denial-none}
use cpa_plugin_key_policy.Routes.{
  is_media_result_path, Request, header_key, is_media_generation_path, extract_api_key,
  is_models_endpoint, admission_stage_for,
}
use cpa_plugin_key_policy.Admission.{
  authenticate, authenticate_key, admit, remember_generation, admit_intercepted,
  admit_intercepted_key, at_stage, opens_websocket, refused,
}
use cpa_plugin_key_policy.Admission.Generations.{record_per_call-admit_intercepted}
use cpa_plugin_key_policy.Admission.Refusals.{Grant, authenticate-Grant}
use cpa_plugin_key_policy.Examples.{whole, lib, noon, ledger, gpt_row, client, store, event}

record_usage-Outcome_example :
    let r = record_usage whole lib event noon store in
    Outcome whole lib event client noon store r.0 r.1
unfolding key_of find_by_id trim_space get
record_usage-Outcome_example = record_usage-Outcome whole lib event client noon store refl refl refl

abbrev failed_event : UsageEvent
failed_event = record event { failed = true }

record_usage-free_example :
    let r = record_usage whole lib failed_event noon store in
    (r.1 ≢ recorded)
    × (r.0.usage ≡ ledger)
    × (r.0.handoff ≡ some [])
    × (r.0.media_traces ≡ store.media_traces)
record_usage-free_example = record_usage-free whole lib failed_event noon store refl

record_per_call-once_example :
    let first = (record_per_call whole event "gpt" client gpt_row true noon store).0 in
    let second = record_per_call whole event "gpt" client gpt_row true noon first in
    (second.1 ≡ unmetered_per_call)
    × (second.0.usage ≡ first.usage)
    × (second.0.handoff ≡ first.handoff)
unfolding record_per_call book take trim trim_from get
record_per_call-once_example =
    record_per_call-once whole event event "gpt" "gpt" client client gpt_row gpt_row true true noon
      noon store refl refl

abbrev limits : QuotaLimits whole
limits = record { daily_usd = 2; weekly_usd = 0; monthly_usd = 0; balance = false }

quota_denial-none_example :
    let cycles = (current_cycles "key" noon (evict_expired noon ledger).0).1 in
    (quota_denial whole "key" limits noon ledger).1 ≡ none
    ↔ ((window : Window) → is_exceeded whole limits window cycles ≡ false)
unfolding any_limit
quota_denial-none_example = quota_denial-none whole "key" limits noon ledger refl refl

abbrev list_models : Request
list_models = record {
  method = "GET";
  path = "/v1/models";
  header_value = λ name. if name == "api-key" then "secret" else "";
  query = none;
}

-- a prepaid key, and a generation that it asks for
abbrev prepaid_client : KeyConfig whole
prepaid_client = record client { quota_mode = "balance" }

abbrev prepaid_store : Store whole
prepaid_store = record store { keys_by_hash = ("sha256:secret", prepaid_client) ∷ [] }

abbrev generation : Request
generation = record list_models { method = "POST"; path = "/v1/videos" }

abbrev generated : UsageEvent
generated = record event { trace_id = "new" }

record_per_call-admit_intercepted_example :
    let s' = (admit_intercepted whole lib generation "new" noon prepaid_store).0 in
    let r = record_per_call whole generated "gpt" prepaid_client gpt_row true (noon + 1) s' in
    (r.1 ≡ recorded)
    × (r.0.usage ≡ record_call "key" "gpt" (one_call whole gpt_row) true (noon + 1) s'.usage)
unfolding find_by_secret header_key trim_space fields hash_key get to_lower append trim_slashes
    has_suffix is_media_generation_path trim trim_from admit_intercepted admit_intercepted_key
    remember_generation admit allow is_media_result_path quota_denial quota_limits_for_key
    balance_mode balance_allows
record_per_call-admit_intercepted_example =
    record_per_call-admit_intercepted whole lib generation "new" noon (noon + 1) prepaid_store
      prepaid_client prepaid_client generated "gpt" gpt_row true refl refl refl refl refl refl
      (omega arith) refl refl

-- a call that authentication admits itself
abbrev embedding : Request
embedding = record list_models { method = "POST"; path = "/v1/embeddings" }

authenticate-Grant_example :
    let r = authenticate whole lib embedding noon prepaid_store in
    Grant whole lib embedding noon prepaid_store r.0 r.1
unfolding authenticate find_by_secret_when_enabled trim_space extract_api_key fields hash_key
    authenticate_key get to_lower append is_models_endpoint trim_slashes has_suffix has_prefix
    strip_prefix header_key at_stage admission_stage_for to_upper admit allow is_media_result_path
    quota_denial quota_limits_for_key balance_mode balance_allows is_media_generation_path
    opens_websocket refused contains
authenticate-Grant_example = authenticate-Grant whole lib embedding noon prepaid_store refl
