-- ===== src/Admission.antt =====
-- Admission of requests: `Authenticate`, `AdmitIntercepted` and `admit` of internal/policy/auth.go.
pub mod Refusals
pub mod Generations
use cpa_plugin_key_policy.Base.{
  ℕ, Bool, true, false, not, ◌&&◌, ◌||◌, Option, none, some, List, [], ◌∷◌, String, string_eq, ◌==◌,
  if◌then◌else◌, any, is_some,
}
use cpa_plugin_key_policy.Text.{trim_space, to_lower}
use cpa_plugin_key_policy.Calendar.{Time}
use cpa_plugin_key_policy.Money.{Floats}
use cpa_plugin_key_policy.Limiter.{allow}
use cpa_plugin_key_policy.MediaTrace.{remember}
use cpa_plugin_key_policy.Store.{
  Library, KeyConfig, Store, HandoffEntry, trace_entry, find_by_secret, find_by_secret_when_enabled,
  journal,
}
use cpa_plugin_key_policy.Quota.{Denial, Reason, rpm_exceeded, quota_limits_for_key, quota_denial}
use cpa_plugin_key_policy.Routes.{
  Request, AdmissionStage, admit_at_auth, admit_quota_at_auth, admit_at_interceptor, clean,
  is_models_endpoint, is_media_generation_path, is_media_result_path, websocket_response_paths,
  header_key, extract_api_key, admission_stage_for,
}

-- `AuthDecision.Reason`, for a decision that no `Denial` explains
pub data Verdict : Type 0 where
  plugin_disabled unknown_key key_disabled models_endpoint media_generation_requires_header_key
        websocket_requires_header_key denied allowed :
      Verdict

module _ (fl : Floats) where
  -- `AuthDecision`, without the fields that repeat the key's id
  pub record AuthDecision : Type 0 where
    pub known : Bool
    pub allows : Bool
    pub key_id : String
    pub verdict : Verdict
    pub model_list : Bool
    pub denial : Option (Denial fl)
    pub deferred : Bool

  -- the quota part of `admit`
  unfoldable pub admit_quota :
      KeyConfig fl → String → Time → Store fl → Store fl × Option (Denial fl)
  admit_quota key path now s =
      let (usage, denial) = quota_denial fl key.id (quota_limits_for_key fl key) now s.usage in
      if is_media_result_path path then (s, none) else (record s { usage = usage }, denial)

  -- `admit`
  unfoldable pub admit :
      KeyConfig fl → String → Bool → Time → Store fl → Store fl × Option (Denial fl)
  unfolding admit_quota
  admit key path count_rpm now s =
      let (limiter, answer) = allow key.id key.rpm now s.limiter in
      let counted : Store fl = record s { limiter = limiter } in
      if not count_rpm
      then admit_quota key path now s
      else if not answer.allowed
      then (
        counted,
        some (record {
          reason = rpm_exceeded;
          limit = fl.of_int key.rpm;
          retry_at = answer.retry_at;
          timezone = "";
        }),
      )
      else admit_quota key path now counted

  -- what the cases of `Authenticate` that admit a request answer
  decided : AuthDecision → Store fl → Option (Denial fl) → Store fl × AuthDecision
  decided decision s none = (s, record decision { allows = true; verdict = allowed })
  decided decision s (some denial) = (s, record decision { denial = some denial; verdict = denied })

  -- a GET of a websocket route
  unfoldable pub opens_websocket : Library → Request → Bool
  opens_websocket lib request =
      to_lower lib.lower (trim_space request.method) == "get"
      && any (λ p. p == clean request.path) websocket_response_paths

  -- the switch of `Authenticate`
  unfoldable pub at_stage :
      Library
      → Request
      → Time
      → KeyConfig fl
      → AuthDecision
      → Store fl
      → AdmissionStage
      → Store fl × AuthDecision
  unfolding decided
  at_stage lib request now key decision s admit_at_interceptor =
      (s, record decision { deferred = true; allows = true; verdict = allowed })
  at_stage lib request now key decision s admit_quota_at_auth =
      let (s', denial) = admit key request.path false now s in decided decision s' denial
  at_stage lib request now key decision s admit_at_auth =
      let (s', denial) = admit key request.path true now s in
      if is_media_generation_path request.path && header_key lib request == ""
      then (s, record decision { verdict = media_generation_requires_header_key })
      else if opens_websocket lib request && header_key lib request == ""
      then (s, record decision { verdict = websocket_requires_header_key })
      else decided decision s' denial

  -- `AuthDecision{Reason: …}`
  unfoldable pub refused : Verdict → AuthDecision
  refused verdict = record {
    known = false;
    allows = false;
    key_id = "";
    verdict = verdict;
    model_list = false;
    denial = none;
    deferred = false;
  }

  unfoldable pub authenticate_key :
      Library → Request → Time → Store fl → Option (KeyConfig fl) → Store fl × AuthDecision
  unfolding refused
  authenticate_key lib request now s none = (s, refused unknown_key)
  authenticate_key lib request now s (some key) =
      let model_list = is_models_endpoint request.path in
      let decision = record (refused allowed) {
        known = true;
        key_id = key.id;
        model_list = model_list;
      } in
      if not key.enabled
      then (s, record decision { verdict = key_disabled })
      else if model_list
      then (s, record decision { allows = true; verdict = models_endpoint })
      else at_stage lib request now key decision s (admission_stage_for lib request)

  -- `Authenticate`
  unfoldable pub authenticate : Library → Request → Time → Store fl → Store fl × AuthDecision
  authenticate lib request now s =
      let (key, enabled) = find_by_secret_when_enabled lib (extract_api_key lib request) s in
      if not enabled then (s, refused plugin_disabled) else authenticate_key lib request now s key

  -- the end of `AdmitIntercepted`
  unfoldable pub remember_generation :
      String → String → Time → Store fl → Option (Denial fl) → Store fl × Option (Denial fl)
  remember_generation path trace_id now s (some denial) = (s, some denial)
  remember_generation path trace_id now s none =
      if not (trace_id == "") && is_media_generation_path path
      then (
        journal (trace_entry trace_id now)
            (record s { media_traces = remember trace_id now s.media_traces }),
        none,
      )
      else (s, none)

  unfoldable pub admit_intercepted_key :
      String → String → Time → Store fl → Option (KeyConfig fl) → Store fl × Option (Denial fl)
  unfolding remember_generation
  admit_intercepted_key path trace_id now s none = (s, none)
  admit_intercepted_key path trace_id now s (some key) =
      let (s', denial) = admit key path true now s in
      if not key.enabled then (s, none) else remember_generation path trace_id now s' denial

  -- `AdmitIntercepted`; `request.path` is its path
  unfoldable pub admit_intercepted :
      Library → Request → String → Time → Store fl → Store fl × Option (Denial fl)
  admit_intercepted lib request trace_id now s =
      if not s.enabled
      then (s, none)
      else admit_intercepted_key request.path trace_id now s
          (find_by_secret lib (header_key lib request) s)
