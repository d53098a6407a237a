-- ===== src/Admission/Refusals.antt =====
-- Whom `Authenticate` of internal/policy/auth.go lets through.
use cpa_plugin_key_policy.Base.{
  ◌≡◌, ◌≢◌, ◌⊎◌, inl, inr, refl, ap, Bool, true, false, not, ◌&&◌, Option, none, some, string_eq,
  ◌==◌, Bool-cases, if-false, if-true, arith,
}
use cpa_plugin_key_policy.Calendar.{Time}
use cpa_plugin_key_policy.Money.{Floats}
use cpa_plugin_key_policy.Store.{Library, KeyConfig, Store, find_by_secret_when_enabled}
use cpa_plugin_key_policy.Quota.{Denial, quota_limits_for_key, quota_denial}
use cpa_plugin_key_policy.Limiter.{allow}
use cpa_plugin_key_policy.Routes.{
  Request, AdmissionStage, admit_at_auth, admit_quota_at_auth, admit_at_interceptor,
  is_models_endpoint, is_media_generation_path, is_media_result_path, header_key, extract_api_key,
  admission_stage_for,
}
use cpa_plugin_key_policy.Admission.{
  AuthDecision, admit, admit_quota, decided, opens_websocket, at_stage, refused, authenticate_key,
  authenticate, allowed,
}

module _ (fl : Floats) (lib : Library) (request : Request) (now : Time) (s : Store fl) where
  -- the quota of a key denies nothing, or is not asked for, since the request fetches a result
  abbrev pub Within : KeyConfig fl → Type 0
  Within key =
      (is_media_result_path request.path ≡ true)
      ⊎ ((quota_denial fl key.id (quota_limits_for_key fl key) now s.usage).1 ≡ none)

  -- A request that is admitted at authentication: its key has a rate left and a quota, and stands in
  -- a header where the request asks for a generation or opens a socket.
  pub record Admitted (key : KeyConfig fl) : Type 0 where
    pub rated : (allow key.id key.rpm now s.limiter).1.allowed ≡ true
    pub within : Within key
    pub generates : is_media_generation_path request.path ≡ true → header_key lib request ≢ ""
    pub connects : opens_websocket fl lib request ≡ true → header_key lib request ≢ ""

  -- the ways to be let through: a model list, which every enabled key reads; a request whose
  -- admission the interceptor makes; one whose rate is counted there and whose quota is checked here;
  -- and one that is admitted here
  pub data Passage (key : KeyConfig fl) (s' : Store fl) : Type 0 where
    listed : is_models_endpoint request.path ≡ true → s' ≡ s → Passage key s'
    deferred : admission_stage_for lib request ≡ admit_at_interceptor → s' ≡ s → Passage key s'
    unrated :
        admission_stage_for lib request ≡ admit_quota_at_auth
        → Within key
        → admit fl key request.path false now s ≡ (s', none)
        → Passage key s'
    admitted :
        admission_stage_for lib request ≡ admit_at_auth
        → Admitted key
        → admit fl key request.path true now s ≡ (s', none)
        → Passage key s'

  pub record Grant (s' : Store fl) (d : AuthDecision fl) : Type 0 where
    pub key : KeyConfig fl
    pub found : find_by_secret_when_enabled lib (extract_api_key lib request) s ≡ (some key, true)
    pub enabled : key.enabled ≡ true
    pub id : d.key_id ≡ key.id
    pub passage : Passage key s'

  admit_quota-Within :
      (key : KeyConfig fl) (t : Store fl)
      → t.usage ≡ s.usage
      → (admit_quota fl key request.path now t).1 ≡ none
      → Within key
  unfolding admit_quota
  admit_quota-Within key t same h = elim (Bool-cases (is_media_result_path request.path)) [
    | inl result ↦ inl result
    | inr other ↦ inr (rw (← same) (rw other at h))
  ]

  admit-Within :
      (key : KeyConfig fl) → (admit fl key request.path false now s).1 ≡ none → Within key
  unfolding admit
  admit-Within key h = admit_quota-Within key s refl h

  admit-rated :
      (key : KeyConfig fl)
      → (admit fl key request.path true now s).1 ≡ none
      → ((allow key.id key.rpm now s.limiter).1.allowed ≡ true) × Within key
  unfolding admit
  admit-rated key h = elim (Bool-cases (allow key.id key.rpm now s.limiter).1.allowed) [
    | inl within_rate ↦ (within_rate, admit_quota-Within key _ refl (rw within_rate at h))
    | inr over ↦ absurd (let e = (rw over at h) in cc)
  ]

  in_header :
      (test : Bool)
      → (test && header_key lib request == "") ≡ false
      → test ≡ true
      → header_key lib request ≢ ""
  in_header test h t e = ground (arith, h, t, e, string_eq.same_iff (header_key lib request) "")

  module _ (key : KeyConfig fl) (decision : AuthDecision fl) (unset : decision.allows ≡ false) where
    decided-Passage :
        (r : Store fl × Option (Denial fl))
        → (r.1 ≡ none → Passage key r.0)
        → (decided fl decision r.0 r.1).1.allows ≡ true
        → Passage key (decided fl decision r.0 r.1).0
    unfolding decided
    decided-Passage (s', none) passage a = passage refl
    decided-Passage (s', some denial) passage a = absurd (ground (arith, unset, a))

    at_stage-Passage :
        (stage : AdmissionStage)
        → admission_stage_for lib request ≡ stage
        → (at_stage fl lib request now key decision s stage).1.allows ≡ true
        → Passage key (at_stage fl lib request now key decision s stage).0
    unfolding at_stage
    at_stage-Passage admit_at_interceptor h a = deferred h refl
    at_stage-Passage admit_quota_at_auth h a =
        let r = admit fl key request.path false now s in
        decided-Passage r (λ e. unrated h (admit-Within key e) (ap (λ d. (r.0, d)) e)) a
    at_stage-Passage admit_at_auth h a =
        elim (Bool-cases (is_media_generation_path request.path && header_key lib request == "")) [
          | inl t ↦ absurd (let e = (rw t at a) in ground (arith, e, unset))
          | inr t ↦
              elim (Bool-cases (opens_websocket fl lib request && header_key lib request == "")) [
                | inl k ↦ absurd (let e = (rw (t, k) at a) in ground (arith, e, unset))
                | inr k ↦
                    let r = admit fl key request.path true now s in
                    rw (t, k)
                      (decided-Passage r
                        (λ e.
                          let (rated, within) = admit-rated key e in
                          admitted h
                            (record {
                              rated = rated;
                              within = within;
                              generates = in_header (is_media_generation_path request.path) t;
                              connects = in_header (opens_websocket fl lib request) k;
                            })
                            (ap (λ d. (r.0, d)) e))
                        (rw (t, k) at a))
              ]
        ]

    key_id-decided :
        (s' : Store fl) (denial : Option (Denial fl))
        → (decided fl decision s' denial).1.key_id ≡ decision.key_id
    unfolding decided
    key_id-decided s' none = refl
    key_id-decided s' (some denial) = refl

    key_id-at_stage :
        (stage : AdmissionStage)
        → (at_stage fl lib request now key decision s stage).1.key_id ≡ decision.key_id
    unfolding at_stage
    key_id-at_stage admit_at_interceptor = refl
    key_id-at_stage admit_quota_at_auth = key_id-decided _ _
    key_id-at_stage admit_at_auth =
        elim (Bool-cases (is_media_generation_path request.path && header_key lib request == "")) [
          | inl t ↦ rw t refl
          | inr t ↦
              elim (Bool-cases (opens_websocket fl lib request && header_key lib request == "")) [
                | inl k ↦ rw (t, k) refl
                | inr k ↦ rw (t, k) (key_id-decided _ _)
              ]
        ]

  authenticate_key-Grant :
      (key : Option (KeyConfig fl))
      → find_by_secret_when_enabled lib (extract_api_key lib request) s ≡ (key, true)
      → (authenticate_key fl lib request now s key).1.allows ≡ true
      → Grant
          (authenticate_key fl lib request now s key).0
          (authenticate_key fl lib request now s key).1
  unfolding authenticate_key refused
  authenticate_key-Grant none h a = absurd (ground (arith, a))
  authenticate_key-Grant (some key) h a = elim (Bool-cases key.enabled) [
    | inr t ↦ absurd (let e = (rw t at a) in ground (arith, e))
    | inl t ↦
        let on : not key.enabled ≡ false = rw t refl in
        let decision : AuthDecision fl = record (refused fl allowed) {
          known = true;
          key_id = key.id;
          model_list = is_models_endpoint request.path;
        } in
        elim (Bool-cases (is_models_endpoint request.path)) [
          | inl m ↦
              rw
                (if-false (not key.enabled) _ _ on, if-true (is_models_endpoint request.path) _ _ m)
                (record { key = key; found = h; enabled = t; id = refl; passage = listed m refl })
          | inr m ↦
              let stage = admission_stage_for lib request in
              let a' : (at_stage fl lib request now key decision s stage).1.allows ≡ true =
                (rw
                  (
                    if-false (not key.enabled) _ _ on,
                    if-false (is_models_endpoint request.path) _ _ m,
                  )
                  at a) in
              rw
                (
                  if-false (not key.enabled) _ _ on,
                  if-false (is_models_endpoint request.path) _ _ m,
                )
                (record {
                  key = key;
                  found = h;
                  enabled = t;
                  id = key_id-at_stage key decision refl stage;
                  passage = at_stage-Passage key decision refl stage refl a';
                })
        ]
  ]

-- A request that authentication lets through has a key that an enabled store finds by the request's
-- secret, the key is enabled, and the decision names it. And it reads the list of models, or is
-- left to the interceptor, the store unchanged both times; or it is admitted at the stage that its
-- path and method ask for. At the stage of the quota alone the request is not counted against the
-- rate, and the quota denies nothing or the path is that of a media result. At the full stage the
-- rate of the key admits the request and its quota denies nothing or the path is that of a media
-- result, and a media generation or an upgrade to a websocket has its key in a header.
pub authenticate-Grant :
    (fl : Floats) (lib : Library) (request : Request) (now : Time) (s : Store fl)
    → (authenticate fl lib request now s).1.allows ≡ true
    → let r = authenticate fl lib request now s in Grant fl lib request now s r.0 r.1
unfolding authenticate refused
authenticate-Grant fl lib request now s a =
    let (key, enabled) = find_by_secret_when_enabled lib (extract_api_key lib request) s in
    elim (Bool-cases enabled) [
      | inl t ↦
          let on : not enabled ≡ false = rw t refl in
          rw (if-false (not enabled) _ _ on) (
            authenticate_key-Grant fl lib request now s key (ap (λ b. (key, b)) t)
              (rw (if-false (not enabled) _ _ on) at a))
      | inr t ↦ absurd (let e = (rw t at a) in cc)
    ]
