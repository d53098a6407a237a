-- ===== src/Admission/Generations.antt =====
-- An admitted generation is known to billing: `AdmitIntercepted` of internal/policy/auth.go.
use cpa_plugin_key_policy.Base.{
  ◌+◌, ◌≤◌, ◌≡◌, refl, true, false, Bool, if◌then◌else◌, not, Option, none, some, String, string_eq,
  ◌==◌, Bool-cases, if-false, inl, inr,
}
use cpa_plugin_key_policy.Dict.{get}
use cpa_plugin_key_policy.Calendar.{Time}
use cpa_plugin_key_policy.Money.{Floats}
use cpa_plugin_key_policy.Limiter.{allow}
use cpa_plugin_key_policy.MediaTrace.{media_trace_ttl, trim, take}
use cpa_plugin_key_policy.MediaTrace.Taking.{take-remember}
use cpa_plugin_key_policy.Store.{Library, KeyConfig, Store, find_by_secret, journal, balance_mode}
use cpa_plugin_key_policy.Price.{ModelPrice}
use cpa_plugin_key_policy.Ledger.{record_call}
use cpa_plugin_key_policy.Billing.{UsageEvent, recorded, one_call, book, record_per_call}
use cpa_plugin_key_policy.Quota.{Denial}
use cpa_plugin_key_policy.Routes.{
  Request, is_media_generation_path, is_media_result_path, header_key,
}
use cpa_plugin_key_policy.Admission.{
  admit, admit_quota, remember_generation, admit_intercepted_key, admit_intercepted,
}

module _ (fl : Floats) (key : KeyConfig fl) (path : String) (now : Time) where
  media_traces-admit_quota :
      (s : Store fl) → (admit_quota fl key path now s).0.media_traces ≡ s.media_traces
  unfolding admit_quota
  media_traces-admit_quota s = elim (Bool-cases (is_media_result_path path)) [
    | inl t ↦ rw t refl
    | inr t ↦ rw t refl
  ]

  media_traces-admit :
      (s : Store fl) → (admit fl key path true now s).0.media_traces ≡ s.media_traces
  unfolding admit
  media_traces-admit s =
      let (limiter, answer) = allow key.id key.rpm now s.limiter in
      elim (Bool-cases answer.allowed) [
        | inl t ↦ rw t (media_traces-admit_quota (record s { limiter = limiter }))
        | inr t ↦ rw t refl
      ]

  take-remember_generation :
      (trace_id : String) (later : Time) (s : Store fl) (denial : Option (Denial fl))
      → (trace_id == "") ≡ false
      → is_media_generation_path path ≡ true
      → get trace_id (trim now s.media_traces).index ≡ none
      → later ≤ now + media_trace_ttl
      → (remember_generation fl path trace_id now s denial).1 ≡ none
      → (take trace_id later (remember_generation fl path trace_id now s denial).0.media_traces).1
        ≡ true
  unfolding remember_generation journal
  take-remember_generation trace_id later s (some denial) named media fresh soon h = absurd (cc)
  take-remember_generation trace_id later s none named media fresh soon h =
      rw (named, media) (take-remember trace_id now later s.media_traces fresh soon)

-- the trace of an admitted generation is there for a record within an hour
take-admit_intercepted :
    (fl : Floats) (lib : Library) (request : Request) (trace_id : String) (now later : Time)
    (s : Store fl) (key : KeyConfig fl)
    → s.enabled ≡ true
    → find_by_secret lib (header_key lib request) s ≡ some key
    → key.enabled ≡ true
    → (trace_id == "") ≡ false
    → is_media_generation_path request.path ≡ true
    → get trace_id (trim now s.media_traces).index ≡ none
    → later ≤ now + media_trace_ttl
    → (admit_intercepted fl lib request trace_id now s).1 ≡ none
    → (take trace_id later (admit_intercepted fl lib request trace_id now s).0.media_traces).1
      ≡ true
unfolding admit_intercepted admit_intercepted_key
take-admit_intercepted fl lib request trace_id now later s key on found on' named media fresh soon
      h =
    let known : not s.enabled ≡ false = rw on refl in
    let enabled : not key.enabled ≡ false = rw on' refl in
    let r = admit fl key request.path true now s in
    let fresh' : get trace_id (trim now r.0.media_traces).index ≡ none =
      rw (media_traces-admit fl key request.path now s) fresh in
    let h' : (remember_generation fl request.path trace_id now r.0 r.1).1 ≡ none =
      (rw (if-false (not s.enabled) _ _ known, found, if-false (not key.enabled) _ _ enabled) at
        h) in
    rw (if-false (not s.enabled) _ _ known, found, if-false (not key.enabled) _ _ enabled)
      (take-remember_generation fl key request.path now trace_id later r.0 r.1 named media fresh'
        soon h')

-- When the interceptor of an enabled store admits a media generation of an enabled key, under a
-- trace id that is not empty and not known yet, then the per-call usage record with that trace id
-- that comes next, within an hour and before any other request, is recorded: what it leaves of the
-- ledger is the record of one call at the price of its row.
pub record_per_call-admit_intercepted :
    (fl : Floats) (lib : Library) (request : Request) (trace_id : String) (now later : Time)
    (s : Store fl) (key payer : KeyConfig fl) (event : UsageEvent) (model : String)
    (price : ModelPrice fl) (is_priced : Bool)
    → s.enabled ≡ true
    → find_by_secret lib (header_key lib request) s ≡ some key
    → key.enabled ≡ true
    → (trace_id == "") ≡ false
    → is_media_generation_path request.path ≡ true
    → get trace_id (trim now s.media_traces).index ≡ none
    → later ≤ now + media_trace_ttl
    → (admit_intercepted fl lib request trace_id now s).1 ≡ none
    → event.trace_id ≡ trace_id
    → let s' = (admit_intercepted fl lib request trace_id now s).0 in
      let r = record_per_call fl event model payer price is_priced later s' in
      let call = one_call fl price in
      (r.1 ≡ recorded)
      × (r.0.usage
          ≡ record_call payer.id model
              (if is_priced then call else record call { unpriced_calls = 1 })
              (balance_mode payer)
              later
              s'.usage)
unfolding record_per_call book journal
record_per_call-admit_intercepted fl lib request trace_id now later s key payer event model price
      is_priced on found on' named media fresh soon h same =
    let s' = (admit_intercepted fl lib request trace_id now s).0 in
    let taken : (take event.trace_id later s'.media_traces).1 ≡ true = rw same (
      take-admit_intercepted fl lib request trace_id now later s key on found on' named media fresh
        soon h) in
    let named' : (event.trace_id == "") ≡ false = rw same named in rw (named', taken) (refl, refl)
