-- ===== src/Native/Exclude/Serving.antt =====
-- An automatic exclusion leaves a model a channel that searches for it: `planLocked` of
-- internal/search/native/exclude.go over the decisions of internal/search/native/decide.go.
use cpa_plugin_key_policy.Base.{
  ◌<◌, ◌≡◌, ◌≢◌, ◌⊎◌, inl, inr, refl, sym, ap, ◌∙◌, ℕ, Bool, true, false, ◌||◌, Option, List, [],
  ◌∷◌, map, String, string_eq, ◌==◌, if◌then◌else◌, Bool-cases, All, All-implies,
}
use cpa_plugin_key_policy.Dict.{get}
use cpa_plugin_key_policy.Dict.Entries.{Has}
use cpa_plugin_key_policy.Calendar.{Time}
use cpa_plugin_key_policy.Native.{ChannelRecord, is_supported, confirmed, pair}
use cpa_plugin_key_policy.Native.States.{is_refused, classify_for}
use cpa_plugin_key_policy.Native.Decide.{
  Credential, World, ModelDecision, record_of, takes_part, state_of, is_usable, decide_model,
  is_native, native_of, decide, has,
}
use cpa_plugin_key_policy.Native.Decide.Choice.{HasUsable, decide_model-IsChosen}
use cpa_plugin_key_policy.Native.Exclude.{
  Exclusion, Exclusions, Manager, can_add, pair_of, open_models,
}
use cpa_plugin_key_policy.Native.Exclude.Moving.{Planned, move_all, plan}
use cpa_plugin_key_policy.Native.Exclude.Planning.{MayExclude, IsPlan, move_all-IsPlan}

-- some channel of the list other than one of an index is usable for the model
abbrev pub HasUsableBut : World → String → String → List Credential → Type 0
HasUsableBut w model index [] = ⊥
HasUsableBut w model index (c ∷ cs) =
    ((takes_part w model c ≡ true) × (is_usable w model c ≡ true) × (c.auth_index ≢ index))
    ⊎ HasUsableBut w model index cs

-- a channel that is confirmed not to search for a model is not supported for it
classify_for-confirmed :
    (rec : Option ChannelRecord) (model : String) (off : Bool) (hours : ℕ) (now : Time)
    → confirmed (pair model rec) ≡ true
    → is_supported (classify_for rec model off hours now) ≡ false
unfolding classify_for
classify_for-confirmed rec model off hours now h = elim (Bool-cases off) [
  | inl out ↦ rw out refl
  | inr on ↦ elim (Bool-cases (is_refused (pair model rec))) [
    | inl refused ↦ rw (on, refused) refl
    | inr accepted ↦ rw (on, accepted, h) refl
  ]
]

is_usable-confirmed :
    (w : World) (model : String) (c : Credential)
    → confirmed (pair model (record_of w c)) ≡ true
    → is_usable w model c ≡ false
unfolding is_usable state_of
is_usable-confirmed w model c h =
    rw (classify_for-confirmed (record_of w c) model _ w.settings.interval_hours w.now h) refl

HasUsable-but :
    (w : World) (model index : String) (cs : List Credential)
    → confirmed (pair model (get index w.records)) ≡ true
    → HasUsable w model cs
    → HasUsableBut w model index cs
HasUsable-but w model index [] h u = u
HasUsable-but w model index (c ∷ cs) h (inl (part, good)) = inl (
  part,
  good,
  λ e.
      let h' : confirmed (pair model (record_of w c)) ≡ true =
        ap (λ i. confirmed (pair model (get i w.records))) e ∙ h in
      cc (is_usable-confirmed w model c h'),
)
HasUsable-but w model index (c ∷ cs) h (inr later) = inr (HasUsable-but w model index cs h later)

native_of-head :
    (d : ModelDecision) (ds : List ModelDecision) (model : String)
    → has (native_of (d ∷ ds)) model ≡ true
    → ((is_native d.mode ≡ true) × (d.model ≡ model)) ⊎ (has (native_of ds) model ≡ true)
unfolding native_of
native_of-head d ds model h = elim (Bool-cases (is_native d.mode)) [
  | inr other ↦ inr (rw other at h)
  | inl chosen ↦
      let h' : (d.model == model || has (native_of ds) model) ≡ true = rw chosen at h in
      elim (Bool-cases (d.model == model)) [
        | inl same ↦ inl (chosen, (string_eq.same_iff d.model model).0 same)
        | inr different ↦ inr (rw different at h')
      ]
]

native_of-decide_model :
    (w : World) (model : String) (candidates : List String)
    → has (native_of (map (decide_model w) candidates)) model ≡ true
    → is_native (decide_model w model).mode ≡ true
unfolding native_of decide_model
native_of-decide_model w model [] h = absurd (cc)
native_of-decide_model w model (c ∷ candidates) h =
    elim (native_of-head (decide_model w c) (map (decide_model w) candidates) model h) [
      | inl (chosen, same) ↦ ap (λ c. is_native (decide_model w c).mode) (sym same) ∙ chosen
      | inr later ↦ native_of-decide_model w model candidates later
    ]

native_models-HasUsable :
    (w : World) (model : String) (candidates : List String)
    → has (decide w candidates).native_models model ≡ true
    → HasUsable w model w.credentials
unfolding decide
native_models-HasUsable w model candidates h =
    ((decide_model-IsChosen w model).0 (native_of-decide_model w model candidates h)).usable

-- Over the decisions of the evidence at hand, with a clock past the zero Time, every plan to take a
-- model off a channel is of an exclusion of the model there that the operator does not keep, while
-- automatic exclusion is on and may add; the model searches natively, and the channel is confirmed
-- not to search for it or a trial has been under way. Where it is confirmed, some other channel is
-- usable for the model.
pub plan-HasUsableBut :
    (w : World) (candidates : List String) (m : Manager) (now : Time) (exclusions : Exclusions)
    → 0 < now
    → m.snapshot ≡ decide w candidates
    → m.records ≡ w.records
    → let opened =
        if can_add m now then open_models m now m.snapshot.models exclusions else exclusions in
      All
        (λ p.
          p.exclude ≡ true
          → (e : Exclusion) × Has (p.key, e) opened
            × MayExclude m now e
            × (confirmed (pair_of m (e.auth_index, e.model)) ≡ true
                → HasUsableBut w e.model e.auth_index w.credentials))
        (plan m now exclusions).1
unfolding plan
plan-HasUsableBut w candidates m now exclusions pos shot recs =
    let opened =
      if can_add m now then open_models m now m.snapshot.models exclusions else exclusions in
    All-implies (IsPlan m now pos opened)
      (λ (p : Planned).
        p.exclude ≡ true
        → (e : Exclusion) × Has (p.key, e) opened
          × MayExclude m now e
          × (confirmed (pair_of m (e.auth_index, e.model)) ≡ true
              → HasUsableBut w e.model e.auth_index w.credentials))
      (λ p is_plan out.
        let (e, has_e, may) = is_plan out in
        (
          e,
          has_e,
          may,
          λ sure.
              HasUsable-but w e.model e.auth_index w.credentials
                (ap (λ r. confirmed (pair e.model (get e.auth_index r))) (sym recs) ∙ sure)
                (native_models-HasUsable w e.model candidates
                  (ap (λ s. has s.native_models e.model) (sym shot) ∙ may.searches)),
        ))
      (move_all m now opened).1 (move_all-IsPlan m now pos opened)
