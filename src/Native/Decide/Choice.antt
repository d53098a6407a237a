-- ===== src/Native/Decide/Choice.antt =====
-- When `decide` of internal/search/native/decide.go makes a model search natively.
use cpa_plugin_key_policy.Base.{
  ◌≡◌, ◌↔◌, ◌⊎◌, inl, inr, refl, Bool, true, false, not, ◌&&◌, ◌||◌, List, [], ◌∷◌, String,
  string_eq, Bool-cases, All,
}
use cpa_plugin_key_policy.Native.Decide.{
  Credential, World, takes_part, is_usable, is_excused, is_excluded, usable_of, gaps_of,
  all_supported, none_in, mode_by, mode_of, decide_model, is_native,
}

and-true : (a b : Bool) → (a && b) ≡ true → (a ≡ true) × (b ≡ true)
and-true true b h = (refl, h)
and-true false b h = absurd (cc)

and-false : (a b : Bool) → (a && b) ≡ false → a ≡ true → b ≡ true → ⊥
and-false true b h p q = cc
and-false false b h p q = cc

counted :
    (t u e rest : Bool)
    → ((not t || u || e) && rest) ≡ true
    → (t ≡ true → (u ≡ true) ⊎ (e ≡ true)) × (rest ≡ true)
counted false u e rest h = (λ p. absurd (cc), h)
counted true true e rest h = (λ _. inl refl, h)
counted true false true rest h = (λ _. inr refl, h)
counted true false false rest h = absurd (cc)

counted_back :
    (t u e rest : Bool)
    → (t ≡ true → (u ≡ true) ⊎ (e ≡ true))
    → rest ≡ true
    → ((not t || u || e) && rest) ≡ true
counted_back false u e rest h k = k
counted_back true true e rest h k = k
counted_back true false true rest h k = k
counted_back true false false rest h k = elim (h refl) [ inl p ↦ absurd (cc) | inr p ↦ absurd (cc) ]

-- some channel of the list that CPA routes to and that serves the model is usable for it
abbrev pub HasUsable : World → String → List Credential → Type 0
HasUsable w model [] = ⊥
HasUsable w model (c ∷ cs) =
    ((takes_part w model c ≡ true) × (is_usable w model c ≡ true)) ⊎ HasUsable w model cs

-- every channel of the list that CPA routes to and that serves the model is usable or excused
abbrev pub IsComplete : World → String → List Credential → Type 0
IsComplete w model cs =
    All
      (λ c.
        takes_part w model c ≡ true → (is_usable w model c ≡ true) ⊎ (is_excused w model c ≡ true))
      cs

-- what makes a model search natively
pub record IsChosen (w : World) (model : String) : Type 0 where
  pub enabled : w.settings.enabled ≡ true
  pub kept_in : is_excluded w model ≡ false
  pub usable : HasUsable w model w.credentials
  pub complete : w.settings.require_all ≡ true → IsComplete w model w.credentials

usable_of-HasUsable :
    (w : World) (model : String) (cs : List Credential)
    → (none_in (usable_of w model cs) ≡ false) ↔ HasUsable w model cs
unfolding usable_of
usable_of-HasUsable w model [] = (λ h. absurd (cc), λ h. absurd h)
usable_of-HasUsable w model (c ∷ cs) =
    let (to, from) = usable_of-HasUsable w model cs in
    elim (Bool-cases (takes_part w model c && is_usable w model c)) [
      | inl here ↦ rw here (λ _. inl (and-true _ _ here), λ _. refl)
      | inr other ↦ rw other (
        λ h. inr (to h),
        λ h. elim h [
          | inl (part, good) ↦
              absurd (and-false (takes_part w model c) (is_usable w model c) other part good)
          | inr later ↦ from later
        ],
      )
    ]

all_supported-IsComplete :
    (w : World) (model : String) (cs : List Credential)
    → (all_supported w model cs ≡ true) ↔ IsComplete w model cs
unfolding all_supported
all_supported-IsComplete w model [] = (λ _. tt, λ _. refl)
all_supported-IsComplete w model (c ∷ cs) =
    let (to, from) = all_supported-IsComplete w model cs in
    let t = takes_part w model c in
    let u = is_usable w model c in
    let e = is_excused w model c in
    (
      λ h. let (here, rest) = counted t u e (all_supported w model cs) h in (here, to rest),
      λ h. counted_back t u e (all_supported w model cs) h.0 (from h.1),
    )

mode_by-native :
    (on is_out none_usable none_gap all_needed all_good : Bool)
    → (is_native (mode_by on is_out none_usable none_gap all_needed all_good).0 ≡ true) ↔ (
        (on ≡ true)
        × (is_out ≡ false)
        × (none_usable ≡ false)
        × (all_needed ≡ true → all_good ≡ true))
unfolding mode_by
mode_by-native false is_out none_usable none_gap all_needed all_good =
    (λ h. absurd (cc), λ h. absurd (cc h.0))
mode_by-native true true none_usable none_gap all_needed all_good =
    (λ h. absurd (cc), λ h. absurd (cc h.1))
mode_by-native true false true true all_needed all_good = (λ h. absurd (cc), λ h. absurd (cc h.2))
mode_by-native true false true false all_needed all_good = (λ h. absurd (cc), λ h. absurd (cc h.2))
mode_by-native true false false none_gap true true = (λ _. (refl, refl, refl, λ _. refl), λ _. refl)
mode_by-native true false false none_gap true false =
    (λ h. absurd (cc), λ h. absurd (cc (h.3 refl)))
mode_by-native true false false none_gap false all_good =
    (λ _. (refl, refl, refl, λ h. absurd (cc)), λ _. refl)

-- A model is decided to search natively exactly when native search is on, the operator does not
-- exclude the model, some channel that takes part is usable for it, and, where all are required,
-- every channel that takes part is usable or excused.
pub decide_model-IsChosen :
    (w : World) (model : String) → (is_native (decide_model w model).mode ≡ true) ↔ IsChosen w model
unfolding decide_model mode_of
decide_model-IsChosen w model =
    let (to_use, from_use) = usable_of-HasUsable w model w.credentials in
    let (to_all, from_all) = all_supported-IsComplete w model w.credentials in
    let (to, from) =
      mode_by-native w.settings.enabled (is_excluded w model)
        (none_in (usable_of w model w.credentials)) (none_in (gaps_of w model w.credentials))
        w.settings.require_all (all_supported w model w.credentials) in
    (
      λ h. record {
        enabled = (to h).0;
        kept_in = (to h).1;
        usable = to_use (to h).2;
        complete = λ needed. to_all ((to h).3 needed);
      },
      λ c. from (c.enabled, c.kept_in, from_use c.usable, λ needed. from_all (c.complete needed)),
    )
