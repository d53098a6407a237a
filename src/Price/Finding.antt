-- ===== src/Price/Finding.antt =====
-- What `priceTable.lookup` of internal/policy/price.go finds in a table that was built from rows.
use Prim.Native.Char.{Char}
use cpa_plugin_key_policy.Base.{
  ◌≡◌, ◌≢◌, ◌⊎◌, inl, inr, none, some, String, string_eq, ◌==◌, arith, Bool-cases, Option-cases,
}
use cpa_plugin_key_policy.Dict.{get}
use cpa_plugin_key_policy.Money.{Floats}
use cpa_plugin_key_policy.Price.{
  price_key, normalize_provider, ModelPrice, PriceTable, lookup_price,
}
use cpa_plugin_key_policy.Price.Lookup.{IsTable}

-- The row that a lookup comes back with: the one qualified by the provider where there is one, and
-- else the unqualified one.
abbrev pub Found :
    {fl : Floats} (lower : Char → Char) (t : PriceTable fl) (provider model : String)
    → ModelPrice fl
    → Type 0
Found lower t provider model r =
    let own = price_key lower model (normalize_provider lower provider) in
    let bare = price_key lower model "" in
    ((normalize_provider lower provider ≢ "") × (price_key lower r.name r.provider ≡ own))
    ⊎ ((price_key lower r.name r.provider ≡ bare)
        × ((normalize_provider lower provider ≡ "") ⊎ (get own t.index ≡ none)))

-- What a lookup in a table built from rows finds stands under a key of the asked model: the row
-- under the key of the model and the asked provider, or, only where there is none, the row under
-- the key of the model without a provider.
pub lookup_price-Found :
    (fl : Floats) (lower : Char → Char) (t : PriceTable fl) (provider model : String)
    (r : ModelPrice fl)
    → IsTable fl lower t
    → lookup_price fl lower t provider model ≡ some r
    → Found lower t provider model r
unfolding lookup_price
lookup_price-Found fl lower t provider model r h e =
    let p = normalize_provider lower provider in
    let own = price_key lower model p in
    let bare = price_key lower model "" in
    elim (Bool-cases (p == "")) [
      | inl none_given ↦
          inr (h.keyed bare r (rw none_given at e), inl ((string_eq.same_iff p "").0 none_given))
      | inr given ↦
          let ne : p ≢ "" = λ q. cc ((string_eq.same_iff p "").1 q) in
          elim (Option-cases (get own t.index)) [
            | inl miss ↦ inr (h.keyed bare r (ground (arith, e, given, miss)), inr miss)
            | inr (q, hit) ↦ inl (ne, h.keyed own r (ground (arith, e, given, hit)))
          ]
    ]
