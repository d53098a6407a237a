-- ===== src/Dict/Entries.antt =====
-- What holds of every entry of a map, and maps that hold each key once, as Go's do.
use cpa_plugin_key_policy.Base.{
  ◌≡◌, ◌≢◌, ◌⊎◌, refl, sym, none, some, [], ◌∷◌, arith, Comparable, Bool, true, ◌==◌, All,
  Bool-cases, inl, inr,
}
use cpa_plugin_key_policy.Dict.{Dict, get, put, remove, keep, map_values}

-- an entry is in the map
abbrev pub Has : {K V : Type 0} → K × V → Dict K V → Type 0
Has e [] = ⊥
Has e (x ∷ m) = (x ≡ e) ⊎ Has e m

module _ {ℓ κ} {K : Type ℓ} {V : Type κ} ⦃e : Comparable K⦄ where
  module _ {τ} (P : K × V → Type τ) where
    pub All-put : (k : K) (v : V) (m : Dict K V) → P (k, v) → All P m → All P (put k v m)
    unfolding put
    All-put k v [] p h = (p, tt)
    All-put k v ((j, w) ∷ m) p h = elim (Bool-cases (j == k)) [
      | inl same ↦ let eq : k ≡ j = sym ((e.same_iff j k).0 same) in rw same (rw (← eq) p, h.1)
      | inr other ↦ rw other (h.0, All-put k v m p h.1)
    ]

    pub All-remove : (k : K) (m : Dict K V) → All P m → All P (remove k m)
    unfolding remove
    All-remove k [] h = h
    All-remove k ((j, w) ∷ m) h = elim (Bool-cases (j == k)) [
      | inl same ↦ rw same (All-remove k m h.1)
      | inr other ↦ rw other (h.0, All-remove k m h.1)
    ]

    pub All-get : (k : K) (v : V) (m : Dict K V) → All P m → get k m ≡ some v → P (k, v)
    unfolding get
    All-get k v [] h g = absurd (cc)
    All-get k v ((j, w) ∷ m) h g = elim (Bool-cases (j == k)) [
      | inl same ↦
          let g' : some w ≡ some v = rw same at g in
          let eq : w ≡ v = cc in rw (← (e.same_iff j k).0 same, ← eq) h.0
      | inr other ↦ All-get k v m h.1 (rw other at g)
    ]

  -- no entry has the key
  abbrev pub Lacks : K → Dict K V → Type (ℓ)
  Lacks k m = All (λ (x : K × V). k ≢ x.0) m

  abbrev pub HasDistinctKeys : Dict K V → Type (ℓ)
  HasDistinctKeys [] = Unit
  HasDistinctKeys ((k, v) ∷ m) = Lacks k m × HasDistinctKeys m

  pub get-Lacks : (k : K) (m : Dict K V) → Lacks k m → get k m ≡ none
  unfolding get
  get-Lacks k [] h = refl
  get-Lacks k ((j, v) ∷ m) h = elim (Bool-cases (j == k)) [
    | inl same ↦ absurd (h.0 (sym ((e.same_iff j k).0 same)))
    | inr other ↦ rw other (get-Lacks k m h.1)
  ]

  pub put-HasDistinctKeys :
      (k : K) (v : V) (m : Dict K V) → HasDistinctKeys m → HasDistinctKeys (put k v m)
  unfolding put
  put-HasDistinctKeys k v [] h = (tt, tt)
  put-HasDistinctKeys k v ((j, w) ∷ m) h = elim (Bool-cases (j == k)) [
    | inl same ↦ rw same h
    | inr other ↦ rw other (
      All-put (λ (x : K × V). j ≢ x.0) k v m (λ eq. ground (arith, e.same_iff j k, other, eq)) h.0,
      put-HasDistinctKeys k v m h.1,
    )
  ]

  pub remove-HasDistinctKeys :
      (k : K) (m : Dict K V) → HasDistinctKeys m → HasDistinctKeys (remove k m)
  unfolding remove
  remove-HasDistinctKeys k [] h = tt
  remove-HasDistinctKeys k ((j, w) ∷ m) h = elim (Bool-cases (j == k)) [
    | inl same ↦ rw same (remove-HasDistinctKeys k m h.1)
    | inr other ↦
        rw other (All-remove (λ (x : K × V). j ≢ x.0) k m h.0, remove-HasDistinctKeys k m h.1)
  ]

module _ {ℓ κ} {K : Type ℓ} {V : Type κ} ⦃e : Comparable K⦄ where
  -- what the test of a filter and the entries before it show of those that it keeps
  pub All-keep {τ ρ} :
      (Q : K × V → Type τ) (P : K × V → Type ρ) (test : K → V → Bool) (m : Dict K V)
      → ((k : K) (v : V) → test k v ≡ true → Q (k, v) → P (k, v))
      → All Q m
      → All P (keep test m)
  unfolding keep
  All-keep Q P test [] f h = tt
  All-keep Q P test ((k, v) ∷ m) f h = elim (Bool-cases (test k v)) [
    | inl kept ↦ rw kept (f k v kept h.0, All-keep Q P test m f h.1)
    | inr dropped ↦ rw dropped (All-remove P k (keep test m) (All-keep Q P test m f h.1))
  ]

module _ {ℓ κ τ} {K : Type ℓ} {V : Type κ} {W : Type τ} where
  pub All-map_values {ρ σ} :
      (Q : K × V → Type ρ) (P : K × W → Type σ) (f : K → V → W) (m : Dict K V)
      → ((k : K) (v : V) → Q (k, v) → P (k, f k v))
      → All Q m
      → All P (map_values f m)
  unfolding map_values
  All-map_values Q P f [] g h = tt
  All-map_values Q P f ((k, v) ∷ m) g h = (g k v h.0, All-map_values Q P f m g h.1)
