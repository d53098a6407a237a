-- ===== src/Dict.antt =====
-- Go maps as association lists. A map is read through `get` and its laws; the order of iteration,
-- which Go leaves open, is that of the list, and only order-free results are computed from it.
pub mod Entries
use cpa_plugin_key_policy.Base.{
  ℕ, suc, ◌+◌, ◌≤◌, ◌≡◌, refl, ◌≢◌, Bool, false, Option, none, some, List, [], ◌∷◌, arith,
  Comparable, ◌==◌, if◌then◌else◌, guard, option_map, beq_refl, ◌||◌, Bool-cases, inl, inr, length,
}

abbrev pub Dict {ℓ κ} : Type ℓ → Type κ → Type (ℓ ⊔ κ)
Dict K V = List (K × V)

module _ {ℓ κ} {K : Type ℓ} {V : Type κ} ⦃e : Comparable K⦄ where
  -- `m[k]` with its second result
  unfoldable pub get : K → Dict K V → Option V
  get k [] = none
  get k ((j, v) ∷ m) = if j == k then some v else get k m

  -- `m[k] = v`
  unfoldable pub put : K → V → Dict K V → Dict K V
  put k v [] = (k, v) ∷ []
  put k v ((j, w) ∷ m) = if j == k then (j, v) ∷ m else (j, w) ∷ put k v m

  -- `delete(m, k)`
  unfoldable pub remove : K → Dict K V → Dict K V
  remove k [] = []
  remove k ((j, v) ∷ m) = let rest = remove k m in if j == k then rest else (j, v) ∷ rest

  -- the entries that pass a test; a key that fails it is gone
  unfoldable pub keep : (K → V → Bool) → Dict K V → Dict K V
  unfolding remove
  keep p [] = []
  keep p ((k, v) ∷ m) = let rest = keep p m in if p k v then (k, v) ∷ rest else remove k rest

  pub get-put :
      (k j : K) (v : V) (m : Dict K V) → get j (put k v m) ≡ (if k == j then some v else get j m)
  unfolding get put
  get-put k j v [] = refl
  get-put k j v ((i, w) ∷ m) =
      ground (arith, e.same_iff k j, e.same_iff i k, e.same_iff i j, get-put k j v m)

  pub get-put_self : (k : K) (v : V) (m : Dict K V) → get k (put k v m) ≡ some v
  get-put_self k v m = simp (get-put, beq_refl)

  pub get-put_ne : (k j : K) (v : V) (m : Dict K V) → k ≢ j → get j (put k v m) ≡ get j m
  get-put_ne k j v m h = ground (arith, get-put k j v m, e.same_iff k j)

  pub get-remove :
      (k j : K) (m : Dict K V) → get j (remove k m) ≡ (if k == j then none else get j m)
  unfolding get remove
  get-remove k j [] = ground arith
  get-remove k j ((i, w) ∷ m) =
      ground (arith, e.same_iff k j, e.same_iff i k, e.same_iff i j, get-remove k j m)

  pub get_of_empty : (k : K) (m : Dict K V) → length m ≡ 0 → get k m ≡ none
  unfolding get
  get_of_empty k [] h = refl
  get_of_empty k (x ∷ m) h = absurd (omega arith)

  pub get-keep :
      (p : K → V → Bool) (k : K) (m : Dict K V) → get k (keep p m) ≡ guard (p k) (get k m)
  unfolding get keep
  get-keep p k [] = refl
  get-keep p k ((i, w) ∷ m) = elim (Bool-cases (p i w)) [
    | inl h ↦ ground (arith, e.same_iff i k, get-keep p k m)
    | inr h ↦ ground (arith, e.same_iff i k, get-keep p k m, get-remove i k (keep p m))
  ]

module _ {ℓ κ τ} {K : Type ℓ} {V : Type κ} {W : Type τ} where
  -- a loop that rebuilds every value
  unfoldable pub map_values : (K → V → W) → Dict K V → Dict K W
  map_values f [] = []
  map_values f ((k, v) ∷ m) = (k, f k v) ∷ map_values f m

module _ {ℓ κ} {K : Type ℓ} {V : Type κ} where
  -- a loop that adds up a number of each entry
  unfoldable pub sum : (V → ℕ) → Dict K V → ℕ
  sum f [] = 0
  sum f ((k, v) ∷ m) = f v + sum f m

  -- a loop that looks for an entry
  unfoldable pub exists : (K → V → Bool) → Dict K V → Bool
  exists p [] = false
  exists p ((k, v) ∷ m) = p k v || exists p m

module _ {ℓ κ τ} {K : Type ℓ} {V : Type κ} {W : Type τ} ⦃e : Comparable K⦄ where
  pub get-map_values :
      (f : K → V → W) (k : K) (m : Dict K V) → get k (map_values f m) ≡ option_map (f k) (get k m)
  unfolding get map_values
  get-map_values f k [] = refl
  get-map_values f k ((i, v) ∷ m) = ground (arith, e.same_iff i k, get-map_values f k m)

module _ {ℓ κ} {K : Type ℓ} {V : Type κ} ⦃e : Comparable K⦄ where
  pub sum-put :
      (f : V → ℕ) (k : K) (v old : V) (m : Dict K V)
      → get k m ≡ some old
      → sum f (put k v m) + f old ≡ sum f m + f v
  unfolding get put sum
  sum-put f k v old [] h = cc
  sum-put f k v old ((i, w) ∷ m) h = grind (arith, sum-put f k v old m)

  pub sum-put_new :
      (f : V → ℕ) (k : K) (v : V) (m : Dict K V)
      → get k m ≡ none
      → sum f (put k v m) ≡ sum f m + f v
  unfolding get put sum
  sum-put_new f k v [] h = omega arith
  sum-put_new f k v ((i, w) ∷ m) h = grind (arith, sum-put_new f k v m)

abbrev pub merged {κ τ} :
    {V : Type κ} {W : Type τ} → (V → Option W → W) → Option V → Option W → Option W
merged f none w = w
merged f (some v) w = some (f v w)

module _ {ℓ κ τ} {K : Type ℓ} {V : Type κ} {W : Type τ} ⦃e : Comparable K⦄ where
  -- a loop over `m` that writes each of its keys once into another map, from the value there
  unfoldable pub merge : (V → Option W → W) → Dict K V → Dict K W → Dict K W
  merge f [] into = into
  merge f ((k, v) ∷ m) into = put k (f v (get k into)) (merge f m into)

  pub get-merge :
      (f : V → Option W → W) (k : K) (m : Dict K V) (into : Dict K W)
      → get k (merge f m into) ≡ merged f (get k m) (get k into)
  unfolding get merge
  get-merge f k [] into = refl
  get-merge f k ((i, v) ∷ m) into =
      ground (
        arith,
        e.same_iff i k,
        get-put i k (f v (get i into)) (merge f m into),
        get-merge f k m into,
      )

module _ {ℓ κ} {K : Type ℓ} {V : Type κ} ⦃e : Comparable K⦄ where
  -- A loop that finds nothing has seen every key.
  pub exists-false :
      (p : K → V → Bool) (k : K) (v : V) (m : Dict K V)
      → exists p m ≡ false
      → get k m ≡ some v
      → p k v ≡ false
  unfolding get exists
  exists-false p k v [] h g = cc
  exists-false p k v ((i, w) ∷ m) h g = elim (Bool-cases (i == k)) [
    | inl same ↦
        let e' : i ≡ k = (e.same_iff i k).0 same in
        let g' : some w ≡ some v = rw same at g in
        let f : w ≡ v = cc in rw (← e', ← f) (ground arith)
    | inr other ↦ exists-false p k v m (ground arith) (rw other at g)
  ]

  pub length-put : (k : K) (v : V) (m : Dict K V) → length (put k v m) ≤ suc (length m)
  unfolding put
  length-put k v [] = omega arith
  length-put k v ((i, w) ∷ m) = ground (arith, length-put k v m)

  pub length-remove : (k : K) (m : Dict K V) → length (remove k m) ≤ length m
  unfolding remove
  length-remove k [] = omega arith
  length-remove k ((i, w) ∷ m) = ground (arith, length-remove k m)
