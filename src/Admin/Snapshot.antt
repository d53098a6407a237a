-- ===== src/Admin/Snapshot.antt =====
-- The sorted snapshot of the keys holds the same key under each id as the map of the store:
-- `keysSnapshotLocked` of internal/policy/store.go, and the search in it that `applyKeyMutation` of
-- internal/policy/admin.go makes.
use cpa_plugin_key_policy.Base.{
  ℕ, suc, ◌≡◌, ◌≢◌, refl, sym, ap, ◌∙◌, Option, none, some, List, [], ◌∷◌, map, String, string_eq,
  ◌==◌, if◌then◌else◌, All, arith, Bool-cases, Option-cases, inl, inr,
}
use cpa_plugin_key_policy.Dict.{Dict, get}
use cpa_plugin_key_policy.Dict.Entries.{HasDistinctKeys, Lacks}
use cpa_plugin_key_policy.Calendar.{Time}
use cpa_plugin_key_policy.Money.{Floats}
use cpa_plugin_key_policy.Store.{KeyConfig, Store}
use cpa_plugin_key_policy.Admin.{insert_by_name, sort_by_name, get_elem?, keys_snapshot}
use cpa_plugin_key_policy.Admin.Index.{All-insert_by_name}
use cpa_plugin_key_policy.Admin.Mutations.{index_of, placed, placed_at}

module _ {A : Type 0} where
  All-sort_by_name :
      (P : String × A → Type 0) (m : Dict String A) → All P m → All P (sort_by_name m)
  unfolding sort_by_name
  All-sort_by_name P [] h = tt
  All-sort_by_name P ((id, a) ∷ m) h =
      All-insert_by_name P id a (sort_by_name m) h.0 (All-sort_by_name P m h.1)

  get-insert_by_name :
      (id j : String) (a : A) (m : Dict String A)
      → Lacks id m
      → get j (insert_by_name id a m) ≡ (if id == j then some a else get j m)
  unfolding get insert_by_name
  get-insert_by_name id j a [] h = refl
  get-insert_by_name id j a ((i, b) ∷ m) h =
      ground
        (arith, string_eq.same_iff id j, string_eq.same_iff i j, h.0, get-insert_by_name id j a m)

  get-sort_by_name :
      (j : String) (m : Dict String A) → HasDistinctKeys m → get j (sort_by_name m) ≡ get j m
  unfolding get sort_by_name
  get-sort_by_name j [] h = refl
  get-sort_by_name j ((id, a) ∷ m) h =
      rw
        (
          get-insert_by_name id j a (sort_by_name m)
              (All-sort_by_name (λ (e : String × A). id ≢ e.0) m h.0),
          get-sort_by_name j m h.1,
        )
        refl

module _ {fl : Floats} where
  -- each key is kept under its own id
  abbrev IsOwn : String × KeyConfig fl → Type 0
  IsOwn e = e.1.id ≡ e.0

  find_id : String → List (KeyConfig fl) → Option (KeyConfig fl)
  find_id id [] = none
  find_id id (k ∷ keys) = let rest = find_id id keys in if k.id == id then some k else rest

  get_elem?-find_id :
      (id : String) (keys : List (KeyConfig fl)) (o : Option ℕ)
      → index_of id keys ≡ o
      → find_id id keys ≡ elim o [ none ↦ none | some i ↦ get_elem? keys i ]
  unfolding index_of find_id
  get_elem?-find_id id [] o h = rw (← h) refl
  get_elem?-find_id id (k ∷ keys) o h = elim (Bool-cases (k.id == id)) [
    | inl here ↦ let e : some 0 ≡ o = rw here at h in rw (← e, here) refl
    | inr other ↦ elim (Option-cases (index_of id keys)) [
      | inl missing ↦
          let e : none ≡ o = rw (other, missing) at h in
          rw (← e, other) (get_elem?-find_id id keys none missing)
      | inr (i, found) ↦
          let e : some (suc i) ≡ o = rw (other, found) at h in
          rw (← e, other) (get_elem?-find_id id keys (some i) found)
    ]
  ]

  previous-placed_at :
      (now : Time) (input : KeyConfig fl) (keys : List (KeyConfig fl)) (o : Option ℕ)
      → (placed_at now input keys o).2 ≡ elim o [ none ↦ none | some i ↦ get_elem? keys i ]
  unfolding placed_at
  previous-placed_at now input keys none = refl
  previous-placed_at now input keys (some i) = refl

  find_id-map :
      (id : String) (m : Dict String (KeyConfig fl))
      → All IsOwn m
      → find_id id (map (λ (e : String × KeyConfig fl). e.1) m) ≡ get id m
  unfolding find_id get
  find_id-map id [] h = refl
  find_id-map id ((j, k) ∷ m) h = rw (h.0, find_id-map id m h.1) refl

  map_own :
      (m : Dict String (KeyConfig fl))
      → All IsOwn m
      → map (λ (e : String × KeyConfig fl). (e.1.id, e.1)) m ≡ m
  map_own [] h = refl
  map_own ((j, k) ∷ m) h = rw (map_own m h.1) (ap (λ i. (i, k) ∷ m) h.0)

  -- the key that a mutation finds is the one that the store has under the id
  pub previous-placed :
      (now : Time) (input : KeyConfig fl) (s : Store fl)
      → HasDistinctKeys s.keys
      → All (λ (e : String × KeyConfig fl). e.1.id ≡ e.0) s.keys
      → (placed now input (keys_snapshot s)).2 ≡ get input.id s.keys
  unfolding placed keys_snapshot
  previous-placed now input s distinct own =
      let keys = keys_snapshot s in
      previous-placed_at now input keys (index_of input.id keys)
      ∙ sym (get_elem?-find_id input.id keys (index_of input.id keys) refl)
      ∙ ap (λ m. find_id input.id (map (λ (e : String × KeyConfig fl). e.1) (sort_by_name m)))
          (map_own s.keys own)
      ∙ find_id-map input.id (sort_by_name s.keys) (All-sort_by_name IsOwn s.keys own)
      ∙ get-sort_by_name input.id s.keys distinct
