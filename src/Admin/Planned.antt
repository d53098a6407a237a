-- ===== src/Admin/Planned.antt =====
-- What `applyKeyMutation` of internal/policy/admin.go writes and publishes, once it refuses nothing.
use cpa_plugin_key_policy.Base.{
  ℕ, zero, suc, ◌≡◌, refl, Bool, Option, none, some, get_or, List, [], ◌∷◌, ◌++◌, map, String,
  string_eq, ◌==◌, All, arith, option_map, Bool-cases, Option-cases, inl, inr,
}
use cpa_plugin_key_policy.Base.Results.{Result, ok, err, ◌>>=◌, ◌>>◌, >>=-eq-ok}
use cpa_plugin_key_policy.Text.{trim_space}
use cpa_plugin_key_policy.Calendar.{Time}
use cpa_plugin_key_policy.Money.{Floats}
use cpa_plugin_key_policy.Price.Snapshot.{price_snapshot}
use cpa_plugin_key_policy.Store.{Library, KeyConfig, Store}
use cpa_plugin_key_policy.Keys.{KeyError, normalize_keys, secret_unique}
use cpa_plugin_key_policy.Keys.Normal.{normal, IsAcceptable, HasDistinctIds, normalize_keys-eq-ok}
use cpa_plugin_key_policy.Admin.{StateFile, get_elem?, keys_snapshot, save_state}
use cpa_plugin_key_policy.Admin.Mutations.{
  Mutation, index_of, set, stamped, count_of, placed, placed_at, checked, with_keys, plan_mutation,
}

module _ {fl : Floats} where
  get_elem?-append :
      (keys : List (KeyConfig fl)) (key : KeyConfig fl)
      → get_elem? (keys ++ (key ∷ [])) (count_of keys) ≡ some key
  get_elem?-append [] key = refl
  get_elem?-append (k ∷ keys) key = get_elem?-append keys key

  get_elem?-map :
      (f : KeyConfig fl → KeyConfig fl) (keys : List (KeyConfig fl)) (i : ℕ)
      → get_elem? (map f keys) i ≡ option_map f (get_elem? keys i)
  get_elem?-map f [] i = refl
  get_elem?-map f (k ∷ keys) zero = refl
  get_elem?-map f (k ∷ keys) (suc i) = get_elem?-map f keys i

  get_elem?-All :
      (P : KeyConfig fl → Type 0) (keys : List (KeyConfig fl)) (i : ℕ) (k : KeyConfig fl)
      → All P keys
      → get_elem? keys i ≡ some k
      → P k
  get_elem?-All P [] i k h e = absurd (cc)
  get_elem?-All P (j ∷ keys) zero k h e = let e' : j ≡ k = cc in rw (← e') h.0
  get_elem?-All P (j ∷ keys) (suc i) k h e = get_elem?-All P keys i k h.1 e

  get_elem?-index_of :
      (id : String) (keys : List (KeyConfig fl)) (i : ℕ) (key : KeyConfig fl)
      → index_of id keys ≡ some i
      → get_elem? (set keys i key) i ≡ some key
  unfolding index_of
  get_elem?-index_of id [] i key h = absurd (cc)
  get_elem?-index_of id (k ∷ keys) i key h = elim (Bool-cases (k.id == id)) [
    | inl here ↦ let h' : some 0 ≡ some i = rw here at h in let e : 0 ≡ i = cc in rw (← e) refl
    | inr other ↦ elim (Option-cases (index_of id keys)) [
      | inl missing ↦ absurd (let h' : none ≡ some i = rw (other, missing) at h in cc)
      | inr (j, found) ↦
          let h' : some (suc j) ≡ some i = rw (other, found) at h in
          let e : suc j ≡ i = cc in rw (← e) (get_elem?-index_of id keys j key found)
    ]
  ]

  -- the written key stands at its index
  get_elem?-placed :
      (now : Time) (input : KeyConfig fl) (keys : List (KeyConfig fl))
      → let (raws, index, previous) = placed now input keys in
        get_elem? raws index ≡ some (stamped now previous input)
  unfolding placed
  get_elem?-placed now input keys = at (index_of input.id keys) refl
    where
      at :
          (o : Option ℕ)
          → index_of input.id keys ≡ o
          → let (raws, index, previous) = placed_at now input keys o in
            get_elem? raws index ≡ some (stamped now previous input)
      at none e = get_elem?-append keys (stamped now none input)
      at (some i) e = get_elem?-index_of input.id keys i (stamped now (get_elem? keys i) input) e

  -- a mutation that is made: the key is the written one, made normal, and fits among the others
  pub record IsPlanned (lib : Library) (dataset_id : String) (writable : Bool) (now : Time)
      (input : KeyConfig fl) (s : Store fl) (m : Mutation fl) : Type 0 where
    pub previous : m.previous ≡ (placed now input (keys_snapshot s)).2
    pub stored : m.stored ≡ normal fl lib.lower (stamped now m.previous input)
    pub acceptable : IsAcceptable fl lib.lower (stamped now m.previous input)
    pub distinct : HasDistinctIds (map (normal fl lib.lower) (placed now input (keys_snapshot s)).0)
    pub unique :
        secret_unique fl lib.lower
          (map (normal fl lib.lower) (placed now input (keys_snapshot s)).0)
          m.stored
        ≡ none
    pub written :
        save_state lib.lower dataset_id writable
          (map (normal fl lib.lower) (placed now input (keys_snapshot s)).0)
          (price_snapshot lib.lower s.prices)
        ≡ ok m.file

  with_keys-eq-ok :
      (r : Result KeyError (List (KeyConfig fl))) (keys : List (KeyConfig fl))
      → with_keys r ≡ ok keys
      → r ≡ ok keys
  unfolding with_keys
  with_keys-eq-ok (ok x) keys h = ground arith
  with_keys-eq-ok (err e) keys h = absurd (cc)

checked-eq-ok : (o : Option KeyError) (u : Unit {0}) → checked o ≡ ok u → o ≡ none
unfolding checked
checked-eq-ok none u h = refl
checked-eq-ok (some e) u h = absurd (cc)

module _ {fl : Floats} (lib : Library) (dataset_id : String) (writable : Bool) (now : Time) where
  pub plan_mutation-IsPlanned :
      (input : KeyConfig fl) (s : Store fl) (m : Mutation fl)
      → plan_mutation lib dataset_id writable now input s ≡ ok m
      → IsPlanned lib dataset_id writable now (record input { id = trim_space input.id }) s m
  unfolding plan_mutation
  plan_mutation-IsPlanned input s m h =
      let own = record input { id = trim_space input.id } in
      let (raws, index, previous) = placed now own (keys_snapshot s) in
      let at = get_elem?-placed now own (keys_snapshot s) in
      let saved = λ (keys : List (KeyConfig fl)).
        save_state lib.lower dataset_id writable keys (price_snapshot lib.lower s.prices) in
      let stored = λ (keys : List (KeyConfig fl)). get_or (get_elem? keys index) input in
      let done = λ (keys : List (KeyConfig fl)) (file : StateFile fl).
        ok (record { file = file; previous = previous; stored = stored keys }) in
      let unique =
        λ (keys : List (KeyConfig fl)). checked (secret_unique fl lib.lower keys (stored keys)) in
      let (keys, hk, h1) =
        >>=-eq-ok (with_keys (normalize_keys fl lib.lower raws))
          (λ keys. unique keys >> (saved keys >>= done keys)) h in
      let (u, hu, h2) = >>=-eq-ok (unique keys) (λ _. saved keys >>= done keys) h1 in
      let (file, hf, h3) = >>=-eq-ok (saved keys) (done keys) h2 in
      let (same, fine, distinct) =
        (normalize_keys-eq-ok fl lib.lower raws keys).0
          (with_keys-eq-ok (normalize_keys fl lib.lower raws) keys hk) in
      let e : m ≡ record { file = file; previous = previous; stored = stored keys } = cc h3 in
      let at' : stored keys ≡ normal fl lib.lower (stamped now previous own) =
        rw (same, get_elem?-map (normal fl lib.lower) raws index, at) refl in
      rw e (record {
        previous = refl;
        stored = at';
        acceptable =
            get_elem?-All (IsAcceptable fl lib.lower) raws index (stamped now previous own) fine at;
        distinct = distinct;
        unique = rw (← same) (checked-eq-ok (secret_unique fl lib.lower keys (stored keys)) u hu);
        written = rw (← same) hf;
      })
