-- ===== src/Admin/Placing.antt =====
-- What holds of every key of a snapshot holds of every key of what a mutation makes of it, and which
-- secrets a key that passes `secretUnique` of internal/policy/config.go shares.
use cpa_plugin_key_policy.Base.{
  ℕ, suc, ◌≡◌, ◌≢◌, inl, inr, ap, true, false, not, ◌&&◌, Option, none, some, List, [], ◌∷◌, ◌++◌,
  map, String, string_eq, ◌==◌, All, All-implies, arith, Bool-cases, Option-cases,
}
use cpa_plugin_key_policy.Dict.{Dict, get}
use cpa_plugin_key_policy.Dict.Entries.{Has, HasDistinctKeys}
use Prim.Native.Char.{Char}
use cpa_plugin_key_policy.Calendar.{Time}
use cpa_plugin_key_policy.Money.{Floats}
use cpa_plugin_key_policy.Store.{KeyConfig, Store}
use cpa_plugin_key_policy.Keys.{duplicate_key_hash, hash_of, other_with, secret_unique}
use cpa_plugin_key_policy.Admin.{sort_by_name, keys_snapshot}
use cpa_plugin_key_policy.Admin.Index.{All-sorted}
use cpa_plugin_key_policy.Admin.Mutations.{index_of, set, stamped, placed_at}

module _ {fl : Floats} (lower : Char → Char) where
  pub other_with-none :
      (id hash : String) (keys : List (KeyConfig fl))
      → other_with fl lower id hash keys ≡ none
      → All (λ (k : KeyConfig fl). k.id ≢ id → hash_of fl lower k ≢ hash) keys
  unfolding other_with
  other_with-none id hash [] h = tt
  other_with-none id hash (k ∷ keys) h =
      elim (Bool-cases (not (k.id == id) && hash_of fl lower k == hash)) [
        | inl shared ↦ absurd (let h' : some k.id ≡ none = rw shared at h in cc)
        | inr apart ↦ (
          λ ne same. ground (
            arith,
            apart,
            ne,
            same,
            string_eq.same_iff k.id id,
            string_eq.same_iff (hash_of fl lower k) hash,
          ),
          other_with-none id hash keys (rw apart at h),
        )
      ]

module _ {fl : Floats} (P : KeyConfig fl → Type 0) where
  All-initial : (xs ys : List (KeyConfig fl)) → All P (xs ++ ys) → All P xs
  All-initial [] ys h = tt
  All-initial (x ∷ xs) ys h = (h.0, All-initial xs ys h.1)

  -- all but the key that is written over
  All-set :
      (id : String) (key : KeyConfig fl) (keys : List (KeyConfig fl)) (i : ℕ)
      → index_of id keys ≡ some i
      → All P (set keys i key)
      → All (λ (k : KeyConfig fl). k.id ≢ id → P k) keys
  unfolding index_of
  All-set id key [] i h a = tt
  All-set id key (k ∷ keys) i h a = elim (Bool-cases (k.id == id)) [
    | inl here ↦
        let h' : some 0 ≡ some i = rw here at h in
        let e : i ≡ 0 = cc in
        let a' : All P (key ∷ keys) = rw e at a in
        (
          λ ne. absurd (ne ((string_eq.same_iff k.id id).0 here)),
          All-implies P (λ (k : KeyConfig fl). k.id ≢ id → P k) (λ x p _. p) keys a'.1,
        )
    | inr other ↦ elim (Option-cases (index_of id keys)) [
      | inl missing ↦ absurd (let h' : none ≡ some i = rw (other, missing) at h in cc)
      | inr (j, found) ↦
          let h' : some (suc j) ≡ some i = rw (other, found) at h in
          let e : i ≡ suc j = cc in
          let a' : All P (k ∷ set keys j key) = rw e at a in
          (λ _. a'.0, All-set id key keys j found a'.1)
    ]
  ]

  pub All-placed_at :
      (now : Time) (input : KeyConfig fl) (keys : List (KeyConfig fl)) (o : Option ℕ)
      → index_of input.id keys ≡ o
      → All P (placed_at now input keys o).0
      → All (λ (k : KeyConfig fl). k.id ≢ input.id → P k) keys
  unfolding placed_at
  All-placed_at now input keys none h a =
      All-implies P (λ (k : KeyConfig fl). k.id ≢ input.id → P k) (λ x p _. p) keys
        (All-initial keys (stamped now none input ∷ []) a)
  All-placed_at now input keys (some i) h a = All-set input.id _ keys i h a

  pub All-map_key :
      (f : KeyConfig fl → KeyConfig fl) (keys : List (KeyConfig fl))
      → All P (map f keys)
      → All (λ (k : KeyConfig fl). P (f k)) keys
  All-map_key f [] h = tt
  All-map_key f (k ∷ keys) h = (h.0, All-map_key f keys h.1)

  All-values :
      (m : Dict String (KeyConfig fl))
      → All P (map (λ (e : String × KeyConfig fl). e.1) m)
      → All (λ (e : String × KeyConfig fl). P e.1) m
  All-values [] h = tt
  All-values (e ∷ m) h = (h.0, All-values m h.1)

  All-own :
      (m : Dict String (KeyConfig fl))
      → All
          (λ (e : String × KeyConfig fl). P e.1)
          (map (λ (e : String × KeyConfig fl). (e.1.id, e.1)) m)
      → All (λ (e : String × KeyConfig fl). P e.1) m
  All-own [] h = tt
  All-own (e ∷ m) h = (h.0, All-own m h.1)

  -- what holds of every key of a snapshot holds of every key of the store
  pub All-keys_snapshot :
      (s : Store fl) → All P (keys_snapshot s) → All (λ (e : String × KeyConfig fl). P e.1) s.keys
  unfolding keys_snapshot
  All-keys_snapshot s h =
      let own = map (λ (e : String × KeyConfig fl). (e.1.id, e.1)) s.keys in
      All-own s.keys
        (All-sorted (λ (e : String × KeyConfig fl). P e.1) own (All-values (sort_by_name own) h))

pub Has-All :
    {A : Type 0} (P : String × A → Type 0) (e : String × A) (m : Dict String A)
    → Has e m
    → All P m
    → P e
Has-All P e [] h a = absurd h
Has-All P e (x ∷ m) (inl eq) a = rw (← eq) a.0
Has-All P e (x ∷ m) (inr h) a = Has-All P e m h a.1

-- two values under one key of a map are one
pub Has-get :
    {A : Type 0} (id : String) (a b : A) (m : Dict String A)
    → HasDistinctKeys m
    → Has (id, a) m
    → get id m ≡ some b
    → a ≡ b
unfolding get
Has-get {A} id a b [] d h g = absurd h
Has-get {A} id a b ((j, c) ∷ m) d (inl e) g =
    let same : (j == id) ≡ true = (string_eq.same_iff j id).1 (ap (λ (p : String × A). p.0) e) in
    let value : c ≡ a = ap (λ (p : String × A). p.1) e in
    let g' : some c ≡ some b = rw same at g in cc
Has-get {A} id a b ((j, c) ∷ m) d (inr h) g = elim (Bool-cases (j == id)) [
  | inl same ↦
      absurd
        (Has-All (λ (e : String × A). j ≢ e.0) (id, a) m h d.0 ((string_eq.same_iff j id).0 same))
  | inr other ↦ Has-get id a b m d.1 h (rw other at g)
]

module _ {fl : Floats} (lower : Char → Char) where
  pub secret_unique-none :
      (keys : List (KeyConfig fl)) (key : KeyConfig fl)
      → hash_of fl lower key ≢ ""
      → secret_unique fl lower keys key ≡ none
      → other_with fl lower key.id (hash_of fl lower key) keys ≡ none
  unfolding secret_unique
  secret_unique-none keys key set h =
      let given : (hash_of fl lower key == "") ≡ false =
        ground (arith, set, string_eq.same_iff (hash_of fl lower key) "") in
      elim (Option-cases (other_with fl lower key.id (hash_of fl lower key) keys)) [
        | inl alone ↦ alone
        | inr (other, found) ↦
            absurd (
              let h' : some (duplicate_key_hash key.id other) ≡ none = rw (given, found) at h in cc)
      ]
