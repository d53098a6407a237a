-- ===== src/Admin/Index.antt =====
-- The index of keys by their secret's hash: `rebuildKeysByHashLocked` of internal/policy/store.go.
use cpa_plugin_key_policy.Base.{
  ◌≡◌, ◌≢◌, ◌⊎◌, inl, inr, refl, Bool, true, false, Option, none, some, [], ◌∷◌, String, string_eq,
  ◌==◌, if◌then◌else◌, All, All-implies, arith, Bool-cases,
}
use Prim.Native.Char.{Char}
use cpa_plugin_key_policy.Dict.{Dict, get, get-put}
use cpa_plugin_key_policy.Dict.Entries.{Has}
use cpa_plugin_key_policy.Text.{to_lower, before}
use cpa_plugin_key_policy.Text.Order.{before_asym, before_trans}
use cpa_plugin_key_policy.Money.{Floats}
use cpa_plugin_key_policy.Store.{KeyConfig, Store}
use cpa_plugin_key_policy.Admin.{
  insert_by_name, sort_by_name, index_key, index_keys, rebuild_keys_by_hash,
}

module _ {A : Type 0} where
  -- no entry comes before one that stands before it
  abbrev IsSorted : Dict String A → Type 0
  IsSorted [] = Unit
  IsSorted ((id, a) ∷ m) = All (λ (e : String × A). before e.0 id ≡ false) m × IsSorted m

  Has-insert_by_name :
      (e : String × A) (id : String) (a : A) (m : Dict String A)
      → Has e (insert_by_name id a m)
      → Has e ((id, a) ∷ m)
  unfolding insert_by_name
  Has-insert_by_name e id a [] h = h
  Has-insert_by_name e id a ((j, b) ∷ m) h = elim (Bool-cases (before id j)) [
    | inl first ↦ rw first at h
    | inr later ↦
        let h' : ((j, b) ≡ e) ⊎ Has e (insert_by_name id a m) = rw later at h in
        elim h' [
          | inl here ↦ inr (inl here)
          | inr there ↦ elim (Has-insert_by_name e id a m there) [
            | inl new ↦ inl new
            | inr old ↦ inr (inr old)
          ]
        ]
  ]

  Has-sort_by_name : (e : String × A) (m : Dict String A) → Has e (sort_by_name m) → Has e m
  unfolding sort_by_name
  Has-sort_by_name e [] h = h
  Has-sort_by_name e ((id, a) ∷ m) h = elim (Has-insert_by_name e id a (sort_by_name m) h) [
    | inl new ↦ inl new
    | inr old ↦ inr (Has-sort_by_name e m old)
  ]

  module _ (P : String × A → Type 0) where
    pub All-insert_by_name :
        (id : String) (a : A) (m : Dict String A)
        → P (id, a)
        → All P m
        → All P (insert_by_name id a m)
    unfolding insert_by_name
    All-insert_by_name id a [] p h = (p, tt)
    All-insert_by_name id a ((j, b) ∷ m) p h = elim (Bool-cases (before id j)) [
      | inl first ↦ rw first (p, h)
      | inr later ↦ rw later (h.0, All-insert_by_name id a m p h.1)
    ]

    All-inserted :
        (id : String) (a : A) (m : Dict String A)
        → All P (insert_by_name id a m)
        → P (id, a) × All P m
    unfolding insert_by_name
    All-inserted id a [] h = h
    All-inserted id a ((j, b) ∷ m) h = elim (Bool-cases (before id j)) [
      | inl first ↦ rw first at h
      | inr later ↦
          let h' : P (j, b) × All P (insert_by_name id a m) = rw later at h in
          let (new, old) = All-inserted id a m h'.1 in (new, (h'.0, old))
    ]

    pub All-sorted : (m : Dict String A) → All P (sort_by_name m) → All P m
    unfolding sort_by_name
    All-sorted [] h = h
    All-sorted ((id, a) ∷ m) h =
        let (new, old) = All-inserted id a (sort_by_name m) h in (new, All-sorted m old)

  All-after :
      (id j : String) (m : Dict String A)
      → before id j ≡ true
      → All (λ (e : String × A). before e.0 j ≡ false) m
      → All (λ (e : String × A). before e.0 id ≡ false) m
  All-after id j [] h k = tt
  All-after id j (e ∷ m) h k = (
    elim (Bool-cases (before e.0 id)) [
      | inl earlier ↦ absurd (ground (arith, k.0, before_trans e.0 id j earlier h))
      | inr no_earlier ↦ no_earlier
    ],
    All-after id j m h k.1,
  )

  insert_by_name-IsSorted :
      (id : String) (a : A) (m : Dict String A) → IsSorted m → IsSorted (insert_by_name id a m)
  unfolding insert_by_name
  insert_by_name-IsSorted id a [] h = (tt, tt)
  insert_by_name-IsSorted id a ((j, b) ∷ m) h = elim (Bool-cases (before id j)) [
    | inl first ↦ rw first ((before_asym id j first, All-after id j m first h.0), h)
    | inr later ↦ rw later (
      All-insert_by_name (λ (e : String × A). before e.0 j ≡ false) id a m later h.0,
      insert_by_name-IsSorted id a m h.1,
    )
  ]

  sort_by_name-IsSorted : (m : Dict String A) → IsSorted (sort_by_name m)
  unfolding sort_by_name
  sort_by_name-IsSorted [] = tt
  sort_by_name-IsSorted ((id, a) ∷ m) =
      insert_by_name-IsSorted id a (sort_by_name m) (sort_by_name-IsSorted m)

not_before : (id : String) → before id id ≡ false
not_before id = elim (Bool-cases (before id id)) [ inl h ↦ before_asym id id h | inr h ↦ h ]

-- What an index holds under a hash: nothing where no key has it, and else a key that has it, of the
-- least id among those that have it.
abbrev pub Found :
    {fl : Floats}
    → (Char → Char)
    → String
    → Dict String (KeyConfig fl)
    → Option (KeyConfig fl)
    → Type 0
Found {fl} lower hash keys none =
    All (λ (e : String × KeyConfig fl). to_lower lower e.1.key_hash ≢ hash) keys
Found {fl} lower hash keys (some key) =
    (id : String) × Has (id, key) keys
    × (to_lower lower key.key_hash ≡ hash)
    × All
        (λ (e : String × KeyConfig fl). to_lower lower e.1.key_hash ≡ hash → before e.0 id ≡ false)
        keys

module _ {fl : Floats} (lower : Char → Char) (hash : String) where
  abbrev Holds : String × KeyConfig fl → Type 0
  Holds e = to_lower lower e.1.key_hash ≡ hash

  first_with : Dict String (KeyConfig fl) → Option (KeyConfig fl)
  first_with [] = none
  first_with ((id, key) ∷ keys) =
      let rest = first_with keys in if to_lower lower key.key_hash == hash then some key else rest

  abbrev or_first : Option (KeyConfig fl) → Option (KeyConfig fl) → Option (KeyConfig fl)
  or_first (some key) other = some key
  or_first none other = other

  or_first-step :
      (x o : Option (KeyConfig fl)) (own : Bool) (key : KeyConfig fl)
      → or_first (or_first x (if own then some key else none)) o
        ≡ or_first x (if own then some key else o)
  or_first-step (some y) o own key = refl
  or_first-step none o true key = refl
  or_first-step none o false key = refl

  Found-skip :
      (id : String) (key : KeyConfig fl) (keys : Dict String (KeyConfig fl))
      → to_lower lower key.key_hash ≢ hash
      → (o : Option (KeyConfig fl)) → Found lower hash keys o
      → Found lower hash ((id, key) ∷ keys) o
  Found-skip id key keys other none f = (other, f)
  Found-skip id key keys other (some k) (i, has, own, least) =
      (i, inr has, own, ((λ same. absurd (other same)), least))

  get-index_key :
      (key : KeyConfig fl) (m : Dict String (KeyConfig fl))
      → hash ≢ ""
      → get hash (index_key lower key m)
        ≡ or_first (get hash m) (if to_lower lower key.key_hash == hash then some key else none)
  unfolding index_key
  get-index_key key m set =
      let own = to_lower lower key.key_hash in
      ground (arith, string_eq.same_iff own "", string_eq.same_iff own hash, get-put own hash key m)

  get-index_keys :
      (keys m : Dict String (KeyConfig fl))
      → hash ≢ ""
      → get hash (index_keys lower keys m) ≡ or_first (get hash m) (first_with keys)
  unfolding index_keys first_with
  get-index_keys [] m set = ground arith
  get-index_keys ((id, key) ∷ keys) m set =
      rw (get-index_keys keys (index_key lower key m) set, get-index_key key m set)
        (or_first-step (get hash m) (first_with keys) (to_lower lower key.key_hash == hash) key)

  first_with-Found :
      (keys : Dict String (KeyConfig fl)) → IsSorted keys → Found lower hash keys (first_with keys)
  unfolding first_with
  first_with-Found [] s = tt
  first_with-Found ((id, key) ∷ keys) s = elim (Bool-cases (to_lower lower key.key_hash == hash)) [
    | inl own ↦ rw own (
      id,
      inl refl,
      (string_eq.same_iff (to_lower lower key.key_hash) hash).0 own,
      (
        λ _. not_before id,
        All-implies (λ (e : String × KeyConfig fl). before e.0 id ≡ false)
            (λ (e : String × KeyConfig fl).
              to_lower lower e.1.key_hash ≡ hash → before e.0 id ≡ false)
            (λ e h _. h) keys s.0,
      ),
    )
    | inr other ↦ rw other (
        Found-skip id key keys
          (λ e. ground (arith, other, string_eq.same_iff (to_lower lower key.key_hash) hash))
          (first_with keys) (first_with-Found keys s.1))
  ]

  Found-sorted :
      (keys : Dict String (KeyConfig fl)) (o : Option (KeyConfig fl))
      → Found lower hash (sort_by_name keys) o
      → Found lower hash keys o
  Found-sorted keys none f =
      All-sorted (λ (e : String × KeyConfig fl). to_lower lower e.1.key_hash ≢ hash) keys f
  Found-sorted keys (some key) (id, has, own, least) = (
    id,
    Has-sort_by_name (id, key) keys has,
    own,
    All-sorted
        (λ (e : String × KeyConfig fl). to_lower lower e.1.key_hash ≡ hash → before e.0 id ≡ false)
        keys least,
  )

-- For a hash that is not empty, the rebuilt index of hashes finds a key that has it and whose id is
-- the least of those that do, or none where no key has it.
pub rebuild_keys_by_hash-Found :
    {fl : Floats} (lower : Char → Char) (hash : String) (s : Store fl)
    → hash ≢ ""
    → Found lower hash s.keys (get hash (rebuild_keys_by_hash lower s).keys_by_hash)
unfolding rebuild_keys_by_hash get
rebuild_keys_by_hash-Found lower hash s set =
    rw (get-index_keys lower hash (sort_by_name s.keys) [] set) (
      Found-sorted lower hash s.keys (first_with lower hash (sort_by_name s.keys))
        (first_with-Found lower hash (sort_by_name s.keys) (sort_by_name-IsSorted s.keys)))
