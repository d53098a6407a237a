-- ===== src/Admin/Secrets.antt =====
-- A secret belongs to one key: what `secretUnique` of internal/policy/config.go and the index of
-- internal/policy/store.go give a key that `UpsertKey` of internal/policy/admin.go writes.
use cpa_plugin_key_policy.Base.{
  ◌≡◌, ◌≢◌, inl, inr, refl, sym, ap, ◌∙◌, Bool, true, Option, none, some, map, String, string_eq,
  ◌==◌, All, All-implies, All-both, arith, Bool-cases,
}
use cpa_plugin_key_policy.Base.Results.{Result, ok, err}
use cpa_plugin_key_policy.Dict.{get, put, get-put_self}
use cpa_plugin_key_policy.Dict.Entries.{All-put, All-get, put-HasDistinctKeys}
use cpa_plugin_key_policy.Text.{trim_space, to_lower}
use cpa_plugin_key_policy.Text.Trimming.{trim_space_idem}
use cpa_plugin_key_policy.Calendar.{Time}
use cpa_plugin_key_policy.Money.{Floats}
use cpa_plugin_key_policy.Store.{Library, KeyConfig, Store, hash_key, find_by_secret}
use cpa_plugin_key_policy.Keys.{hash_of}
use cpa_plugin_key_policy.Keys.Normal.{normal}
use cpa_plugin_key_policy.Admin.{AdminError, Instance, keys_snapshot, rebuild_keys_by_hash}
use cpa_plugin_key_policy.Admin.Index.{Found}
use cpa_plugin_key_policy.Admin.Mutations.{
  Mutation, index_of, set, stamped, placed, plan_mutation, publish, apply_planned,
  apply_key_mutation,
}
use cpa_plugin_key_policy.Admin.Planned.{IsPlanned, plan_mutation-IsPlanned}
use cpa_plugin_key_policy.Admin.Operations.{audit_upsert, upsert_key}
use cpa_plugin_key_policy.Admin.Refining.{kept, stored-kept}
use cpa_plugin_key_policy.Admin.Operating.{published}
use cpa_plugin_key_policy.Admin.Coherence.{Change-IsCoherent, normal-IsKept, IsKept, IsCoherent}
use cpa_plugin_key_policy.Admin.Placing.{
  other_with-none, All-placed_at, All-map_key, All-keys_snapshot, Has-All, Has-get,
  secret_unique-none,
}

module _ {fl : Floats} (lib : Library) (dataset_id : String) (writable : Bool) (now : Time)
    (input : KeyConfig fl) (s : Store fl) (m : Mutation fl) (c : IsCoherent lib s)
    (p : IsPlanned lib dataset_id writable now input s m) (own : trim_space input.id ≡ input.id)
    (set : to_lower lib.lower m.stored.key_hash ≢ "") where
  stored-IsKept : IsKept m.stored.id m.stored
  stored-IsKept = rw p.stored (normal-IsKept lib (stamped now m.previous input) p.acceptable)

  stored_hash : hash_of fl lib.lower m.stored ≡ to_lower lib.lower m.stored.key_hash
  stored_hash = ap (to_lower lib.lower) stored-IsKept.trimmed_hash

  stored_id : m.stored.id ≡ input.id
  unfolding stamped
  stored_id = ap (λ (k : KeyConfig fl). k.id) p.stored ∙ own

  -- no other key has the secret of the written one
  abbrev Apart : String × KeyConfig fl → Type 0
  Apart e =
      e.1.id ≢ m.stored.id → to_lower lib.lower e.1.key_hash ≢ to_lower lib.lower m.stored.key_hash

  others-Apart : All Apart s.keys
  unfolding placed
  others-Apart =
      let keys = keys_snapshot s in
      let raws = (placed now input keys).0 in
      let Q = λ (k : KeyConfig fl).
        k.id ≢ m.stored.id → hash_of fl lib.lower k ≢ hash_of fl lib.lower m.stored in
      let alone =
        secret_unique-none lib.lower (map (normal fl lib.lower) raws) m.stored
          (λ e. set (sym stored_hash ∙ e)) p.unique in
      let all =
        other_with-none lib.lower m.stored.id (hash_of fl lib.lower m.stored)
          (map (normal fl lib.lower) raws) alone in
      let before =
        All-placed_at (λ k. Q (normal fl lib.lower k)) now input keys (index_of input.id keys) refl
          (All-map_key Q (normal fl lib.lower) raws all) in
      let found = All-keys_snapshot (λ k. k.id ≢ input.id → Q (normal fl lib.lower k)) s before in
      All-implies
        (λ (e : String × KeyConfig fl).
          IsKept e.0 e.1 × (e.1.id ≢ input.id → Q (normal fl lib.lower e.1)))
        Apart
        (λ e h ne same.
          h.1 (λ is_own. ne (is_own ∙ sym stored_id)) (λ is_own. ne (sym h.0.trimmed_id ∙ is_own))
            (ap (to_lower lib.lower) (trim_space_idem e.1.key_hash ∙ h.0.trimmed_hash)
              ∙ same
              ∙ sym stored_hash))
        s.keys
        (All-both (λ (e : String × KeyConfig fl). IsKept e.0 e.1)
          (λ (e : String × KeyConfig fl). e.1.id ≢ input.id → Q (normal fl lib.lower e.1)) s.keys
          c.kept found)

  -- the written key is the one that the index holds under its hash
  pub get-published :
      get (to_lower lib.lower m.stored.key_hash) (publish lib.lower now m.stored s).keys_by_hash
      ≡ some m.stored
  unfolding publish rebuild_keys_by_hash
  get-published =
      let hash = to_lower lib.lower m.stored.key_hash in
      let s' = publish lib.lower now m.stored s in
      let c' = Change-IsCoherent lib dataset_id now (published writable input m p) c in
      the_one (get hash s'.keys_by_hash) (c'.indexed hash set)
    where
      the_one :
          (o : Option (KeyConfig fl))
          → Found lib.lower
              (to_lower lib.lower m.stored.key_hash)
              (put m.stored.id m.stored s.keys)
              o
          → o ≡ some m.stored
      the_one none f = absurd (
          All-get
            (λ (e : String × KeyConfig fl).
              to_lower lib.lower e.1.key_hash ≢ to_lower lib.lower m.stored.key_hash)
            m.stored.id m.stored (put m.stored.id m.stored s.keys) f
            (get-put_self m.stored.id m.stored s.keys) refl)
      the_one (some k) (id, has, same_hash, least) =
          let keys' = put m.stored.id m.stored s.keys in
          let distinct' = put-HasDistinctKeys m.stored.id m.stored s.keys c.distinct in
          let kept' =
            All-put (λ (e : String × KeyConfig fl). IsKept e.0 e.1) m.stored.id m.stored s.keys
              stored-IsKept c.kept in
          let apart' =
            All-put Apart m.stored.id m.stored s.keys (λ ne. absurd (ne refl)) others-Apart in
          elim (Bool-cases (id == m.stored.id)) [
            | inl is_own ↦
                let e = (string_eq.same_iff id m.stored.id).0 is_own in
                ap some (
                  Has-get id k m.stored keys' distinct' has
                    (ap (λ i. get i keys') e ∙ get-put_self m.stored.id m.stored s.keys))
            | inr other ↦
                let k_id =
                  (Has-All (λ (e : String × KeyConfig fl). IsKept e.0 e.1) (id, k) keys' has
                    kept').own_id in
                absurd (
                  Has-All Apart (id, k) keys' has apart'
                    (λ e. ground (arith, string_eq.same_iff id m.stored.id, other, k_id, e))
                    same_hash)
          ]

-- the hash of a secret does not depend on the blanks round it
hash_key-trim_space :
    (lib : Library) (secret : String) → hash_key lib (trim_space secret) ≡ hash_key lib secret
unfolding hash_key
hash_key-trim_space lib secret = rw (trim_space_idem secret) refl

hash_key_blank :
    (lib : Library) (secret : String)
    → (trim_space secret == "") ≡ true
    → hash_key lib secret ≡ none
unfolding hash_key
hash_key_blank lib secret h = rw h refl

find_by_secret_lem :
    {fl : Floats} (lib : Library) (secret hash : String) (s : Store fl)
    → hash_key lib secret ≡ some hash
    → find_by_secret lib secret s ≡ get (to_lower lib.lower hash) s.keys_by_hash
unfolding find_by_secret
find_by_secret_lem lib secret hash s h = elim (Bool-cases (trim_space secret == "")) [
  | inl blank ↦ absurd (let e = hash_key_blank lib secret blank in cc)
  | inr given ↦ rw (given, hash_key-trim_space lib secret, h) refl
]

-- After an upsert of a key that is answered without an error, in a store whose keys are coherent, a
-- client's secret whose hash is that of the written key finds the written key and no other, where
-- that hash is not empty.
pub find_by_secret-upsert_key :
    {fl : Floats} (lib : Library) (dataset_id : String) (writable : Bool) (now : Time)
    (input : KeyConfig fl) (i : Instance fl) (secret hash : String)
    → IsCoherent lib i.store
    → (upsert_key lib dataset_id writable now input i).1 ≡ ok tt
    → let key = kept lib dataset_id now (λ id. get id i.store.keys) input in
      hash_key lib secret ≡ some hash
      → to_lower lib.lower hash ≡ to_lower lib.lower key.key_hash
      → to_lower lib.lower hash ≢ ""
      → find_by_secret lib secret (upsert_key lib dataset_id writable now input i).0.store
        ≡ some key
unfolding upsert_key apply_key_mutation apply_planned audit_upsert
find_by_secret-upsert_key {fl} lib dataset_id writable now input i secret hash c done hashed same
      set =
    by_plan (plan_mutation lib dataset_id writable now input i.store) refl done
  where
    by_plan :
        (r : Result AdminError (Mutation fl))
        → plan_mutation lib dataset_id writable now input i.store ≡ r
        → (audit_upsert (apply_planned lib.lower now i r)).1 ≡ ok tt
        → find_by_secret lib secret (audit_upsert (apply_planned lib.lower now i r)).0.store
          ≡ some (kept lib dataset_id now (λ id. get id i.store.keys) input)
    by_plan (err e) h done' = absurd (cc)
    by_plan (ok m) h done' =
        let own = record input { id = trim_space input.id } in
        let p = plan_mutation-IsPlanned lib dataset_id writable now input i.store m h in
        let e = stored-kept lib dataset_id now writable input m i.store c h in
        let hashes : to_lower lib.lower hash ≡ to_lower lib.lower m.stored.key_hash =
          same ∙ ap (λ (k : KeyConfig fl). to_lower lib.lower k.key_hash) (sym e) in
        find_by_secret_lem lib secret hash (publish lib.lower now m.stored i.store) hashed
        ∙ ap (λ t. get t (publish lib.lower now m.stored i.store).keys_by_hash) hashes
        ∙ get-published lib dataset_id writable now own i.store m c p (trim_space_idem input.id)
            (λ blank. set (hashes ∙ blank))
        ∙ ap some e
