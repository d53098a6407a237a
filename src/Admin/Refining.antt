-- ===== src/Admin/Refining.antt =====
-- The keys of a running instance as a function of ids, which forgets the order and the indexes in
-- which the code keeps them, and the operations of internal/policy/admin.go as changes of it.
use cpa_plugin_key_policy.Base.{
  ◌≡◌, ◌≢◌, refl, sym, ap, ◌∙◌, Bool, true, false, Option, none, some, is_some, String, string_eq,
  ◌==◌, if◌then◌else◌, All-implies, Bool-cases, inl, inr,
}
use cpa_plugin_key_policy.Base.Results.{Result, ok, err}
use cpa_plugin_key_policy.Dict.{get, get-put, get-remove}
use cpa_plugin_key_policy.Text.{trim_space}
use cpa_plugin_key_policy.Text.Trimming.{trim_space_idem}
use cpa_plugin_key_policy.Calendar.{Time}
use cpa_plugin_key_policy.Money.{Floats}
use cpa_plugin_key_policy.Price.Snapshot.{price_snapshot}
use cpa_plugin_key_policy.Store.{Library, KeyConfig, Store, find_by_id, hash_key}
use cpa_plugin_key_policy.Keys.Normal.{normal}
use cpa_plugin_key_policy.Admin.{
  AdminError, Instance, StateFile, keys_snapshot, rebuild_keys_by_hash, save_state,
}
use cpa_plugin_key_policy.Admin.Mutations.{
  Mutation, plan_mutation, publish, stamped, apply_planned, apply_key_mutation,
}
use cpa_plugin_key_policy.Admin.Planned.{plan_mutation-IsPlanned}
use cpa_plugin_key_policy.Admin.Operations.{
  audit_upsert, upsert_key, without, delete_saved, delete_written, delete_key, audit_rotation,
  rotate_found, rotate_key, reset_rpm,
}
use cpa_plugin_key_policy.Admin.Changes.{preview_key}
use cpa_plugin_key_policy.Admin.Operating.{
  Operation, upsert, delete, rotate, forget_rate, answered, run,
}
use cpa_plugin_key_policy.Admin.Coherence.{IsKept, IsCoherent}
use cpa_plugin_key_policy.Admin.Snapshot.{previous-placed}

-- the keys as a function of their ids
abbrev pub Keys : Floats → Type 0
Keys fl = String → Option (KeyConfig fl)

find_by_id_trimmed :
    {fl : Floats} (id : String) (s : Store fl)
    → trim_space id ≡ id
    → (id == "") ≡ false
    → find_by_id id s ≡ get id s.keys
unfolding find_by_id
find_by_id_trimmed id s trimmed other = rw (trimmed, other) refl

module _ {fl : Floats} (lib : Library) (dataset_id : String) (now : Time) where
  -- the keys with one written over what stands under its id
  abbrev pub with_written : KeyConfig fl → Keys fl → Keys fl
  with_written key keys id = if key.id == id then some key else keys id

  abbrev pub with_deleted : String → Keys fl → Keys fl
  with_deleted deleted keys id = if deleted == id then none else keys id

  -- a written key as it is kept: its texts and mode made normal, the instant of its creation that of
  -- the key before, where there is one, and the instant of its change now
  abbrev pub kept : Keys fl → KeyConfig fl → KeyConfig fl
  kept keys input =
      let own = record input { id = trim_space input.id } in
      normal fl lib.lower (stamped now (keys own.id) own)

  -- What an operation that is answered without an error makes of the keys.
  abbrev pub Refines : Operation fl → Keys fl → Keys fl → Type 0
  Refines (upsert _ input) keys keys' =
      (id : String) → keys' id ≡ with_written (kept keys input) keys id
  Refines (delete _ _ _ raw) keys keys' =
      (keys (trim_space raw) ≢ none)
      × ((id : String) → keys' id ≡ with_deleted (trim_space raw) keys id)
  Refines (rotate _ plain raw) keys keys' =
      (secret : String) × (hash : String) × (key : KeyConfig fl) × (plain ≡ some secret)
      × (hash_key lib secret ≡ some hash)
      × (keys (trim_space raw) ≡ some key)
      × ((id : String)
          → keys' id
            ≡ with_written
                (kept keys (record key { key_hash = hash; key_preview = preview_key secret })) keys
                id)
  Refines (forget_rate _) keys keys' = (id : String) → keys' id ≡ keys id

  abbrev view : Instance fl → Keys fl
  view i id = get id i.store.keys

  abbrev Refined : Operation fl → Instance fl → Instance fl × Result AdminError (Unit {0}) → Type 0
  Refined op i (i', ok _) = Refines op (view i) (view i')
  Refined op i (i', err e) = Unit

  -- the key that a mutation stores
  pub stored-kept :
      (writable : Bool) (input : KeyConfig fl) (m : Mutation fl) (s : Store fl)
      → IsCoherent lib s
      → plan_mutation lib dataset_id writable now input s ≡ ok m
      → m.stored ≡ kept (λ id. get id s.keys) input
  stored-kept writable input m s c h =
      let own = record input { id = trim_space input.id } in
      let p = plan_mutation-IsPlanned lib dataset_id writable now input s m h in
      let owned =
        All-implies (λ (e : String × KeyConfig fl). IsKept e.0 e.1)
          (λ (e : String × KeyConfig fl). e.1.id ≡ e.0) (λ e k. k.own_id) s.keys c.kept in
      let found = previous-placed now own s c.distinct owned in
      p.stored ∙ ap (λ o. normal fl lib.lower (stamped now o own)) (p.previous ∙ found)

  published-Refined :
      (writable : Bool) (input : KeyConfig fl) (m : Mutation fl) (s : Store fl)
      → IsCoherent lib s
      → plan_mutation lib dataset_id writable now input s ≡ ok m
      → (id : String)
      → get id (publish lib.lower now m.stored s).keys
        ≡ with_written (kept (λ id. get id s.keys) input) (λ id. get id s.keys) id
  unfolding publish rebuild_keys_by_hash
  published-Refined writable input m s c h id =
      let keys = λ (id : String). get id s.keys in
      get-put m.stored.id id m.stored s.keys
      ∙ ap (λ (k : KeyConfig fl). if k.id == id then some k else keys id)
          (stored-kept writable input m s c h)

  upsert-Refined :
      (writable : Bool) (input : KeyConfig fl) (i : Instance fl)
      → IsCoherent lib i.store
      → Refined (upsert writable input) i (upsert_key lib dataset_id writable now input i)
  unfolding upsert_key apply_key_mutation apply_planned audit_upsert
  upsert-Refined writable input i c =
      by_plan (plan_mutation lib dataset_id writable now input i.store) refl
    where
      by_plan :
          (r : Result AdminError (Mutation fl))
          → plan_mutation lib dataset_id writable now input i.store ≡ r
          → Refined (upsert writable input) i (audit_upsert (apply_planned lib.lower now i r))
      by_plan (err e) h = tt
      by_plan (ok m) h = published-Refined writable input m i.store c h

  delete-Refined :
      (writable history_ok live_ok : Bool) (raw : String) (i : Instance fl)
      → Refined
          (delete writable history_ok live_ok raw)
          i
          (delete_key lib dataset_id writable history_ok live_ok now raw i)
  unfolding delete_key delete_written delete_saved rebuild_keys_by_hash
  delete-Refined writable history_ok live_ok raw i = elim (Bool-cases (trim_space raw == "")) [
    | inl blank ↦ rw blank tt
    | inr id ↦ elim (Bool-cases (is_some (get (trim_space raw) i.store.keys))) [
      | inl known ↦
          rw (id, known)
            (by_write known (
              save_state lib.lower dataset_id writable
                (without (trim_space raw) (keys_snapshot i.store))
                (price_snapshot lib.lower i.store.prices)))
      | inr unknown ↦ rw (id, unknown) tt
    ]
  ]
    where
      by_write :
          is_some (get (trim_space raw) i.store.keys) ≡ true
          → (r : Result AdminError (StateFile fl))
          → Refined
              (delete writable history_ok live_ok raw)
              i
              (delete_written lib dataset_id history_ok live_ok now (trim_space raw) i r)
      by_write known (err e) = tt
      by_write known (ok file) = (
        λ e. let h : false ≡ true = rw e at known in cc,
        λ id. get-remove (trim_space raw) id i.store.keys,
      )

  rotate-Refined :
      (writable : Bool) (plain : Option String) (raw : String) (i : Instance fl)
      → IsCoherent lib i.store
      → Refined
          (rotate writable plain raw)
          i
          (answered lib dataset_id (rotate_key lib dataset_id writable now plain raw i))
  unfolding answered rotate_key rotate_found apply_key_mutation apply_planned audit_rotation
  rotate-Refined writable none raw i c = tt
  rotate-Refined writable (some plain) raw i c = elim (Bool-cases (trim_space raw == "")) [
    | inl blank ↦ rw blank tt
    | inr id ↦ rw id (
        by_key (hash_key lib plain) refl (find_by_id (trim_space raw) i.store)
          (find_by_id_trimmed (trim_space raw) i.store (trim_space_idem raw) id))
  ]
    where
      by_plan :
          (hash : String) (key : KeyConfig fl)
          → hash_key lib plain ≡ some hash
          → get (trim_space raw) i.store.keys ≡ some key
          → let input = record key { key_hash = hash; key_preview = preview_key plain } in
            (r : Result AdminError (Mutation fl))
            → plan_mutation lib dataset_id writable now input i.store ≡ r
            → Refined (rotate writable (some plain) raw) i (
                answered lib dataset_id
                  (audit_rotation (trim_space raw) plain (apply_planned lib.lower now i r)))
      by_plan hash key hashed found (err e) h = tt
      by_plan hash key hashed found (ok m) h =
          let input = record key { key_hash = hash; key_preview = preview_key plain } in
          (plain, hash, key, refl, hashed, found, published-Refined writable input m i.store c h)

      by_key :
          (hash : Option String)
          → hash_key lib plain ≡ hash
          → (key : Option (KeyConfig fl)) → key ≡ get (trim_space raw) i.store.keys
          → Refined (rotate writable (some plain) raw) i (
              answered lib dataset_id
                (rotate_found lib dataset_id writable now plain (trim_space raw) hash key i))
      by_key none hashed key found = tt
      by_key (some hash) hashed none found = tt
      by_key (some hash) hashed (some key) found =
          let input = record key { key_hash = hash; key_preview = preview_key plain } in
          by_plan hash key hashed (sym found)
            (plan_mutation lib dataset_id writable now input i.store) refl

  reset_rpm-Refined : (id : String) (i : Instance fl) → Refined (forget_rate id) i (reset_rpm id i)
  unfolding reset_rpm
  reset_rpm-Refined id i = elim (Bool-cases (trim_space id == "")) [
    | inl blank ↦ rw blank tt
    | inr other ↦ rw other (λ id. refl)
  ]

  Refined-ok :
      (op : Operation fl) (i : Instance fl) (r : Instance fl × Result AdminError (Unit {0}))
      → Refined op i r
      → r.1 ≡ ok tt
      → Refines op (view i) (view r.0)
  Refined-ok op i (i', ok u) f h = f
  Refined-ok op i (i', err e) f h = absurd (cc)

  run-Refined :
      (op : Operation fl) (i : Instance fl)
      → IsCoherent lib i.store
      → Refined op i (run lib dataset_id now op i)
  unfolding run
  run-Refined (upsert writable input) i c = upsert-Refined writable input i c
  run-Refined (delete writable history_ok live_ok id) i c =
      delete-Refined writable history_ok live_ok id i
  run-Refined (rotate writable plain id) i c = rotate-Refined writable plain id i c
  run-Refined (forget_rate id) i c = reset_rpm-Refined id i

-- Seen as a map from ids to keys, an operation of the management that is answered without an error
-- does what it promises, where the keys and their index are coherent. An upsert puts the normal
-- form of its key, stamped with now and with the creation of the key before, under the key's
-- trimmed id; a deletion takes away a key that was there; a rotation writes the key that was there
-- with the hash and the preview of the secret that it drew; a reset of the rate changes no key. No
-- other id changes.
pub run-Refines :
    {fl : Floats} (lib : Library) (dataset_id : String) (now : Time) (op : Operation fl)
    (i : Instance fl)
    → IsCoherent lib i.store
    → (run lib dataset_id now op i).1 ≡ ok tt
    → Refines lib dataset_id now op
        (λ id. get id i.store.keys)
        (λ id. get id (run lib dataset_id now op i).0.store.keys)
run-Refines lib dataset_id now op i c h =
    Refined-ok lib dataset_id now op i (run lib dataset_id now op i)
      (run-Refined lib dataset_id now op i c) h
