-- ===== src/Admin/Coherence.antt =====
-- What holds of the keys of a running instance however the operations of internal/policy/admin.go
-- follow one another.
use cpa_plugin_key_policy.Base.{
  ◌≡◌, ◌≢◌, ◌⊎◌, inl, inr, refl, false, List, [], ◌∷◌, String, string_eq, All,
}
use cpa_plugin_key_policy.Base.Results.{Result, ok, err}
use cpa_plugin_key_policy.Dict.{get, put, remove}
use cpa_plugin_key_policy.Dict.Entries.{
  All-put, All-remove, HasDistinctKeys, put-HasDistinctKeys, remove-HasDistinctKeys,
}
use cpa_plugin_key_policy.Text.{trim_space}
use cpa_plugin_key_policy.Text.Trimming.{trim_space_idem}
use cpa_plugin_key_policy.Int64.{negative}
use cpa_plugin_key_policy.Calendar.{Time}
use cpa_plugin_key_policy.Money.{Floats}
use cpa_plugin_key_policy.Ledger.Periods.{open_cycles}
use cpa_plugin_key_policy.Store.{Library, KeyConfig, Store}
use cpa_plugin_key_policy.Keys.{has_negative_limit, has_limit}
use cpa_plugin_key_policy.Keys.Normal.{IsModed, mode_text, normal, IsAcceptable}
use cpa_plugin_key_policy.Admin.{AdminError, Instance, rebuild_keys_by_hash}
use cpa_plugin_key_policy.Admin.Index.{Found, rebuild_keys_by_hash-Found}
use cpa_plugin_key_policy.Admin.Mutations.{birth, publish, stamped}
use cpa_plugin_key_policy.Admin.Operating.{
  Operation, run, Change, same, published, removed, rate_changed, Ran, run-Ran,
}

-- a key that can be kept under an id
pub record IsKept {fl : Floats} (id : String) (key : KeyConfig fl) : Type 0 where
  pub own_id : key.id ≡ id
  pub named : key.id ≢ ""
  pub trimmed_id : trim_space key.id ≡ key.id
  pub trimmed_hash : trim_space key.key_hash ≡ key.key_hash
  pub rated : negative key.rpm ≡ false
  pub limited : has_negative_limit key ≡ false
  pub moded : (key.quota_mode ≡ "") ⊎ ((key.quota_mode ≡ "balance") × (has_limit key ≡ false))

module _ {fl : Floats} (lib : Library) where
  -- The keys are a map of valid keys, each under its own id, and the index of their hashes holds
  -- for each hash the key of the least id that has it.
  pub record IsCoherent (s : Store fl) : Type 0 where
    pub distinct : HasDistinctKeys s.keys
    pub kept : All (λ (e : String × KeyConfig fl). IsKept e.0 e.1) s.keys
    pub indexed :
        (hash : String) → hash ≢ "" → Found lib.lower hash s.keys (get hash s.keys_by_hash)

  kept_mode :
      (raw : KeyConfig fl)
      → IsModed (mode_text fl lib.lower raw) raw
      → let kept = normal fl lib.lower raw in
        (kept.quota_mode ≡ "") ⊎ ((kept.quota_mode ≡ "balance") × (has_limit kept ≡ false))
  kept_mode raw (inl (inl e)) = rw e (inl refl)
  kept_mode raw (inl (inr e)) = rw e (inl refl)
  kept_mode raw (inr (e, free)) = rw e (inr (refl, free))

  pub normal-IsKept :
      (raw : KeyConfig fl)
      → IsAcceptable fl lib.lower raw
      → IsKept (normal fl lib.lower raw).id (normal fl lib.lower raw)
  normal-IsKept raw a = record {
    own_id = refl;
    named = a.named;
    trimmed_id = trim_space_idem raw.id;
    trimmed_hash = trim_space_idem raw.key_hash;
    rated = a.rated;
    limited = a.limited;
    moded = kept_mode raw a.moded;
  }

  pub rebuilt-IsCoherent :
      (s : Store fl)
      → HasDistinctKeys s.keys
      → All (λ (e : String × KeyConfig fl). IsKept e.0 e.1) s.keys
      → IsCoherent (rebuild_keys_by_hash lib.lower s)
  unfolding rebuild_keys_by_hash
  rebuilt-IsCoherent s d k = record {
    distinct = d;
    kept = k;
    indexed = λ hash set. rebuild_keys_by_hash-Found lib.lower hash s set;
  }

  pub Change-IsCoherent :
      (dataset_id : String) (now : Time) {s s' : Store fl}
      → Change lib dataset_id now s s'
      → IsCoherent s
      → IsCoherent s'
  unfolding publish
  Change-IsCoherent dataset_id now same c = c
  Change-IsCoherent dataset_id now {s} (published writable input m p) c =
      let keeps : IsKept m.stored.id m.stored =
        rw p.stored (normal-IsKept (stamped now m.previous input) p.acceptable) in
      rebuilt-IsCoherent
        (record s {
          usage = open_cycles (birth m.stored) now s.usage;
          keys = put m.stored.id m.stored s.keys;
        })
        (put-HasDistinctKeys m.stored.id m.stored s.keys c.distinct)
        (All-put (λ (e : String × KeyConfig fl). IsKept e.0 e.1) m.stored.id m.stored s.keys keeps
          c.kept)
  Change-IsCoherent dataset_id now {s} (removed id l usage) c =
      let r =
        rebuilt-IsCoherent (record s { keys = remove id s.keys })
          (remove-HasDistinctKeys id s.keys c.distinct)
          (All-remove (λ (e : String × KeyConfig fl). IsKept e.0 e.1) id s.keys c.kept) in
      record { distinct = r.distinct; kept = r.kept; indexed = r.indexed }
  Change-IsCoherent dataset_id now (rate_changed l) c = record {
    distinct = c.distinct;
    kept = c.kept;
    indexed = c.indexed;
  }

module _ {fl : Floats} (lib : Library) (dataset_id : String) (now : Time) (i : Instance fl) where
  Ran-refused :
      (e : AdminError) (r : Instance fl × Result AdminError (Unit {0}))
      → Ran lib dataset_id now i r
      → r.1 ≡ err e
      → r.0 ≡ i
  Ran-refused e (i', ok u) ran h = absurd (cc)
  Ran-refused e (i', err e') ran h = ran

  Ran-IsCoherent :
      (r : Instance fl × Result AdminError (Unit {0}))
      → Ran lib dataset_id now i r
      → IsCoherent lib i.store
      → IsCoherent lib r.0.store
  Ran-IsCoherent (i', ok u) ran c = Change-IsCoherent lib dataset_id now ran c
  Ran-IsCoherent (i', err e) ran c = rw ran c

-- An upsert, a deletion, a rotation or a reset of the rate that is answered with an error, of
-- whatever kind, has changed nothing: the store, the state file, the usage files and the audit log
-- are as they were.
pub run_refused :
    {fl : Floats} (lib : Library) (dataset_id : String) (now : Time) (op : Operation fl)
    (i : Instance fl) (e : AdminError)
    → (run lib dataset_id now op i).1 ≡ err e
    → (run lib dataset_id now op i).0 ≡ i
run_refused lib dataset_id now op i e h =
    Ran-refused lib dataset_id now i e (run lib dataset_id now op i)
      (run-Ran lib dataset_id now op i) h

run-IsCoherent :
    {fl : Floats} (lib : Library) (dataset_id : String) (now : Time) (op : Operation fl)
    (i : Instance fl)
    → IsCoherent lib i.store
    → IsCoherent lib (run lib dataset_id now op i).0.store
run-IsCoherent lib dataset_id now op i c =
    Ran-IsCoherent lib dataset_id now i (run lib dataset_id now op i)
      (run-Ran lib dataset_id now op i) c

-- an instance after operations, each at an instant of its own
unfoldable pub run_all :
    {fl : Floats} → Library → String → List (Time × Operation fl) → Instance fl → Instance fl
run_all lib dataset_id [] i = i
run_all lib dataset_id ((now, op) ∷ ops) i =
    run_all lib dataset_id ops (run lib dataset_id now op i).0

-- However upserts, deletions, rotations and resets of the rate follow one another and whichever
-- writes fail, the keys of a coherent store stay coherent: no id has two keys, each key is valid
-- and stands under its own trimmed id, and the index finds for each hash that is not empty the key
-- of the least id that has it, or none where no key has it.
pub run_all-IsCoherent :
    {fl : Floats} (lib : Library) (dataset_id : String) (ops : List (Time × Operation fl))
    (i : Instance fl)
    → IsCoherent lib i.store
    → IsCoherent lib (run_all lib dataset_id ops i).store
unfolding run_all
run_all-IsCoherent lib dataset_id [] i c = c
run_all-IsCoherent lib dataset_id ((now, op) ∷ ops) i c =
    run_all-IsCoherent lib dataset_id ops (run lib dataset_id now op i).0
      (run-IsCoherent lib dataset_id now op i c)
