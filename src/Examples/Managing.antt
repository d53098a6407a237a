-- ===== src/Examples/Managing.antt =====
-- The theorems on the management of keys at concrete values.
use cpa_plugin_key_policy.Base.{◌≡◌, ◌↔◌, refl, true, none, some, [], ◌∷◌, map, All, string_eq, inl}
use cpa_plugin_key_policy.Base.Results.{ok}
use cpa_plugin_key_policy.Dict.{get}
use cpa_plugin_key_policy.Text.{trim_space, to_lower, append}
use cpa_plugin_key_policy.Store.{KeyConfig, find_by_secret, hash_key}
use cpa_plugin_key_policy.Keys.{normalize_keys, secret_unique}
use cpa_plugin_key_policy.Keys.Normal.{normal, IsAcceptable, HasDistinctIds, normalize_keys-eq-ok}
use cpa_plugin_key_policy.Admin.{Instance, unknown_key, keys_snapshot, rebuild_keys_by_hash}
use cpa_plugin_key_policy.Admin.Index.{Found, rebuild_keys_by_hash-Found}
use cpa_plugin_key_policy.Admin.Operations.{upsert_key, delete_key}
use cpa_plugin_key_policy.Admin.Mutations.{apply_key_mutation, plan_mutation}
use cpa_plugin_key_policy.Price.Snapshot.{price_snapshot}
use cpa_plugin_key_policy.Price.{normalize_model_prices}
use cpa_plugin_key_policy.Admin.Operating.{Operation, upsert, delete, run}
use cpa_plugin_key_policy.Admin.Coherence.{
  IsCoherent, rebuilt-IsCoherent, run_refused, run_all, run_all-IsCoherent,
}
use cpa_plugin_key_policy.Admin.Refining.{kept, Refines, run-Refines}
use cpa_plugin_key_policy.Admin.Secrets.{find_by_secret-upsert_key}
use cpa_plugin_key_policy.Examples.{whole, lib, noon, client, store, texts_differ}

normalize_keys-eq-ok_example : (normalize_keys whole lib.lower (client ∷ []) ≡ ok (client ∷ [])) ↔ (
    (client ∷ [] ≡ map (normal whole lib.lower) (client ∷ []))
    × All (IsAcceptable whole lib.lower) (client ∷ [])
    × HasDistinctIds (map (normal whole lib.lower) (client ∷ [])))
normalize_keys-eq-ok_example = normalize_keys-eq-ok whole lib.lower (client ∷ []) (client ∷ [])

rebuild_keys_by_hash-Found_example :
    Found lib.lower "sha256:secret" store.keys
      (get "sha256:secret" (rebuild_keys_by_hash lib.lower store).keys_by_hash)
rebuild_keys_by_hash-Found_example =
    rebuild_keys_by_hash-Found lib.lower "sha256:secret" store
      (texts_differ "sha256:secret" "" refl)

abbrev managed : Instance whole
managed = record {
  store = rebuild_keys_by_hash lib.lower store;
  state = none;
  files = record { live = none; history = none };
  audited = [];
}

managed-IsCoherent : IsCoherent lib managed.store
unfolding trim_space
managed-IsCoherent =
    rebuilt-IsCoherent lib store (tt, tt)
      (
        record {
          own_id = refl;
          named = texts_differ "key" "" refl;
          trimmed_id = refl;
          trimmed_hash = refl;
          rated = refl;
          limited = refl;
          moded = inl refl;
        },
        tt,
      )

abbrev newcomer : KeyConfig whole
newcomer = record client { id = " new"; name = ""; key_hash = "sha256:other " }

abbrev creation : Operation whole
creation = upsert true newcomer

run_refused_example : (run lib "dataset" noon (delete true true true "missing") managed).0 ≡ managed
unfolding run delete_key trim_space get rebuild_keys_by_hash
run_refused_example =
    run_refused lib "dataset" noon (delete true true true "missing") managed unknown_key refl

run_all-IsCoherent_example :
    IsCoherent lib
      (run_all lib "dataset"
        ((noon, creation) ∷ (noon, delete true true true "key") ∷ [])
        managed).store
run_all-IsCoherent_example =
    run_all-IsCoherent lib "dataset" ((noon, creation) ∷ (noon, delete true true true "key") ∷ [])
      managed managed-IsCoherent

run-Refines_example :
    Refines lib "dataset" noon creation
      (λ id. get id managed.store.keys)
      (λ id. get id (run lib "dataset" noon creation managed).0.store.keys)
unfolding run upsert_key apply_key_mutation plan_mutation normalize_keys keys_snapshot
    rebuild_keys_by_hash trim_space to_lower secret_unique normalize_model_prices price_snapshot get
run-Refines_example = run-Refines lib "dataset" noon creation managed managed-IsCoherent refl

find_by_secret-upsert_key_example :
    find_by_secret lib "other" (upsert_key lib "dataset" true noon newcomer managed).0.store
    ≡ some (kept lib "dataset" noon (λ id. get id managed.store.keys) newcomer)
unfolding upsert_key apply_key_mutation plan_mutation normalize_keys keys_snapshot
    rebuild_keys_by_hash trim_space to_lower secret_unique normalize_model_prices price_snapshot get
    hash_key append
find_by_secret-upsert_key_example =
    find_by_secret-upsert_key lib "dataset" true noon newcomer managed "other" "sha256:other"
      managed-IsCoherent refl refl refl (texts_differ "sha256:other" "" refl)
