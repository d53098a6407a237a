-- ===== src/Admin/Operations.antt =====
-- The operations on keys of internal/policy/admin.go.
use cpa_plugin_key_policy.Base.{
  Bool, not, Option, none, some, is_some, List, [], ◌∷◌, ◌++◌, String, string_eq, nat_eq, ◌==◌,
  if◌then◌else◌,
}
use cpa_plugin_key_policy.Base.Results.{Result, ok, err}
use cpa_plugin_key_policy.Dict.{get, remove}
use cpa_plugin_key_policy.Text.{trim_space}
use cpa_plugin_key_policy.Calendar.{Time}
use cpa_plugin_key_policy.Money.{Floats, usd}
use cpa_plugin_key_policy.Limiter.{reset}
use cpa_plugin_key_policy.Ledger.Periods.{Forgotten, forget_key}
use cpa_plugin_key_policy.Persistence.{flush_usage}
use cpa_plugin_key_policy.Price.Snapshot.{price_snapshot}
use cpa_plugin_key_policy.Store.{Library, KeyConfig, find_by_id, hash_key}
use cpa_plugin_key_policy.Admin.{
  AdminError, unknown_key, id_missing, no_random_key, empty_key, Value, nothing, amount, AuditEvent,
  StateFile, Instance, keys_snapshot, rebuild_keys_by_hash, save_state,
}
use cpa_plugin_key_policy.Admin.Mutations.{Mutation, apply_key_mutation}
use cpa_plugin_key_policy.Admin.Changes.{key_changes, preview_key}

module _ {fl : Floats} where
  -- `recordAudit`
  abbrev record_audit : AuditEvent fl → Instance fl → Instance fl
  record_audit event i = record i { audited = i.audited ++ (event ∷ []) }

  -- the answer of `UpsertKey` from that of its mutation
  unfoldable pub audit_upsert :
      Instance fl × Result AdminError (Mutation fl) → Instance fl × Result AdminError (Unit {0})
  unfolding key_changes
  audit_upsert (i, err e) = (i, err e)
  audit_upsert (i, ok m) = (
    record_audit
        (record {
          action = if is_some m.previous then "update_key" else "create_key";
          key_id = m.stored.id;
          changes = key_changes m.previous m.stored;
        })
        i,
    ok tt,
  )

  -- `UpsertKey`
  unfoldable pub upsert_key :
      Library
      → String
      → Bool
      → Time
      → KeyConfig fl
      → Instance fl
      → Instance fl × Result AdminError (Unit {0})
  unfolding audit_upsert
  upsert_key lib dataset_id writable now input i =
      audit_upsert (apply_key_mutation lib dataset_id writable now input i)

  -- the keys but one
  unfoldable pub without : String → List (KeyConfig fl) → List (KeyConfig fl)
  without id [] = []
  without id (k ∷ keys) = let rest = without id keys in if k.id == id then rest else k ∷ rest

  deletion_changes : Forgotten → List (String × Value fl × Value fl)
  deletion_changes f =
      ("daily_usd", amount (usd fl f.daily), nothing)
      ∷ ("weekly_usd", amount (usd fl f.weekly), nothing)
      ∷ ("monthly_usd", amount (usd fl f.monthly), nothing)
      ∷ (if f.balance == 0 then [] else ("balance_usd", amount (usd fl f.balance), nothing) ∷ [])

  -- `DeleteKey` once the state file is written; the last flush may fail without an error
  unfoldable pub delete_saved :
      Library → String → Bool → Bool → Time → String → StateFile fl → Instance fl → Instance fl
  unfolding deletion_changes
  delete_saved lib dataset_id history_ok live_ok now id file i =
      let s = i.store in
      let kept = rebuild_keys_by_hash lib.lower (record s { keys = remove id s.keys }) in
      let (forgotten, what) = forget_key id now kept.usage in
      let (usage, files) =
        flush_usage dataset_id history_ok live_ok (λ l. l) now forgotten i.files in
      record {
        store = record kept { limiter = reset id kept.limiter; usage = usage };
        state = some file;
        files = files;
        audited =
            i.audited
            ++ (record { action = "delete_key"; key_id = id; changes = deletion_changes what }
                ∷ []);
      }

  unfoldable pub delete_written :
      Library
      → String
      → Bool
      → Bool
      → Time
      → String
      → Instance fl
      → Result AdminError (StateFile fl)
      → Instance fl × Result AdminError (Unit {0})
  unfolding delete_saved
  delete_written lib dataset_id history_ok live_ok now id i (err e) = (i, err e)
  delete_written lib dataset_id history_ok live_ok now id i (ok file) =
      (delete_saved lib dataset_id history_ok live_ok now id file i, ok tt)

  -- `DeleteKey`, with whether the state, history and live file can be written
  unfoldable pub delete_key :
      Library
      → String
      → Bool
      → Bool
      → Bool
      → Time
      → String
      → Instance fl
      → Instance fl × Result AdminError (Unit {0})
  unfolding without delete_written
  delete_key lib dataset_id writable history_ok live_ok now raw i =
      let id = trim_space raw in
      let s = i.store in
      let remaining = without id (keys_snapshot s) in
      if id == ""
      then (i, err id_missing)
      else if not (is_some (get id s.keys))
      then (i, err unknown_key)
      else delete_written lib dataset_id history_ok live_ok now id i
          (save_state lib.lower dataset_id writable remaining (price_snapshot lib.lower s.prices))

  -- the answer of `RotateKey` from that of its mutation
  unfoldable pub audit_rotation :
      String
      → String
      → Instance fl × Result AdminError (Mutation fl)
      → Instance fl × Result AdminError (String × KeyConfig fl)
  audit_rotation id plain (i, err e) = (i, err e)
  audit_rotation id plain (i, ok m) = (
    record_audit (record { action = "rotate_key"; key_id = id; changes = [] }) i,
    ok (plain, m.stored),
  )

  -- `RotateKey` once the key is drawn, with its hash and the key of the id
  unfoldable pub rotate_found :
      Library
      → String
      → Bool
      → Time
      → String
      → String
      → Option String
      → Option (KeyConfig fl)
      → Instance fl
      → Instance fl × Result AdminError (String × KeyConfig fl)
  unfolding audit_rotation preview_key
  rotate_found lib dataset_id writable now plain id none found i = (i, err empty_key)
  rotate_found lib dataset_id writable now plain id (some hash) none i = (i, err unknown_key)
  rotate_found lib dataset_id writable now plain id (some hash) (some key) i =
      audit_rotation id plain (
        apply_key_mutation lib dataset_id writable now
          (record key { key_hash = hash; key_preview = preview_key plain }) i)

  -- `RotateKey`, with the key that `GenerateKey` draws, none where it fails
  unfoldable pub rotate_key :
      Library
      → String
      → Bool
      → Time
      → Option String
      → String
      → Instance fl
      → Instance fl × Result AdminError (String × KeyConfig fl)
  unfolding rotate_found
  rotate_key lib dataset_id writable now none raw i =
      (i, err (if trim_space raw == "" then id_missing else no_random_key))
  rotate_key lib dataset_id writable now (some plain) raw i =
      let id = trim_space raw in
      if id == ""
      then (i, err id_missing)
      else rotate_found lib dataset_id writable now plain id (hash_key lib plain)
          (find_by_id id i.store) i

  -- `ResetRPM`
  unfoldable pub reset_rpm : String → Instance fl → Instance fl × Result AdminError (Unit {0})
  reset_rpm id i =
      if trim_space id == ""
      then (i, err id_missing)
      else (record i { store = record i.store { limiter = reset id i.store.limiter } }, ok tt)
