-- ===== src/Admin/Operating.antt =====
-- The operations on keys of internal/policy/admin.go as steps of a running instance: which of them
-- change it, and what holds of its keys however they follow one another.
use cpa_plugin_key_policy.Base.{
  ◌≡◌, inl, inr, refl, Bool, Option, none, some, is_some, String, string_eq, ◌==◌, Bool-cases,
}
use cpa_plugin_key_policy.Base.Results.{Result, ok, err}
use cpa_plugin_key_policy.Dict.{get, remove}
use cpa_plugin_key_policy.Text.{trim_space}
use cpa_plugin_key_policy.Calendar.{Time}
use cpa_plugin_key_policy.Money.{Floats}
use cpa_plugin_key_policy.Limiter.{RateLimiter, reset}
use cpa_plugin_key_policy.Ledger.{Ledger}
use cpa_plugin_key_policy.Price.Snapshot.{price_snapshot}
use cpa_plugin_key_policy.Store.{Library, KeyConfig, Store, find_by_id, hash_key}
use cpa_plugin_key_policy.Admin.{
  AdminError, Instance, StateFile, keys_snapshot, rebuild_keys_by_hash, save_state,
}
use cpa_plugin_key_policy.Admin.Mutations.{
  Mutation, plan_mutation, publish, apply_planned, apply_key_mutation,
}
use cpa_plugin_key_policy.Admin.Planned.{IsPlanned, plan_mutation-IsPlanned}
use cpa_plugin_key_policy.Admin.Operations.{
  audit_upsert, upsert_key, without, delete_saved, delete_written, delete_key, rotate_found,
  audit_rotation, rotate_key, reset_rpm,
}
use cpa_plugin_key_policy.Admin.Changes.{preview_key}

-- an operation, with its arguments and with which of its writes succeed
pub data Operation (fl : Floats) : Type 0 where
  upsert : Bool → KeyConfig fl → Operation fl
  delete : Bool → Bool → Bool → String → Operation fl
  rotate : Bool → Option String → String → Operation fl
  forget_rate : String → Operation fl

module _ {fl : Floats} (lib : Library) (dataset_id : String) where
  unfoldable pub answered :
      Instance fl × Result AdminError (String × KeyConfig fl)
      → Instance fl × Result AdminError (Unit {0})
  answered (i, ok _) = (i, ok tt)
  answered (i, err e) = (i, err e)

  unfoldable pub run :
      Time → Operation fl → Instance fl → Instance fl × Result AdminError (Unit {0})
  unfolding answered
  run now (upsert writable input) i = upsert_key lib dataset_id writable now input i
  run now (delete writable history_ok live_ok id) i =
      delete_key lib dataset_id writable history_ok live_ok now id i
  run now (rotate writable plain id) i =
      answered (rotate_key lib dataset_id writable now plain id i)
  run now (forget_rate id) i = reset_rpm id i

  -- what an operation makes of the store
  pub data Change (now : Time) (s : Store fl) : Store fl → Type 0 where
    same : Change now s s
    published :
        (writable : Bool) (input : KeyConfig fl) (m : Mutation fl)
        → IsPlanned lib dataset_id writable now input s m
        → Change now s (publish lib.lower now m.stored s)
    removed :
        (id : String) (l : RateLimiter) (usage : Ledger)
        → Change now s
            (record (rebuild_keys_by_hash lib.lower (record s { keys = remove id s.keys })) {
              limiter = l;
              usage = usage;
            })
    rate_changed : (l : RateLimiter) → Change now s (record s { limiter = l })

  -- an operation that is refused leaves the whole instance, and one that is not changes its store
  abbrev pub Ran : Time → Instance fl → Instance fl × Result AdminError (Unit {0}) → Type 0
  Ran now i (i', ok _) = Change now i.store i'.store
  Ran now i (i', err e) = i' ≡ i

  upsert-Ran :
      (writable : Bool) (now : Time) (input : KeyConfig fl) (i : Instance fl)
      → Ran now i (upsert_key lib dataset_id writable now input i)
  unfolding upsert_key apply_key_mutation apply_planned audit_upsert
  upsert-Ran writable now input i =
      by_plan (plan_mutation lib dataset_id writable now input i.store) refl
    where
      by_plan :
          (r : Result AdminError (Mutation fl))
          → plan_mutation lib dataset_id writable now input i.store ≡ r
          → Ran now i (audit_upsert (apply_planned lib.lower now i r))
      by_plan (err e) h = refl
      by_plan (ok m) h =
          published writable (record input { id = trim_space input.id }) m
            (plan_mutation-IsPlanned lib dataset_id writable now input i.store m h)

  delete-Ran :
      (writable history_ok live_ok : Bool) (now : Time) (raw : String) (i : Instance fl)
      → Ran now i (delete_key lib dataset_id writable history_ok live_ok now raw i)
  unfolding delete_key delete_written delete_saved
  delete-Ran writable history_ok live_ok now raw i = elim (Bool-cases (trim_space raw == "")) [
    | inl blank ↦ rw blank refl
    | inr id ↦ elim (Bool-cases (is_some (get (trim_space raw) i.store.keys))) [
      | inl known ↦
          rw (id, known)
            (by_write (
              save_state lib.lower dataset_id writable
                (without (trim_space raw) (keys_snapshot i.store))
                (price_snapshot lib.lower i.store.prices)))
      | inr unknown ↦ rw (id, unknown) refl
    ]
  ]
    where
      by_write :
          (r : Result AdminError (StateFile fl))
          → Ran now i (delete_written lib dataset_id history_ok live_ok now (trim_space raw) i r)
      by_write (err e) = refl
      by_write (ok file) = removed (trim_space raw) _ _

  rotate-Ran :
      (writable : Bool) (now : Time) (plain : Option String) (raw : String) (i : Instance fl)
      → Ran now i (answered (rotate_key lib dataset_id writable now plain raw i))
  unfolding answered rotate_key rotate_found apply_key_mutation apply_planned audit_rotation
  rotate-Ran writable now none raw i = refl
  rotate-Ran writable now (some plain) raw i = elim (Bool-cases (trim_space raw == "")) [
    | inl blank ↦ rw blank refl
    | inr id ↦ rw id (by_key (hash_key lib plain) (find_by_id (trim_space raw) i.store))
  ]
    where
      by_plan :
          (input : KeyConfig fl) (r : Result AdminError (Mutation fl))
          → plan_mutation lib dataset_id writable now input i.store ≡ r
          → Ran now i
              (answered (audit_rotation (trim_space raw) plain (apply_planned lib.lower now i r)))
      by_plan input (err e) h = refl
      by_plan input (ok m) h =
          published writable (record input { id = trim_space input.id }) m
            (plan_mutation-IsPlanned lib dataset_id writable now input i.store m h)

      by_key :
          (hash : Option String) (key : Option (KeyConfig fl))
          → Ran now i (
              answered (rotate_found lib dataset_id writable now plain (trim_space raw) hash key i))
      by_key none key = refl
      by_key (some hash) none = refl
      by_key (some hash) (some key) =
          let input = record key { key_hash = hash; key_preview = preview_key plain } in
          by_plan input (plan_mutation lib dataset_id writable now input i.store) refl

  reset_rpm-Ran : (now : Time) (id : String) (i : Instance fl) → Ran now i (reset_rpm id i)
  unfolding reset_rpm
  reset_rpm-Ran now id i = elim (Bool-cases (trim_space id == "")) [
    | inl blank ↦ rw blank refl
    | inr other ↦ rw other (rate_changed (reset id i.store.limiter))
  ]

  pub run-Ran : (now : Time) (op : Operation fl) (i : Instance fl) → Ran now i (run now op i)
  unfolding run
  run-Ran now (upsert writable input) i = upsert-Ran writable now input i
  run-Ran now (delete writable history_ok live_ok id) i =
      delete-Ran writable history_ok live_ok now id i
  run-Ran now (rotate writable plain id) i = rotate-Ran writable now plain id i
  run-Ran now (forget_rate id) i = reset_rpm-Ran now id i
