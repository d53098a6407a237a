-- ===== src/Admin/Mutations.antt =====
-- `applyKeyMutation` of internal/policy/admin.go: what a written key becomes, what is checked, and
-- what is published once the state file holds it.
use cpa_plugin_key_policy.Base.{
  ℕ, zero, suc, Bool, Option, none, some, get_or, List, [], ◌∷◌, ◌++◌, String, string_eq, nat_eq,
  ◌==◌, if◌then◌else◌,
}
use cpa_plugin_key_policy.Base.Results.{Result, ok, err, ◌>>=◌, ◌>>◌}
use Prim.Native.Char.{Char}
use cpa_plugin_key_policy.Dict.{put}
use cpa_plugin_key_policy.Text.{trim_space}
use cpa_plugin_key_policy.Calendar.{Time}
use cpa_plugin_key_policy.Money.{Floats}
use cpa_plugin_key_policy.Ledger.Periods.{KeyBirth, open_cycles}
use cpa_plugin_key_policy.Price.Snapshot.{price_snapshot}
use cpa_plugin_key_policy.Store.{Library, KeyConfig, Store}
use cpa_plugin_key_policy.Keys.{KeyError, normalize_keys, secret_unique}
use cpa_plugin_key_policy.Admin.{
  AdminError, bad_key, StateFile, Instance, get_elem?, keys_snapshot, rebuild_keys_by_hash,
  save_state,
}

unfoldable pub checked : Option KeyError → Result AdminError (Unit {0})
checked none = ok tt
checked (some e) = err (bad_key e)

-- what a mutation of a key writes and publishes
pub record Mutation (fl : Floats) : Type 0 where
  pub file : StateFile fl
  pub previous : Option (KeyConfig fl)
  pub stored : KeyConfig fl

module _ {fl : Floats} where
  -- the loop that looks for the key of an id, which is at an index if it is there
  unfoldable pub index_of : String → List (KeyConfig fl) → Option ℕ
  index_of id [] = none
  index_of id (k ∷ keys) =
      let rest = index_of id keys in
      if k.id == id then some 0 else elim rest [ none ↦ none | some i ↦ some (suc i) ]

  -- `keys[index] = key`
  abbrev pub set : List (KeyConfig fl) → ℕ → KeyConfig fl → List (KeyConfig fl)
  set [] i key = []
  set (k ∷ keys) zero key = key ∷ keys
  set (k ∷ keys) (suc i) key = k ∷ set keys i key

  -- `CreatedAt` and `UpdatedAt` of a key that is written
  unfoldable pub stamped : Time → Option (KeyConfig fl) → KeyConfig fl → KeyConfig fl
  stamped now previous input =
      let born : Time = elim previous [
        | none ↦ input.created_at
        | some p ↦ if p.created_at == 0 then input.created_at else p.created_at
      ] in
      record input { created_at = if born == 0 then now else born; updated_at = now }

  abbrev pub count_of : List (KeyConfig fl) → ℕ
  count_of [] = 0
  count_of (k ∷ keys) = suc (count_of keys)

  -- the keys with a written one among them, at the index of its id or at the end, with that index
  -- and the key before
  unfoldable pub placed_at :
      Time
      → KeyConfig fl
      → List (KeyConfig fl)
      → Option ℕ
      → List (KeyConfig fl) × ℕ × Option (KeyConfig fl)
  unfolding stamped
  placed_at now input keys none = (keys ++ (stamped now none input ∷ []), count_of keys, none)
  placed_at now input keys (some i) =
      let previous = get_elem? keys i in (set keys i (stamped now previous input), i, previous)

  unfoldable pub placed :
      Time → KeyConfig fl → List (KeyConfig fl) → List (KeyConfig fl) × ℕ × Option (KeyConfig fl)
  unfolding index_of placed_at
  placed now input keys = placed_at now input keys (index_of input.id keys)

  unfoldable pub with_keys :
      Result KeyError (List (KeyConfig fl)) → Result AdminError (List (KeyConfig fl))
  with_keys (err e) = err (bad_key e)
  with_keys (ok keys) = ok keys

  -- `applyKeyMutation` until the state file is written
  unfoldable pub plan_mutation :
      Library → String → Bool → Time → KeyConfig fl → Store fl → Result AdminError (Mutation fl)
  unfolding placed checked with_keys save_state
  plan_mutation lib dataset_id writable now input s = do
    let at = trim_space input.id
    let (raws, index, previous) = placed now (record input { id = at }) (keys_snapshot s)
    keys ← with_keys (normalize_keys fl lib.lower raws)
    let stored = get_or (get_elem? keys index) input
    checked (secret_unique fl lib.lower keys stored)
    file ← save_state lib.lower dataset_id writable keys (price_snapshot lib.lower s.prices)
    ok (record { file = file; previous = previous; stored = stored })

  -- what the ledger reads of a key
  abbrev pub birth : KeyConfig fl → KeyBirth
  birth key = record { id = key.id; created_at = key.created_at }

  -- the rest of `applyKeyMutation`: the periods first, then the key
  unfoldable pub publish : (Char → Char) → Time → KeyConfig fl → Store fl → Store fl
  unfolding rebuild_keys_by_hash
  publish lower now key s =
      rebuild_keys_by_hash lower
        (record s { usage = open_cycles (birth key) now s.usage; keys = put key.id key s.keys })

  unfoldable pub apply_planned :
      (Char → Char)
      → Time
      → Instance fl
      → Result AdminError (Mutation fl)
      → Instance fl × Result AdminError (Mutation fl)
  apply_planned lower now i (err e) = (i, err e)
  apply_planned lower now i (ok m) =
      (record i { store = publish lower now m.stored i.store; state = some m.file }, ok m)

  -- `applyKeyMutation`
  unfoldable pub apply_key_mutation :
      Library
      → String
      → Bool
      → Time
      → KeyConfig fl
      → Instance fl
      → Instance fl × Result AdminError (Mutation fl)
  unfolding apply_planned
  apply_key_mutation lib dataset_id writable now input i =
      apply_planned lib.lower now i (plan_mutation lib dataset_id writable now input i.store)
