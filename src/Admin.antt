-- ===== src/Admin.antt =====
-- Management of keys: `UpsertKey`, `applyKeyMutation`, `keyChanges`, `DeleteKey`, `RotateKey` and
-- `ResetRPM` of internal/policy/admin.go, with `keysSnapshotLocked`, `rebuildKeysByHashLocked` and
-- `saveState` of internal/policy/store.go, `MarshalState` of internal/policy/persistence.go and
-- `PreviewKey` of internal/policy/keys.go. An operation reads one clock, is told which of its writes
-- succeed, and returns the instance with its answer.
pub mod Index
pub mod Mutations
pub mod Planned
pub mod Operating
pub mod Coherence
pub mod Snapshot
pub mod Refining
pub mod Placing
pub mod Secrets
pub mod Changes
pub mod Operations
pub mod Amounts
use cpa_plugin_key_policy.Base.{
  ℕ, zero, suc, ◌+◌, ◌-◌, Bool, true, false, not, ◌||◌, Option, none, some, get_or, is_some, List,
  [], ◌∷◌, ◌++◌, map, String, string_eq, nat_eq, ◌==◌, if◌then◌else◌, leb, ltb,
}
use cpa_plugin_key_policy.Base.Results.{Result, ok, err, ◌>>=◌, ◌>>◌, refuse_if}
use Prim.Native.Char.{Char}
use cpa_plugin_key_policy.Dict.{Dict, get, put, remove}
use cpa_plugin_key_policy.Text.{trim_space, to_lower, before, append}
use cpa_plugin_key_policy.Int64.{Int64}
use cpa_plugin_key_policy.Calendar.{Time}
use cpa_plugin_key_policy.Money.{Floats, usd}
use cpa_plugin_key_policy.Limiter.{reset}
use cpa_plugin_key_policy.Ledger.Periods.{KeyBirth, Forgotten, open_cycles, forget_key}
use cpa_plugin_key_policy.Persistence.{Files, flush_usage}
use cpa_plugin_key_policy.Price.{ModelPrice, TableResult, table, bad_table, normalize_model_prices}
use cpa_plugin_key_policy.Store.{Library, KeyConfig, Store, balance_mode, find_by_id, hash_key}
use cpa_plugin_key_policy.Keys.{KeyError, normalize_keys, secret_unique}

module _ {ℓ} {A : Type ℓ} where
  unfoldable pub insert_by_name : String → A → Dict String A → Dict String A
  insert_by_name id a [] = (id, a) ∷ []
  insert_by_name id a ((j, b) ∷ m) =
      let rest = insert_by_name id a m in
      if before id j then (id, a) ∷ (j, b) ∷ m else (j, b) ∷ rest

  -- `sort.Strings` or `sort.Slice` by a text, with what stands under it
  unfoldable pub sort_by_name : Dict String A → Dict String A
  unfolding insert_by_name
  sort_by_name [] = []
  sort_by_name ((id, a) ∷ m) = insert_by_name id a (sort_by_name m)

  abbrev pub get_elem? : List A → ℕ → Option A
  get_elem? [] i = none
  get_elem? (x ∷ xs) zero = some x
  get_elem? (x ∷ xs) (suc i) = get_elem? xs i

-- the value of an audited field
pub data Value (fl : Floats) : Type 0 where
  nothing : Value fl
  text : String → Value fl
  flag : Bool → Value fl
  number : Int64 → Value fl
  amount : fl.Float → Value fl
  instant : Time → Value fl

-- `audit.Event`, without its instant
pub record AuditEvent (fl : Floats) : Type 0 where
  pub action : String
  pub key_id : String
  pub changes : List (String × Value fl × Value fl)

-- what the state file holds, without its version and instant
pub record StateFile (fl : Floats) : Type 0 where
  pub dataset_id : String
  pub keys : List (KeyConfig fl)
  pub models : List (ModelPrice fl)

-- a running instance with the files that it owns; `audited` are the events given to its log
pub record Instance (fl : Floats) : Type 0 where
  pub store : Store fl
  pub state : Option (StateFile fl)
  pub files : Files
  pub audited : List (AuditEvent fl)

pub data AdminError : Type 0 where
  bad_key : KeyError → AdminError
  state_persist unknown_key id_missing no_random_key empty_key : AdminError

module _ {fl : Floats} where
  -- `keysSnapshotLocked`
  unfoldable pub keys_snapshot : Store fl → List (KeyConfig fl)
  unfolding sort_by_name
  keys_snapshot s =
      map (λ (e : String × KeyConfig fl). e.1)
        (sort_by_name (map (λ (e : String × KeyConfig fl). (e.1.id, e.1)) s.keys))

  -- one round of the loop of `rebuildKeysByHashLocked`
  unfoldable pub index_key :
      (Char → Char) → KeyConfig fl → Dict String (KeyConfig fl) → Dict String (KeyConfig fl)
  index_key lower key m =
      let hash = to_lower lower key.key_hash in
      if hash == "" || is_some (get hash m) then m else put hash key m

  unfoldable pub index_keys :
      (Char → Char)
      → Dict String (KeyConfig fl)
      → Dict String (KeyConfig fl)
      → Dict String (KeyConfig fl)
  unfolding index_key
  index_keys lower [] m = m
  index_keys lower ((id, key) ∷ keys) m = index_keys lower keys (index_key lower key m)

  -- `rebuildKeysByHashLocked`
  unfoldable pub rebuild_keys_by_hash : (Char → Char) → Store fl → Store fl
  unfolding index_keys sort_by_name
  rebuild_keys_by_hash lower s = record s {
    keys_by_hash = index_keys lower (sort_by_name s.keys) [];
  }

  -- `MarshalState`, none where it refuses what is to be written
  unfoldable pub marshal_state :
      (Char → Char) → String → List (KeyConfig fl) → List (ModelPrice fl) → Option (StateFile fl)
  marshal_state lower raw keys models =
      let dataset_id = trim_space raw in
      if dataset_id == "" then none else elim (normalize_keys fl lower keys) [
        | err e ↦ none
        | ok kept ↦ elim (normalize_model_prices fl lower models) [
          | bad_table e ↦ none
          | table t ↦ some (record { dataset_id = dataset_id; keys = kept; models = t.rows })
        ]
      ]

  -- `saveState`, with whether the file can be written
  unfoldable pub save_state :
      (Char → Char)
      → String
      → Bool
      → List (KeyConfig fl)
      → List (ModelPrice fl)
      → Result AdminError (StateFile fl)
  unfolding marshal_state
  save_state lower dataset_id writable keys models =
      elim (marshal_state lower dataset_id keys models) [
        | none ↦ err state_persist
        | some file ↦ if writable then ok file else err state_persist
      ]
