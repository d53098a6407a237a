-- ===== src/Keys.antt =====
-- The keys of a configuration, a state file or a management write: `normalizeKeys`,
-- `uniqueSecrets` and `secretUnique` of internal/policy/config.go.
pub mod Normal
use cpa_plugin_key_policy.Base.{
  Bool, false, not, ◌||◌, ◌&&◌, List, [], ◌∷◌, String, string_eq, ◌==◌, if◌then◌else◌, any, Option,
  none, some,
}
use cpa_plugin_key_policy.Base.Results.{Result, ok, err, ◌>>=◌, ◌>>◌, refuse_if}
use Prim.Native.Char.{Char}
use cpa_plugin_key_policy.Text.{trim_space, to_lower}
use cpa_plugin_key_policy.Int64.{negative}
use cpa_plugin_key_policy.Money.{Floats}
use cpa_plugin_key_policy.Store.{KeyConfig}

-- the errors, with the id of the key that each names
pub data KeyError : Type 0 where
  id_required : KeyError
  duplicate_id negative_rpm negative_limit balance_key_limits bad_quota_mode : String → KeyError
  duplicate_key_hash : String → String → KeyError

module _ {fl : Floats} where
  abbrev pub has_negative_limit : KeyConfig fl → Bool
  has_negative_limit k =
      fl.lt k.daily_limit_usd (fl.of_int 0)
      || fl.lt k.weekly_limit_usd (fl.of_int 0)
      || fl.lt k.monthly_limit_usd (fl.of_int 0)

  abbrev pub has_limit : KeyConfig fl → Bool
  has_limit k =
      fl.lt (fl.of_int 0) k.daily_limit_usd
      || fl.lt (fl.of_int 0) k.weekly_limit_usd
      || fl.lt (fl.of_int 0) k.monthly_limit_usd

  -- a key with its texts trimmed
  unfoldable pub trimmed : KeyConfig fl → KeyConfig fl
  trimmed k = record k {
    id = trim_space k.id;
    name = trim_space k.name;
    key_hash = trim_space k.key_hash;
    key_preview = trim_space k.key_preview;
  }

module _ (fl : Floats) (lower : Char → Char) where
  -- the switch over the quota mode
  unfoldable pub check_mode : KeyConfig fl → Result KeyError (KeyConfig fl)
  check_mode k =
      let mode = to_lower lower (trim_space k.quota_mode) in
      if mode == "" || mode == "cycle"
      then ok (record k { quota_mode = "" })
      else if not (mode == "balance")
      then err (bad_quota_mode k.id)
      else if has_limit k
      then err (balance_key_limits k.id)
      else ok (record k { quota_mode = mode })

  -- one round of the loop, with the ids of the rounds before
  unfoldable pub normalize_key : List String → KeyConfig fl → Result KeyError (KeyConfig fl)
  unfolding trimmed check_mode
  normalize_key seen raw = do
    let k = trimmed raw
    refuse_if (k.id == "") id_required
    refuse_if (any (λ id. id == k.id) seen) (duplicate_id k.id)
    let named = record k { name = if k.name == "" then k.id else k.name }
    refuse_if (negative k.rpm) (negative_rpm k.id)
    refuse_if (has_negative_limit k) (negative_limit k.id)
    check_mode named

  unfoldable pub normalize_from :
      List String → List (KeyConfig fl) → Result KeyError (List (KeyConfig fl))
  unfolding normalize_key
  normalize_from seen [] = ok []
  normalize_from seen (raw ∷ raws) = do
    k ← normalize_key seen raw
    keys ← normalize_from (k.id ∷ seen) raws
    ok (k ∷ keys)

  -- `normalizeKeys`
  unfoldable pub normalize_keys : List (KeyConfig fl) → Result KeyError (List (KeyConfig fl))
  unfolding normalize_from
  normalize_keys keys = normalize_from [] keys

  -- the secret's hash as it is compared
  abbrev pub hash_of : KeyConfig fl → String
  hash_of k = to_lower lower (trim_space k.key_hash)

  -- the loop of `secretUnique`
  unfoldable pub other_with : String → String → List (KeyConfig fl) → Option String
  other_with id hash [] = none
  other_with id hash (k ∷ keys) =
      let rest = other_with id hash keys in
      if not (k.id == id) && hash_of k == hash then some k.id else rest

  -- `secretUnique`
  unfoldable pub secret_unique : List (KeyConfig fl) → KeyConfig fl → Option KeyError
  unfolding other_with
  secret_unique keys key =
      if hash_of key == "" then none else elim (other_with key.id (hash_of key) keys) [
        | none ↦ none
        | some other ↦ some (duplicate_key_hash key.id other)
      ]

  -- the loop of `uniqueSecrets`
  unfoldable pub unique_among : List (KeyConfig fl) → List (KeyConfig fl) → Option KeyError
  unfolding secret_unique
  unique_among keys [] = none
  unique_among keys (key ∷ rest) = elim (secret_unique keys key) [
    | some e ↦ some e
    | none ↦ unique_among keys rest
  ]

  -- `uniqueSecrets`
  unfoldable pub unique_secrets : List (KeyConfig fl) → Option KeyError
  unfolding unique_among
  unique_secrets keys = unique_among keys keys
