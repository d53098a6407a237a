-- ===== src/Store.antt =====
-- The running policy: the part of `Store` of internal/policy/store.go that billing and admission
-- use, its key lookups, and the hashing of keys in internal/policy/keys.go. The locks of a `Store`
-- are not modelled: a method is a function of the state, and reads one clock.
use cpa_plugin_key_policy.Base.{
  Bool, true, false, not, ◌||◌, Option, none, some, List, [], ◌∷◌, ◌++◌, String, string_eq, ◌==◌,
  if◌then◌else◌, option_map,
}
use Prim.Native.Char.{Char}
use cpa_plugin_key_policy.Dict.{Dict, get}
use cpa_plugin_key_policy.Text.{trim_space, to_lower, append, has_prefix}
use cpa_plugin_key_policy.Int64.{Int64}
use cpa_plugin_key_policy.Calendar.{Time}
use cpa_plugin_key_policy.Bucket.{Bucket}
use cpa_plugin_key_policy.Ledger.{Ledger}
use cpa_plugin_key_policy.Limiter.{RateLimiter}
use cpa_plugin_key_policy.MediaTrace.{MediaTraceSet}
use cpa_plugin_key_policy.Money.{Floats}
use cpa_plugin_key_policy.Price.{PriceTable}

-- what the source calls of the standard library: unicode.ToLower and unicode.ToUpper on a
-- character, and the SHA-256 of a text in hexadecimal
pub record Library : Type 0 where
  pub lower : Char → Char
  pub upper : Char → Char
  pub digest : String → String

-- `HashPrefix`
abbrev pub hash_prefix : String
hash_prefix = "sha256:"

-- `HashKey`; its error is none
unfoldable pub hash_key : Library → String → Option String
hash_key lib raw =
    let key = trim_space raw in
    if key == "" then none else some (append hash_prefix (lib.digest key))

-- `MatchHash`
unfoldable pub match_hash : Library → String → String → Bool
unfolding hash_key
match_hash lib raw_key raw_hash =
    let key = trim_space raw_key in
    let hash = trim_space raw_hash in
    if key == "" || hash == "" || not (has_prefix hash_prefix hash)
    then false
    else elim (hash_key lib key) [ none ↦ false | some got ↦ got == hash ]

-- `KeyConfig`
pub record KeyConfig (fl : Floats) : Type 0 where
  pub id : String
  pub name : String
  pub enabled : Bool
  pub key_hash : String
  pub key_preview : String
  pub rpm : Int64
  pub daily_limit_usd : fl.Float
  pub weekly_limit_usd : fl.Float
  pub monthly_limit_usd : fl.Float
  pub quota_mode : String
  pub created_at : Time
  pub updated_at : Time

-- the counters of `Health`
pub record Health : Type 0 where
  pub skipped_failed : Int64
  pub ignored_unknown_key : Int64
  pub ignored_no_model : Int64
  pub invalid_usage : Int64
  pub clamped_tokens : Int64
  pub unmetered_per_call : Int64
  pub ignored_empty_usage : Int64
  pub unpriced_calls : Int64

-- the `handoffEntry` that billing and admission journal
pub data HandoffEntry : Type 0 where
  usage_entry : String → String → Bucket → Bool → Time → HandoffEntry
  trace_entry : String → Time → HandoffEntry

-- `Store`; `handoff` is the journal's entries from `Quiesce` until `Resume`
pub record Store (fl : Floats) : Type 0 where
  pub enabled : Bool
  pub keys : Dict String (KeyConfig fl)
  pub keys_by_hash : Dict String (KeyConfig fl)
  pub prices : PriceTable fl
  pub limiter : RateLimiter
  pub usage : Ledger
  pub media_traces : MediaTraceSet
  pub health : Health
  pub handoff : Option (List HandoffEntry)

module _ {fl : Floats} where
  -- `KeyConfig.BalanceMode`
  unfoldable pub balance_mode : KeyConfig fl → Bool
  balance_mode key = key.quota_mode == "balance"

  keyed_by : Library → Option String → Store fl → Option (KeyConfig fl)
  keyed_by lib none s = none
  keyed_by lib (some hash) s = get (to_lower lib.lower hash) s.keys_by_hash

  -- `findBySecret`
  unfoldable pub find_by_secret : Library → String → Store fl → Option (KeyConfig fl)
  unfolding keyed_by
  find_by_secret lib raw s =
      let secret = trim_space raw in
      if secret == "" then none else keyed_by lib (hash_key lib secret) s

  -- `findByID`
  unfoldable pub find_by_id : String → Store fl → Option (KeyConfig fl)
  find_by_id raw s = let id = trim_space raw in if id == "" then none else get id s.keys

  -- `findBySecretWhenEnabled`
  unfoldable pub find_by_secret_when_enabled :
      Library → String → Store fl → Option (KeyConfig fl) × Bool
  find_by_secret_when_enabled lib raw s =
      let secret = trim_space raw in
      if secret == "" then (none, s.enabled) else elim (hash_key lib secret) [
        | none ↦ (none, true)
        | some hash ↦
            if not s.enabled
            then (none, false)
            else (get (to_lower lib.lower hash) s.keys_by_hash, true)
      ]

  -- an entry of the handoff's journal, where there is one
  unfoldable pub journal : HandoffEntry → Store fl → Store fl
  journal entry s = record s { handoff = option_map (λ entries. entries ++ (entry ∷ [])) s.handoff }
