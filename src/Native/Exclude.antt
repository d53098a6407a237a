-- ===== src/Native/Exclude.antt =====
-- Automatic exclusions: which models are taken off which channels of CPA's configuration. The
-- exclusions, `excludableLocked` and the first loop of `planLocked` of
-- internal/search/native/exclude.go. The log lines and the mark that the file has to be written are
-- not modelled.
pub mod Moving
pub mod Answering
pub mod Planning
pub mod Serving
use cpa_plugin_key_policy.Base.{
  ℕ, zero, suc, ◌≡◌, ◌↔◌, arith, Comparable, ◌+◌, ◌-◌, ◌*◌, min, Bool, true, false, not, ◌&&◌, ◌||◌,
  Option, none, some, is_some, List, [], ◌∷◌, ◌++◌, any, String, string_eq, ◌==◌, nat_eq, ltb, leb,
  if◌then◌else◌,
}
use Prim.Native.Char.{Char}
use cpa_plugin_key_policy.Dict.{Dict, get, put, remove}
use cpa_plugin_key_policy.Calendar.{Time}
use cpa_plugin_key_policy.Native.{
  hour, ProbeResult, is_run, is_skip, Rejection, PairRecord, ChannelRecord, State, is_disabled,
  confirmed, pair,
}
use cpa_plugin_key_policy.Native.Decide.{
  Credential, Settings, Gap, ModelDecision, Decisions, Records, has, equal_fold, is_native,
}

-- `KeptBy`
pub data Keeper : Type 0 where
  operator config : Keeper

-- `EditResult`
pub data EditResult : Type 0 where
  edited key_disabled key_inherits key_gone : EditResult

-- `exclusion`; the zero Time is 0, and an error is why CPA's configuration was not edited
pub record Exclusion : Type 0 where
  pub auth_index : String
  pub model : String
  pub since : Time
  pub written : Bool
  pub trials : ℕ
  pub retry_at : Time
  pub trial_at : Time
  pub kept_at : Time
  pub kept_by : Option Keeper
  pub error : Option EditResult
  pub want : Bool

-- `ExclusionState`
pub data ExclusionState : Type 0 where
  active pending trial blocked kept : ExclusionState

-- `exclusion.state`
unfoldable pub exclusion_state : Exclusion → ExclusionState
exclusion_state e =
    if not (e.kept_at == 0)
    then kept
    else if not (e.trial_at == 0)
    then trial
    else if e.written
    then active
    else if e.want
    then pending
    else blocked

-- `trialLimit`
abbrev pub trial_limit : Time
trial_limit = hour

-- `maxRetry`
abbrev pub max_retry : Time
max_retry = 7 * 24 * hour

-- the loop of `retryAfter`
unfoldable pub doubled : ℕ → Time → Time
doubled zero wait = wait
doubled (suc trials) wait = elim (ltb wait max_retry) [
  | true ↦ doubled trials (wait * 2)
  | false ↦ wait
]

-- `retryAfter`
unfoldable pub retry_after : ℕ → ℕ → Time
unfolding doubled
retry_after interval_hours trials = min (doubled trials (interval_hours * hour)) max_retry

-- `pair`, one model on one channel
abbrev pub Pair : Type 0
Pair = String × String

pub pair_iff : (a b : Pair) → ((a.0 == b.0 && a.1 == b.1) ≡ true) ↔ (a ≡ b)
pair_iff a b = ground (arith, string_eq.same_iff a.0 b.0, string_eq.same_iff a.1 b.1)

instance abbrev pub pair_eq : Comparable Pair
pair_eq = record { same = λ a b. a.0 == b.0 && a.1 == b.1; same_iff = pair_iff }

abbrev pub Exclusions : Type 0
Exclusions = Dict Pair Exclusion

-- what `planLocked` reads of a `Manager`; `listing_failed` is whether `credErr` is set
pub record Manager : Type 0 where
  pub settings : Settings
  pub credentials : List Credential
  pub records : Records
  pub snapshot : Decisions
  pub started : Bool
  pub started_at : Time
  pub listing_failed : Bool
  pub listed_at : Time
  pub edited_at : Time
  pub lower : Char → Char

-- `startupGrace`
abbrev pub startup_grace : Time
startup_grace = 120000000000

unfoldable pub find_credential : String → List Credential → Option Credential
find_credential index [] = none
find_credential index (c ∷ cs) =
    let rest = find_credential index cs in if c.auth_index == index then some c else rest

abbrev pub in_reach : Option Credential → Bool
in_reach none = false
in_reach (some c) = c.in_config && not c.disabled

abbrev pub is_kept : Option Exclusion → Bool
is_kept none = false
is_kept (some e) = not (e.kept_at == 0)

-- `excludableLocked`
unfoldable pub excludable : Manager → Exclusions → String → String → Bool
unfolding find_credential
excludable m exclusions index model =
    m.settings.auto_exclude
    && not (is_kept (get (index, model) exclusions))
    && in_reach (find_credential index m.credentials)

-- whether automatic exclusion is on, and whether models can be taken off now
abbrev pub is_active : Manager → Bool
is_active m = m.settings.enabled && m.settings.auto_exclude && m.started

abbrev pub can_add : Manager → Time → Bool
can_add m now = is_active m && not m.listing_failed && leb startup_grace (now - m.started_at)

abbrev pub pair_of : Manager → Pair → Option PairRecord
pair_of m (index, model) = pair model (get index m.records)

-- a new exclusion
abbrev pub opened : Pair → Time → Exclusion
opened (index, model) now = record {
  auth_index = index;
  model = model;
  since = now;
  written = false;
  trials = 0;
  retry_at = 0;
  trial_at = 0;
  kept_at = 0;
  kept_by = none;
  error = none;
  want = false;
}

-- one gap of a native model in the first loops of `planLocked`
unfoldable pub open_gap : Manager → Time → String → Gap → Exclusions → Exclusions
unfolding excludable pair confirmed
open_gap m now model gap exclusions =
    let key : Pair = (gap.auth_index, model) in
    if is_disabled gap.state
      || is_some (get key exclusions)
      || not (excludable m exclusions gap.auth_index model)
      || not (confirmed (pair_of m key))
    then exclusions
    else put key (opened key now) exclusions

open_gaps : Manager → Time → String → List Gap → Exclusions → Exclusions
unfolding open_gap
open_gaps m now model [] exclusions = exclusions
open_gaps m now model (gap ∷ gaps) exclusions =
    open_gaps m now model gaps (open_gap m now model gap exclusions)

unfoldable pub open_models : Manager → Time → List ModelDecision → Exclusions → Exclusions
unfolding open_gaps
open_models m now [] exclusions = exclusions
open_models m now (d ∷ ds) exclusions =
    open_models m now ds
      (if is_native d.mode then open_gaps m now d.model d.gaps exclusions else exclusions)
