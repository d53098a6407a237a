-- ===== src/Native.antt =====
-- Native search: what the probes of a channel say of it. `channelRecord` and `pairRecord` of
-- internal/search/native/native.go, `Probe` of internal/search/native/probe.go, and the states of
-- internal/search/native/decide.go. The interval between rounds is a number of hours.
pub mod States
pub mod Decide
pub mod Exclude
use cpa_plugin_key_policy.Base.{
  ℕ, suc, ◌+◌, ◌-◌, ◌*◌, Bool, true, false, not, ◌&&◌, ◌||◌, Option, none, some, is_some, get_or,
  List, [], ◌∷◌, String, string_eq, ◌==◌, nat_eq, ltb, leb, if◌then◌else◌,
}
use cpa_plugin_key_policy.Dict.{Dict, get, put, exists}
use cpa_plugin_key_policy.Calendar.{Time}

abbrev pub hour : Time
hour = 3600000000000

-- `Result`: a probe that ran the tool, that answered without it, or that failed
pub data ProbeResult : Type 0 where
  ran_tool skipped_tool failed : ProbeResult

abbrev pub is_run : ProbeResult → Bool
is_run ran_tool = true
is_run skipped_tool = false
is_run failed = false

abbrev pub is_skip : ProbeResult → Bool
is_skip ran_tool = false
is_skip skipped_tool = true
is_skip failed = false

abbrev pub is_failure : ProbeResult → Bool
is_failure ran_tool = false
is_failure skipped_tool = false
is_failure failed = true

-- `Probe`, without what the status page alone shows
pub record Probe : Type 0 where
  pub at : Time
  pub model : String
  pub result : ProbeResult

-- `Rejection`, without what the status page alone shows
pub record Rejection : Type 0 where
  pub at : Time
  pub model : String
  pub recheck_at : Time

-- `pairRecord`
pub record PairRecord : Type 0 where
  pub no_search : ℕ
  pub last_probe : Time
  pub last_result : Option ProbeResult
  pub rejection : Option Rejection

abbrev pub no_pair : PairRecord
no_pair = record { no_search = 0; last_probe = 0; last_result = none; rejection = none }

-- `channelRecord`; a nil map of pairs is none
pub record ChannelRecord : Type 0 where
  pub probes : List Probe
  pub pairs : Option (Dict String PairRecord)
  pub legacy_rejection : Option Rejection
  pub not_serving : List String
  pub served : List String

-- `State`
pub data State : Type 0 where
  unknown supported unstable no_search failing stale rejected disabled : State

abbrev pub is_supported : State → Bool
is_supported supported = true
is_supported _ = false

abbrev pub is_disabled : State → Bool
is_disabled disabled = true
is_disabled _ = false

-- `pairRecord.confirmed`
unfoldable pub confirmed : Option PairRecord → Bool
confirmed none = false
confirmed (some p) = leb 2 p.no_search || leb 1 p.no_search && is_some p.rejection

-- the refusal of a pair after a probe: a search after it ends it, and else it is checked again
unfoldable pub rejection_after : Probe → Time → Option Rejection → Option Rejection
rejection_after probe now none = none
rejection_after probe now (some r) =
    if is_run probe.result && ltb r.at probe.at
    then none
    else some (record r { recheck_at = now + hour })

-- `pairRecord.observe`
unfoldable pub observe : Probe → Time → PairRecord → PairRecord
unfolding rejection_after
observe probe now p = record {
  no_search =
      if is_run probe.result
      then 0
      else if is_skip probe.result
      then p.no_search + 1
      else p.no_search;
  last_probe = probe.at;
  last_result = some probe.result;
  rejection = rejection_after probe now p.rejection;
}

-- `channelRecord.pair`
unfoldable pub pair : String → Option ChannelRecord → Option PairRecord
pair model none = none
pair model (some rec) = get model (get_or rec.pairs [])

-- `channelRecord.pairFor` and a write of the pair
unfoldable pub update_pair : String → (PairRecord → PairRecord) → ChannelRecord → ChannelRecord
update_pair model f rec =
    let pairs = get_or rec.pairs [] in
    record rec { pairs = some (put model (f (get_or (get model pairs) no_pair)) pairs) }

-- `channelRecord.anyConfirmed`
unfoldable pub any_confirmed : ChannelRecord → Bool
unfolding confirmed
any_confirmed rec = exists (λ _ p. confirmed (some p)) (get_or rec.pairs [])

later_rejection : Option Rejection → Option Rejection → Option Rejection
later_rejection none latest = latest
later_rejection (some r) none = some r
later_rejection (some r) (some l) = if ltb l.at r.at then some r else some l

latest_among : Dict String PairRecord → Option Rejection → Option Rejection
unfolding later_rejection
latest_among [] latest = latest
latest_among ((model, p) ∷ pairs) latest = latest_among pairs (later_rejection p.rejection latest)

-- `channelRecord.latestRejection`
unfoldable pub latest_rejection : Option ChannelRecord → Option Rejection
unfolding latest_among
latest_rejection none = none
latest_rejection (some rec) = latest_among (get_or rec.pairs []) none

-- `channelRecord.refusing`
unfoldable pub refusing : Option ChannelRecord → Bool
unfolding latest_rejection
refusing rec = is_some (latest_rejection rec)

observe_all : List Probe → ChannelRecord → ChannelRecord
unfolding observe update_pair
observe_all [] rec = rec
observe_all (probe ∷ probes) rec =
    observe_all probes (update_pair probe.model (observe probe probe.at) rec)

with_legacy : Option Rejection → ChannelRecord → ChannelRecord
unfolding update_pair
with_legacy none rec = rec
with_legacy (some r) rec = update_pair r.model (λ p. record p { rejection = some r }) rec

-- `channelRecord.migrate`
unfoldable pub migrate : ChannelRecord → ChannelRecord
unfolding observe_all with_legacy
migrate rec =
    let observed = if is_some rec.pairs then rec else observe_all rec.probes rec in
    if is_some rec.pairs && not (is_some rec.legacy_rejection)
    then rec
    else record (with_legacy rec.legacy_rejection observed) { legacy_rejection = none }
