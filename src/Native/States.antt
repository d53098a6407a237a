-- ===== src/Native/States.antt =====
-- The states of a channel: `classify`, `classifyFor` and `fromProbes` of
-- internal/search/native/decide.go.
use cpa_plugin_key_policy.Base.{
  ℕ, ◌+◌, ◌-◌, ◌*◌, Bool, true, false, not, ◌&&◌, ◌||◌, Option, none, some, is_some, List, [], ◌∷◌,
  String, string_eq, ◌==◌, nat_eq, ltb, if◌then◌else◌,
}
use cpa_plugin_key_policy.Calendar.{Time}
use cpa_plugin_key_policy.Native.{
  no_search, ChannelRecord, PairRecord, Probe, State, any_confirmed, confirmed, disabled, failing,
  hour, is_failure, is_run, is_skip, pair, refusing, rejected, stale, supported, unknown, unstable,
}

-- `staleAfter`
unfoldable pub stale_after : ℕ → Time
stale_after interval_hours = (2 * interval_hours + 1) * hour

-- Two failures in a row, or only one probe, which failed.
unfoldable pub latest_failed : List Probe → Bool
latest_failed [] = false
latest_failed (p ∷ []) = is_failure p.result
latest_failed (p ∷ q ∷ []) = is_failure q.result && is_failure p.result
latest_failed (p ∷ q ∷ r ∷ probes) = latest_failed (q ∷ r ∷ probes)

-- what the loop of `fromProbes` collects
pub record Evidence : Type 0 where
  pub searched : Bool
  pub ignored : Bool
  pub own_searched : Bool
  pub own_ignored : Bool
  pub last_search : Time

abbrev pub no_evidence : Evidence
no_evidence = record {
  searched = false;
  ignored = false;
  own_searched = false;
  own_ignored = false;
  last_search = 0;
}

unfoldable pub weigh : String → Probe → Evidence → Evidence
weigh model p e =
    if is_run p.result
    then record e {
      searched = true;
      last_search = p.at;
      own_searched = e.own_searched || p.model == model;
    }
    else if is_skip p.result
    then record e { ignored = true; own_ignored = e.own_ignored || p.model == model }
    else e

unfoldable pub weigh_all : String → List Probe → Evidence → Evidence
unfolding weigh
weigh_all model [] e = e
weigh_all model (p ∷ probes) e = weigh_all model probes (weigh model p e)

-- the switch at the end of `fromProbes`
unfoldable pub judge : ℕ → Time → Evidence → State
unfolding stale_after
judge interval_hours now e =
    let own = e.own_searched || e.own_ignored in
    let searched = if own then e.own_searched else e.searched in
    let ignored = if own then e.own_ignored else e.ignored in
    if searched && ignored
    then unstable
    else if ignored
    then no_search
    else if not searched
    then failing
    else if ltb (stale_after interval_hours) (now - e.last_search)
    then stale
    else supported

abbrev is_empty : List Probe → Bool
is_empty [] = true
is_empty (_ ∷ _) = false

-- `fromProbes`
unfoldable pub from_probes : List Probe → String → ℕ → Time → State
unfolding latest_failed weigh_all judge
from_probes probes model interval_hours now =
    if is_empty probes
    then unknown
    else if latest_failed probes
    then failing
    else judge interval_hours now (weigh_all model probes no_evidence)

-- `classify`
unfoldable pub classify : Option ChannelRecord → Bool → ℕ → Time → State
unfolding refusing from_probes
classify rec disabled_channel interval_hours now =
    if disabled_channel
    then disabled
    else if refusing rec
    then rejected
    else elim rec [ none ↦ unknown | some r ↦ from_probes r.probes "" interval_hours now ]

-- the probes of the models that a channel is not confirmed to fail
unfoldable pub unconfirmed : ChannelRecord → List Probe → List Probe
unfolding pair confirmed
unconfirmed rec [] = []
unconfirmed rec (p ∷ probes) =
    let rest = unconfirmed rec probes in
    if confirmed (pair p.model (some rec)) then rest else p ∷ rest

abbrev pub is_refused : Option PairRecord → Bool
is_refused none = false
is_refused (some p) = is_some p.rejection

-- `classifyFor`
unfoldable pub classify_for : Option ChannelRecord → String → Bool → ℕ → Time → State
unfolding pair confirmed any_confirmed unconfirmed from_probes
classify_for rec model disabled_channel interval_hours now =
    if disabled_channel
    then disabled
    else if is_refused (pair model rec)
    then rejected
    else if confirmed (pair model rec)
    then no_search
    else elim rec [
      | none ↦ unknown
      | some r ↦
          from_probes (if any_confirmed r then unconfirmed r r.probes else r.probes) model
            interval_hours now
    ]
