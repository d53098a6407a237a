-- ===== src/Native/Exclude/Moving.antt =====
-- How `planLocked` of internal/search/native/exclude.go moves every exclusion along, and the edits
-- that it plans.
use cpa_plugin_key_policy.Base.{
  ◌+◌, ◌-◌, Bool, true, false, not, ◌&&◌, ◌||◌, Option, none, some, List, [], ◌∷◌, any, String,
  string_eq, ◌==◌, nat_eq, ltb, leb, if◌then◌else◌,
}
use cpa_plugin_key_policy.Calendar.{Time}
use cpa_plugin_key_policy.Native.{is_run, is_skip, PairRecord, confirmed}
use cpa_plugin_key_policy.Native.Decide.{Credential, has, equal_fold}
use cpa_plugin_key_policy.Native.Exclude.{
  Exclusion, Exclusions, Manager, Pair, pair_eq, can_add, config, is_active, open_models, pair_of,
  trial_limit,
}

-- whether CPA's configuration takes the model off the channel
abbrev pub is_present : Manager → Credential → String → Bool
is_present m c model = any (λ entry. equal_fold m.lower entry model) c.excluded

-- an entry that someone else took out of CPA's configuration, or put in; none is an exclusion that
-- is gone
unfoldable pub notice : Manager → Time → Option Credential → Exclusion → Option Exclusion
notice m now none e = some e
notice m now (some c) e =
    let present = is_present m c e.model in
    let out =
      if e.kept_at == 0
      then record e { written = false; want = false; kept_at = now; kept_by = some config }
      else record e { written = false; want = false } in
    if not (ltb m.edited_at m.listed_at && c.in_config)
    then some e
    else if e.written && not present
    then some out
    else if not e.written && present
    then none
    else some e

-- what a trial is found to have shown
abbrev pub has_answered : Time → Option PairRecord → Bool
has_answered trial_at none = false
has_answered trial_at (some p) = not (ltb p.last_probe trial_at)

abbrev pub last_ran : Option PairRecord → Bool
last_ran none = false
last_ran (some p) = elim p.last_result [ none ↦ false | some r ↦ is_run r ]

abbrev pub last_skipped : Option PairRecord → Bool
last_skipped none = false
last_skipped (some p) = elim p.last_result [ none ↦ false | some r ↦ is_skip r ]

abbrev pub refused_since : Time → Option PairRecord → Bool
refused_since trial_at none = false
refused_since trial_at (some p) = elim p.rejection [
  | none ↦ false
  | some r ↦ not (ltb r.at trial_at)
]

-- a trial under way
unfoldable pub settle_trial : Time → Bool → Option PairRecord → Exclusion → Exclusion
settle_trial now native_model p e =
    let answered = has_answered e.trial_at p in
    let ignored = answered && last_skipped p || refused_since e.trial_at p in
    if answered && last_ran p
    then record e { trial_at = 0; want = false }
    else if ignored || leb trial_limit (now - e.trial_at)
    then record e {
      trials = if ignored then e.trials + 1 else e.trials;
      trial_at = 0;
      want = native_model;
    }
    else record e { want = false }

-- the switch of `planLocked` over an exclusion, without the reasons that it notes
unfoldable pub settle : Manager → Time → Option Credential → Exclusion → Exclusion
unfolding settle_trial confirmed
settle m now c e =
    let key : Pair = (e.auth_index, e.model) in
    let p = pair_of m key in
    let native_model = has m.snapshot.native_models e.model in
    if elim c [ none ↦ false | some k ↦ k.disabled ]
    then record e { want = e.written }
    else if not (e.kept_at == 0)
    then record e { want = false }
    else if not (is_active m)
    then record e { want = false }
    else if not (e.trial_at == 0)
    then settle_trial now native_model p e
    else if not (has m.snapshot.candidates e.model)
    then record e { want = false }
    else if not (confirmed p)
    then record e { want = false }
    else if e.written && native_model && leb e.retry_at now
    then record e { trial_at = now; want = false }
    else if not native_model
    then record e { want = false }
    else record e { want = true }

-- whether an exclusion goes once its entry is out
unfoldable pub is_over : Manager → Exclusion → Bool
unfolding confirmed
is_over m e =
    e.kept_at == 0
    && e.trial_at == 0
    && (not (is_active m)
        || not (confirmed (pair_of m (e.auth_index, e.model)))
        || not (has m.snapshot.candidates e.model))

-- `planned`: an exclusion to bring in line, whether to take the model off, and whether the exclusion
-- goes then
pub record Planned : Type 0 where
  pub key : Pair
  pub exclude : Bool
  pub drop : Bool

-- the end of a round of `planLocked`: the exclusion, none where it is gone, and its edit
unfoldable pub edit_settled : Bool → Bool → Pair → Exclusion → Option Exclusion × Option Planned
edit_settled over adds key e =
    let edit : Planned = record { key = key; exclude = e.want; drop = over } in
    let differs = (e.want && not e.written) || (not e.want && e.written) in
    if over && not e.written
    then (none, none)
    else if differs && (not e.want || adds)
    then (some e, some edit)
    else (some e, none)

unfoldable pub move_noticed :
    Manager → Time → Pair → Option Credential → Option Exclusion → Option Exclusion × Option Planned
unfolding settle is_over edit_settled
move_noticed m now key c none = (none, none)
move_noticed m now key c (some e) =
    let settled = settle m now c e in edit_settled (is_over m settled) (can_add m now) key settled

-- a credential of `byIndex`, in which a later one of the index replaces an earlier
unfoldable pub credential_by_index : String → List Credential → Option Credential
credential_by_index index [] = none
credential_by_index index (c ∷ cs) = elim (credential_by_index index cs) [
  | some later ↦ some later
  | none ↦ if c.auth_index == index then some c else none
]

-- one round of the loop of `planLocked`
unfoldable pub move : Manager → Time → Pair → Exclusion → Option Exclusion × Option Planned
unfolding credential_by_index notice move_noticed
move m now key e =
    let c = credential_by_index e.auth_index m.credentials in
    move_noticed m now key c (notice m now c e)

unfoldable pub moved :
    Pair → Option Exclusion × Option Planned → Exclusions × List Planned → Exclusions × List Planned
moved key (none, _) (exclusions, edits) = (exclusions, edits)
moved key (some e, none) (exclusions, edits) = ((key, e) ∷ exclusions, edits)
moved key (some e, some edit) (exclusions, edits) = ((key, e) ∷ exclusions, edit ∷ edits)

unfoldable pub move_all : Manager → Time → Exclusions → Exclusions × List Planned
unfolding move moved
move_all m now [] = ([], [])
move_all m now ((key, e) ∷ exclusions) = moved key (move m now key e) (move_all m now exclusions)

-- `planLocked`; the edits are in the order of the map
unfoldable pub plan : Manager → Time → Exclusions → Exclusions × List Planned
unfolding open_models move_all
plan m now exclusions =
    move_all m now
      (if can_add m now then open_models m now m.snapshot.models exclusions else exclusions)
