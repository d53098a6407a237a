-- ===== src/Native/Exclude/Answering.antt =====
-- What `reconcile` of internal/search/native/exclude.go writes from the answers to its edits, and
-- what `keep` prepares.
use cpa_plugin_key_policy.Base.{
  ◌+◌, Bool, true, false, not, Option, none, some, List, [], ◌∷◌, string_eq, ◌==◌, nat_eq,
  if◌then◌else◌,
}
use cpa_plugin_key_policy.Dict.{get, put, remove}
use cpa_plugin_key_policy.Calendar.{Time}
use cpa_plugin_key_policy.Native.Exclude.{
  EditResult, Exclusion, Exclusions, Manager, Pair, pair_eq, edited, key_disabled, key_gone,
  key_inherits, operator, retry_after,
}
use cpa_plugin_key_policy.Native.Exclude.Moving.{Planned}

-- an exclusion after the answer to its edit, none where it is gone: `reconcile`
unfoldable pub answered : Manager → Time → Planned → EditResult → Exclusion → Option Exclusion
unfolding retry_after
answered m now p edited e =
    let retry =
      if p.exclude then now + retry_after m.settings.interval_hours e.trials else e.retry_at in
    let e' = record e { written = p.exclude; error = none; retry_at = retry } in
    if p.drop then none else some e'
answered m now p key_disabled e = some (record e { error = some key_disabled })
answered m now p key_inherits e = some (record e { error = some key_inherits })
answered m now p key_gone e = none

unfoldable pub with_answer : Manager → Time → Planned → EditResult → Exclusions → Exclusions
unfolding answered
with_answer m now p result exclusions = elim (get p.key exclusions) [
  | none ↦ exclusions
  | some e ↦ elim (answered m now p result e) [
    | none ↦ remove p.key exclusions
    | some e' ↦ put p.key e' exclusions
  ]
]

-- the loop of `reconcile` over the answers, of which there are as many as edits
unfoldable pub with_answers :
    Manager → Time → List Planned → List EditResult → Exclusions → Exclusions
unfolding with_answer
with_answers m now [] results exclusions = exclusions
with_answers m now (p ∷ ps) [] exclusions = exclusions
with_answers m now (p ∷ ps) (r ∷ rs) exclusions =
    with_answers m now ps rs (with_answer m now p r exclusions)

same_truth : Bool → Bool → Bool
same_truth true b = b
same_truth false b = not b

-- `Release` and `Resume`: what `keep` prepares, none for `ErrUnknownExclusion`
unfoldable pub keep : Bool → Time → Pair → Exclusions → Option Exclusions
unfolding same_truth
keep keeps now key exclusions = elim (get key exclusions) [
  | none ↦ none
  | some e ↦
      let free = record e { kept_at = 0; kept_by = none; trial_at = 0 } in
      let e' = if keeps then record free { kept_at = now; kept_by = some operator } else free in
      some (if same_truth (not (e.kept_at == 0)) keeps then exclusions else put key e' exclusions)
]
