-- ===== src/MediaTrace/Taking.antt =====
-- A remembered media trace is taken once: internal/policy/billing.go.
use cpa_plugin_key_policy.Base.{
  ◌+◌, ◌-◌, ◌≤◌, ◌≡◌, ◌≢◌, true, false, none, some, List, [], ◌∷◌, String, string_eq, nat_eq, arith,
  ltb, ltb→lt, Bool-cases, inl, inr, beq_refl,
}
use cpa_plugin_key_policy.Dict.{Dict, get, get-put_self, get-remove}
use cpa_plugin_key_policy.Calendar.{Time}
use cpa_plugin_key_policy.MediaTrace.{
  MediaTrace, MediaTraceSet, media_trace_ttl, unindex, trim_from, trim, remember, take,
}

unindex-none :
    (t : MediaTrace) (id : String) (index : Dict String Time)
    → get id index ≡ none
    → get id (unindex t index) ≡ none
unfolding unindex
unindex-none t id index h = ground (arith, get-remove t.id id index)

-- a trace that is no longer in the index does not come back by trimming
trim_from-none :
    (cutoff : Time) (id : String) (order : List MediaTrace) (index : Dict String Time)
    → get id index ≡ none
    → get id (trim_from cutoff order index).index ≡ none
unfolding trim_from
trim_from-none cutoff id [] index h = h
trim_from-none cutoff id (t ∷ order) index h = elim (Bool-cases (ltb t.at cutoff)) [
  | inl old ↦ rw old (trim_from-none cutoff id order (unindex t index) (unindex-none t id index h))
  | inr fresh ↦ rw fresh h
]

trim-none :
    (now : Time) (id : String) (m : MediaTraceSet)
    → get id m.index ≡ none
    → get id (trim now m).index ≡ none
unfolding trim
trim-none now id m h = trim_from-none (now - media_trace_ttl) id m.order m.index h

take_gone : (id : String) (now : Time) (m : MediaTraceSet) → get id (take id now m).0.index ≡ none
unfolding take
take_gone id now m = ground (arith, get-remove id id (trim now m).index, beq_refl id)

take-none :
    (id : String) (now : Time) (m : MediaTraceSet)
    → get id m.index ≡ none
    → (take id now m).1 ≡ false
unfolding take
take-none id now m h = rw (trim-none now id m h)

-- A trace id is taken at most once: after a take, whatever it answered, a take of the same id
-- answers false, at any clock reading.
pub take-take :
    (id : String) (now later : Time) (m : MediaTraceSet)
    → (take id later (take id now m).0).1 ≡ false
take-take id now later m = take-none id later (take id now m).0 (take_gone id now m)

unindex_kept :
    (t : MediaTrace) (id : String) (at : Time) (index : Dict String Time)
    → t.at ≢ at
    → get id index ≡ some at
    → get id (unindex t index) ≡ some at
unfolding unindex
unindex_kept t id at index ne h =
    ground (arith, get-remove t.id id index, string_eq.same_iff t.id id)

-- trimming keeps a trace that is not older than the cutoff
trim_from_kept :
    (cutoff : Time) (id : String) (at : Time) (order : List MediaTrace) (index : Dict String Time)
    → cutoff ≤ at
    → get id index ≡ some at
    → get id (trim_from cutoff order index).index ≡ some at
unfolding trim_from
trim_from_kept cutoff id at [] index le h = h
trim_from_kept cutoff id at (t ∷ order) index le h = elim (Bool-cases (ltb t.at cutoff)) [
  | inl old ↦
      let ne : t.at ≢ at = λ e. omega (arith, ltb→lt t.at cutoff old) in
      rw old
        (trim_from_kept cutoff id at order (unindex t index) le (unindex_kept t id at index ne h))
  | inr fresh ↦ rw fresh h
]

-- A trace that is remembered when it was not known is taken by its record within an hour.
pub take-remember :
    (id : String) (now later : Time) (m : MediaTraceSet)
    → get id (trim now m).index ≡ none
    → later ≤ now + media_trace_ttl
    → (take id later (remember id now m)).1 ≡ true
unfolding take trim
take-remember id now later m new soon =
    let r = remember id now m in
    let known : get id r.index ≡ some now = unfold remember in rw new (get-put_self id now _) in
    rw (trim_from_kept (later - media_trace_ttl) id now r.order r.index (omega arith) known)
