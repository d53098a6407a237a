-- ===== src/MediaTrace.antt =====
-- The trace ids of admitted media generations: `mediaTraceSet` of internal/policy/billing.go.
pub mod Taking
pub mod Capacity
use cpa_plugin_key_policy.Base.{
  ℕ, ◌-◌, Bool, true, false, ◌&&◌, ◌||◌, Option, none, some, List, [], ◌∷◌, ◌++◌, String, ltb, leb,
  ◌==◌, nat_eq, string_eq, if◌then◌else◌, is_some, length,
}
use cpa_plugin_key_policy.Dict.{Dict, get, put, remove}
use cpa_plugin_key_policy.Calendar.{Time}

-- `mediaTraceCapacity`, `mediaTraceTTL` (an hour, in nanoseconds)
abbrev pub media_trace_capacity : ℕ
media_trace_capacity = 4096

abbrev pub media_trace_ttl : Time
media_trace_ttl = 3600000000000

-- `mediaTrace`
pub record MediaTrace : Type 0 where
  pub id : String
  pub at : Time

-- `mediaTraceSet`
pub record MediaTraceSet : Type 0 where
  pub order : List MediaTrace
  pub index : Dict String Time

-- `newMediaTraceSet`
abbrev pub no_traces : MediaTraceSet
no_traces = record { order = []; index = [] }

-- `if at, live := m.index[t.id]; live && at.Equal(t.at)`
unfoldable pub indexed : MediaTrace → Dict String Time → Bool
indexed t index = elim (get t.id index) [ none ↦ false | some at ↦ at == t.at ]

unfoldable pub unindex : MediaTrace → Dict String Time → Dict String Time
unfolding indexed
unindex t index = if indexed t index then remove t.id index else index

-- the loop of `trimLocked` over the order
unfoldable pub trim_from : Time → List MediaTrace → Dict String Time → MediaTraceSet
unfolding unindex
trim_from cutoff [] index = record { order = []; index = index }
trim_from cutoff (t ∷ order) index =
    let rest = trim_from cutoff order (unindex t index) in
    if ltb t.at cutoff then rest else record { order = t ∷ order; index = index }

-- `trimLocked`
unfoldable pub trim : Time → MediaTraceSet → MediaTraceSet
unfolding trim_from
trim now m = trim_from (now - media_trace_ttl) m.order m.index

-- the loop of `remember` that makes room
unfoldable pub make_room : List MediaTrace → Dict String Time → MediaTraceSet
unfolding unindex
make_room [] index = record { order = []; index = index }
make_room (t ∷ order) index =
    let rest = make_room order (unindex t index) in
    if leb media_trace_capacity (length index)
    then rest
    else record { order = t ∷ order; index = index }

-- `remember`
unfoldable pub remember : String → Time → MediaTraceSet → MediaTraceSet
remember id now m =
    let trimmed = trim now m in
    if is_some (get id trimmed.index)
    then trimmed
    else (let room = make_room trimmed.order trimmed.index in
        record {
          order = room.order ++ record { id = id; at = now } ∷ [];
          index = put id now room.index;
        })

-- one step of the stable sort by instant in `rememberAt`, into an order that is sorted
insert_by_time : MediaTrace → List MediaTrace → List MediaTrace
insert_by_time t [] = t ∷ []
insert_by_time t (u ∷ order) =
    let rest = insert_by_time t order in if leb u.at t.at then u ∷ rest else t ∷ u ∷ order

sort_by_time : List MediaTrace → List MediaTrace → List MediaTrace
unfolding insert_by_time
sort_by_time sorted [] = sorted
sort_by_time sorted (t ∷ order) = sort_by_time (insert_by_time t sorted) order

-- `rememberAt`
unfoldable pub remember_at : String → Time → Time → MediaTraceSet → MediaTraceSet
unfolding sort_by_time
remember_at id at now m =
    let trimmed = trim now m in
    if is_some (get id trimmed.index) || ltb at (now - media_trace_ttl) then trimmed else record {
      order = sort_by_time [] (trimmed.order ++ record { id = id; at = at } ∷ []);
      index = put id at trimmed.index;
    }

live_from : Dict String Time → List MediaTrace → List MediaTrace
unfolding indexed
live_from index [] = []
live_from index (t ∷ order) =
    let rest = live_from index order in if indexed t index then t ∷ rest else rest

-- `live`
unfoldable pub live : Time → MediaTraceSet → MediaTraceSet × List MediaTrace
unfolding live_from
live now m = let trimmed = trim now m in (trimmed, live_from trimmed.index trimmed.order)

-- `contains`
unfoldable pub contains : String → Time → MediaTraceSet → MediaTraceSet × Bool
contains id now m = let trimmed = trim now m in (trimmed, is_some (get id trimmed.index))

-- `take`
unfoldable pub take : String → Time → MediaTraceSet → MediaTraceSet × Bool
take id now m =
    let trimmed = trim now m in
    if is_some (get id trimmed.index)
    then (record trimmed { index = remove id trimmed.index }, true)
    else (trimmed, false)
