-- ===== src/MediaTrace/Capacity.antt =====
-- How many media traces the index of internal/policy/billing.go holds, against `mediaTraceCapacity`.
use cpa_plugin_key_policy.Base.{
  ℕ, suc, ◌+◌, ◌-◌, ◌<◌, ◌||◌, if◌then◌else◌, ◌≤◌, ◌≡◌, refl, ◌⊎◌, some, List, [], ◌∷◌, ◌++◌,
  String, string_eq, nat_eq, ◌==◌, arith, ltb, leb, leb-false, is_some, length, Bool-cases, inl,
  inr,
}
use cpa_plugin_key_policy.Dict.{Dict, get, put, get-put, get-remove, length-put, length-remove}
use cpa_plugin_key_policy.Calendar.{Time}
use cpa_plugin_key_policy.MediaTrace.{
  MediaTrace, MediaTraceSet, media_trace_capacity, media_trace_ttl, no_traces, indexed, unindex,
  trim_from, trim, make_room, remember, insert_by_time, sort_by_time, remember_at, take,
}

-- The order holds a trace.
abbrev pub Has : String → Time → List MediaTrace → Type 0
Has id at [] = ⊥
Has id at (t ∷ order) = ((t.id ≡ id) × (t.at ≡ at)) ⊎ Has id at order

-- Every trace of the index stands in the order too.
abbrev pub IsCovered : List MediaTrace → Dict String Time → Type 0
IsCovered order index = (id : String) (at : Time) → get id index ≡ some at → Has id at order

unindex-IsCovered :
    (t : MediaTrace) (order : List MediaTrace) (index : Dict String Time)
    → IsCovered (t ∷ order) index
    → IsCovered order (unindex t index)
unfolding unindex indexed
unindex-IsCovered t order index c id at h =
    ground (arith, c id at, get-remove t.id id index, string_eq.same_iff t.id id)

length-unindex :
    (t : MediaTrace) (index : Dict String Time) → length (unindex t index) ≤ length index
unfolding unindex
length-unindex t index = ground (arith, length-remove t.id index)

trim_from_lem :
    (cutoff : Time) (order : List MediaTrace) (index : Dict String Time)
    → IsCovered order index
    → let m = trim_from cutoff order index in
      IsCovered m.order m.index × (length m.index ≤ length index)
unfolding trim_from
trim_from_lem cutoff [] index c = (c, omega arith)
trim_from_lem cutoff (t ∷ order) index c = elim (Bool-cases (ltb t.at cutoff)) [
  | inl old ↦
      let (c', le) =
        trim_from_lem cutoff order (unindex t index) (unindex-IsCovered t order index c) in
      rw old (c', omega (arith, length-unindex t index))
  | inr fresh ↦ rw fresh (c, omega arith)
]

empty_of_uncovered : (index : Dict String Time) → IsCovered [] index → length index ≡ 0
unfolding get
empty_of_uncovered [] c = refl
empty_of_uncovered ((k, v) ∷ index) c = absurd (c k v (ground (arith, string_eq.same_iff k k)))

make_room_lem :
    (order : List MediaTrace) (index : Dict String Time)
    → IsCovered order index
    → let m = make_room order index in
      IsCovered m.order m.index × (length m.index < media_trace_capacity)
unfolding make_room
make_room_lem [] index c = (c, omega (arith, empty_of_uncovered index c))
make_room_lem (t ∷ order) index c = elim (Bool-cases (leb media_trace_capacity (length index))) [
  | inl full ↦ rw full (make_room_lem order (unindex t index) (unindex-IsCovered t order index c))
  | inr room ↦ rw room (c, leb-false media_trace_capacity (length index) room)
]

Has-append :
    (id : String) (at : Time) (order : List MediaTrace) (t : MediaTrace)
    → (Has id at order) ⊎ ((t.id ≡ id) × (t.at ≡ at))
    → Has id at (order ++ t ∷ [])
Has-append id at [] t (inl h) = elim h [ ]
Has-append id at [] t (inr h) = inl h
Has-append id at (u ∷ order) t (inl (inl h)) = inl h
Has-append id at (u ∷ order) t (inl (inr h)) = inr (Has-append id at order t (inl h))
Has-append id at (u ∷ order) t (inr h) = inr (Has-append id at order t (inr h))

IsCovered-put :
    (id : String) (now : Time) (order : List MediaTrace) (index : Dict String Time)
    → IsCovered order index
    → IsCovered (order ++ record { id = id; at = now } ∷ []) (put id now index)
IsCovered-put id now order index c j at h = elim (Bool-cases (id == j)) [
  | inl same ↦
      Has-append j at order (record { id = id; at = now })
        (inr ((string_eq.same_iff id j).0 same, ground (arith, get-put id j now index)))
  | inr other ↦
      Has-append j at order (record { id = id; at = now })
        (inl (c j at (ground (arith, get-put id j now index))))
]

-- an order holds what it held before it was sorted
Has-insert_by_time :
    (id : String) (at : Time) (t : MediaTrace) (order : List MediaTrace)
    → (Has id at order) ⊎ ((t.id ≡ id) × (t.at ≡ at))
    → Has id at (insert_by_time t order)
unfolding insert_by_time
Has-insert_by_time id at t [] (inl h) = elim h [ ]
Has-insert_by_time id at t [] (inr own) = inl own
Has-insert_by_time id at t (u ∷ order) h = elim (Bool-cases (leb u.at t.at)) [
  | inr later ↦ rw later (elim h [ inl there ↦ inr there | inr own ↦ inl own ])
  | inl earlier ↦ rw earlier (elim h [
    | inl (inl first) ↦ inl first
    | inl (inr rest) ↦ inr (Has-insert_by_time id at t order (inl rest))
    | inr own ↦ inr (Has-insert_by_time id at t order (inr own))
  ])
]

Has-sort_by_time :
    (id : String) (at : Time) (sorted order : List MediaTrace)
    → (Has id at sorted) ⊎ (Has id at order)
    → Has id at (sort_by_time sorted order)
unfolding sort_by_time
Has-sort_by_time id at sorted [] (inl h) = h
Has-sort_by_time id at sorted [] (inr h) = elim h [ ]
Has-sort_by_time id at sorted (t ∷ order) (inl h) =
    Has-sort_by_time id at (insert_by_time t sorted) order
      (inl (Has-insert_by_time id at t sorted (inl h)))
Has-sort_by_time id at sorted (t ∷ order) (inr (inl own)) =
    Has-sort_by_time id at (insert_by_time t sorted) order
      (inl (Has-insert_by_time id at t sorted (inr own)))
Has-sort_by_time id at sorted (t ∷ order) (inr (inr h)) =
    Has-sort_by_time id at (insert_by_time t sorted) order (inr h)

-- What the operations keep, with the number of traces adopted since the last one was remembered: the
-- order names every trace of the index, which exceeds the capacity by at most that number.
pub record IsBounded (adopted : ℕ) (m : MediaTraceSet) : Type 0 where
  pub covered : IsCovered m.order m.index
  pub fits : length m.index ≤ media_trace_capacity + adopted

module _ (n : ℕ) where
  trim-IsBounded : (now : Time) (m : MediaTraceSet) → IsBounded n m → IsBounded n (trim now m)
  unfolding trim
  trim-IsBounded now m b =
      let (c, le) = trim_from_lem (now - media_trace_ttl) m.order m.index b.covered in
      record { covered = c; fits = omega (arith, b.fits) }

  take-IsBounded :
      (id : String) (now : Time) (m : MediaTraceSet) → IsBounded n m → IsBounded n (take id now m).0
  unfolding take
  take-IsBounded id now m b =
      let trimmed = trim now m in
      let kept = trim-IsBounded now m b in
      elim (Bool-cases (is_some (get id trimmed.index))) [
        | inl known ↦ rw known (record {
          covered = λ j at h. kept.covered j at (ground (arith, get-remove id j trimmed.index));
          fits = omega (arith, kept.fits, length-remove id trimmed.index);
        })
        | inr new ↦ rw new kept
      ]

  -- a trace that is not known makes room for itself, so that no adopted one is too many any more
  remember-IsBounded :
      (id : String) (now : Time) (m : MediaTraceSet)
      → IsBounded n m
      → IsBounded (if is_some (get id (trim now m).index) then n else 0) (remember id now m)
  unfolding remember
  remember-IsBounded id now m b =
      let trimmed = trim now m in
      let kept = trim-IsBounded now m b in
      elim (Bool-cases (is_some (get id trimmed.index))) [
        | inl known ↦ rw known kept
        | inr new ↦
            let (c, le) = make_room_lem trimmed.order trimmed.index kept.covered in
            let room = make_room trimmed.order trimmed.index in
            rw new (record {
              covered = IsCovered-put id now room.order room.index c;
              fits = omega (arith, length-put id now room.index);
            })
      ]

  remember_at-IsBounded :
      (id : String) (at now : Time) (m : MediaTraceSet)
      → IsBounded n m
      → IsBounded (suc n) (remember_at id at now m)
  unfolding remember_at
  remember_at-IsBounded id at now m b =
      let trimmed = trim now m in
      let kept = trim-IsBounded now m b in
      let covered = IsCovered-put id at trimmed.order trimmed.index kept.covered in
      elim (Bool-cases (is_some (get id trimmed.index) || ltb at (now - media_trace_ttl))) [
        | inl skipped ↦
            rw skipped (record { covered = kept.covered; fits = omega (arith, kept.fits) })
        | inr adopted ↦ rw adopted (record {
          covered = λ j t h.
              Has-sort_by_time j t [] (trimmed.order ++ record { id = id; at = at } ∷ [])
                (inr (covered j t h));
          fits = omega (arith, kept.fits, length-put id at trimmed.index);
        })
      ]

-- The states that the operations lead to, with the number of traces adopted from another instance
-- since the last one was remembered.
pub data Reached : ℕ → MediaTraceSet → Type 0 where
  fresh : Reached 0 no_traces
  remembers :
      {n : ℕ} {m : MediaTraceSet} (id : String) (now : Time)
      → Reached n m
      → Reached (if is_some (get id (trim now m).index) then n else 0) (remember id now m)
  adopts :
      {n : ℕ} {m : MediaTraceSet} (id : String) (at now : Time)
      → Reached n m
      → Reached (suc n) (remember_at id at now m)
  takes :
      {n : ℕ} {m : MediaTraceSet} (id : String) (now : Time)
      → Reached n m
      → Reached n (take id now m).0
  trims : {n : ℕ} {m : MediaTraceSet} (now : Time) → Reached n m → Reached n (trim now m)

-- However traces are remembered, adopted from another instance, taken and trimmed, the index holds
-- at most as many traces beyond the capacity as were handed over by rememberAt since a trace was
-- last remembered that was not known before, and the order names each of its traces.
pub Reached-IsBounded : {n : ℕ} {m : MediaTraceSet} → Reached n m → IsBounded n m
unfolding get
Reached-IsBounded fresh = record { covered = λ id at h. cc; fits = omega arith }
Reached-IsBounded (remembers {n = n} {m = m} id now r) =
    remember-IsBounded n id now m (Reached-IsBounded r)
Reached-IsBounded (adopts {n = n} {m = m} id at now r) =
    remember_at-IsBounded n id at now m (Reached-IsBounded r)
Reached-IsBounded (takes {n = n} {m = m} id now r) = take-IsBounded n id now m (Reached-IsBounded r)
Reached-IsBounded (trims {n = n} {m = m} now r) = trim-IsBounded n now m (Reached-IsBounded r)
