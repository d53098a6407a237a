-- ===== src/Jsonscan/Members.antt =====
-- `Members` and `Elements` of internal/jsonscan/jsonscan.go.
use cpa_plugin_key_policy.Base.{
  ℕ, zero, suc, ◌+◌, ◌-◌, Bool, true, false, not, Option, none, some, List, [], ◌∷◌, ◌++◌, ◌==◌,
  nat_eq, if◌then◌else◌, length, drop,
}
use cpa_plugin_key_policy.Jsonscan.{
  Bytes, Scan, crossed, malformed, out_of_fuel, skip_space, skip_string, skip_value, take,
}

-- `raw[i]`, none past the end
abbrev pub byte_at : Bytes → ℕ → Option ℕ
byte_at [] i = none
byte_at (c ∷ s) zero = some c
byte_at (c ∷ s) (suc i) = byte_at s i

abbrev pub has_byte : ℕ → Bytes → ℕ → Bool
has_byte b raw i = elim (byte_at raw i) [ none ↦ false | some c ↦ c == b ]

-- what a visitor is called with, and how a walk ends: at the end of the object or array or because
-- the visitor wants no more, or with `ErrMalformed`
pub data Ending : Type 0 where
  done ill_formed no_fuel : Ending

-- what follows an element or a member that ends at `end`: the next one, past a comma, or the end
pub data After : Type 0 where
  more : ℕ → After
  stop : Ending → After

unfoldable pub after : Bytes → ℕ → ℕ → After
unfolding skip_space
after raw close end =
    let next = skip_space raw end in
    if has_byte b',' raw next
    then more (skip_space raw (next + 1))
    else stop (if has_byte close raw next then done else ill_formed)

-- the loop of `Elements`, from the element at `i`
unfoldable pub elements_from : ℕ → Bytes → (ℕ → ℕ → Bool) → ℕ → List (ℕ × ℕ) → List (ℕ × ℕ) × Ending
unfolding after skip_value
elements_from zero raw visit i seen = (seen, no_fuel)
elements_from (suc fuel) raw visit i seen = elim (skip_value raw i) [
  | malformed ↦ (seen, ill_formed)
  | out_of_fuel ↦ (seen, no_fuel)
  | crossed end ↦
      let seen' = seen ++ ((i, end) ∷ []) in
      elim (visit i end) [
        | false ↦ (seen', done)
        | true ↦ elim (after raw b']' end) [
          | stop ending ↦ (seen', ending)
          | more next ↦ elements_from fuel raw visit next seen'
        ]
      ]
]

-- `Elements`, with the spans that the visitor is called with
unfoldable pub elements : Bytes → (ℕ → ℕ → Bool) → List (ℕ × ℕ) × Ending
unfolding elements_from
elements raw visit =
    let i = skip_space raw 0 in
    let first = skip_space raw (i + 1) in
    if not (has_byte b'[' raw i)
    then ([], ill_formed)
    else if has_byte b']' raw first
    then ([], done)
    else elements_from (length raw + 1) raw visit first []

-- a member of an object: its key, and the span of its value
abbrev pub Member : Type 0
Member = Bytes × ℕ × ℕ

-- the member at an index, or why there is none
pub data MemberScan : Type 0 where
  member : Bytes → ℕ → ℕ → MemberScan
  no_member : Ending → MemberScan

unfoldable pub spanned : Bytes → ℕ → Scan → MemberScan
spanned key start (crossed end) = member key start end
spanned key start malformed = no_member ill_formed
spanned key start out_of_fuel = no_member no_fuel

-- a member past its key, which ends at `key_end`
unfoldable pub member_past : Bytes → ℕ → Scan → MemberScan
unfolding skip_value skip_space spanned
member_past raw i malformed = no_member ill_formed
member_past raw i out_of_fuel = no_member no_fuel
member_past raw i (crossed key_end) =
    let key = take (key_end - 1 - (i + 1)) (drop (i + 1) raw) in
    let colon = skip_space raw key_end in
    let start = skip_space raw (colon + 1) in
    if has_byte b':' raw colon
    then spanned key start (skip_value raw start)
    else no_member ill_formed

unfoldable pub member_at : Bytes → ℕ → MemberScan
unfolding member_past skip_string
member_at raw i = member_past raw i (skip_string raw i)

-- the loop of `Members`, from the key at `i`
unfoldable pub members_from :
    ℕ → Bytes → (Bytes → ℕ → ℕ → Bool) → ℕ → List Member → List Member × Ending
unfolding after member_at
members_from zero raw visit i seen = (seen, no_fuel)
members_from (suc fuel) raw visit i seen = elim (member_at raw i) [
  | no_member ending ↦ (seen, ending)
  | member key start end ↦
      let seen' = seen ++ ((key, start, end) ∷ []) in
      elim (visit key start end) [
        | false ↦ (seen', done)
        | true ↦ elim (after raw b'}' end) [
          | stop ending ↦ (seen', ending)
          | more next ↦ members_from fuel raw visit next seen'
        ]
      ]
]

-- `Members`, with what the visitor is called with
unfoldable pub members : Bytes → (Bytes → ℕ → ℕ → Bool) → List Member × Ending
unfolding members_from
members raw visit =
    let i = skip_space raw 0 in
    let first = skip_space raw (i + 1) in
    if not (has_byte b'{' raw i)
    then ([], ill_formed)
    else if has_byte b'}' raw first
    then ([], done)
    else members_from (length raw + 1) raw visit first []
