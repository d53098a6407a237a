-- ===== src/Jsonscan/Walks.antt =====
-- The walks over the members of an object of internal/jsonscan/jsonscan.go.
use cpa_plugin_key_policy.Base.{
  ℕ, zero, suc, ◌+◌, ◌-◌, ◌≤◌, ◌<◌, ◌≡◌, ◌≢◌, ◌⊎◌, refl, Bool, true, false, List, [], ◌∷◌, ◌++◌,
  nat_eq, if◌then◌else◌, length, drop, arith, Bool-cases, inl, inr, All, All-append,
}
use cpa_plugin_key_policy.Jsonscan.{
  Bytes, Scan, crossed, malformed, out_of_fuel, take, is_space, spaces_end, skip_space, skip_string,
  skip_value,
}
use cpa_plugin_key_policy.Jsonscan.Members.{
  has_byte, Ending, done, ill_formed, no_fuel, Member, MemberScan, member, no_member, spanned,
  member_past, member_at, After, more, stop, after, members_from, members,
}
use cpa_plugin_key_policy.Jsonscan.Bounds.{
  EndsWithin, skip_string-EndsWithin, skip_value-EndsWithin,
}

spaces_end-le : (s : Bytes) (i : ℕ) → i ≤ spaces_end s i
unfolding spaces_end
spaces_end-le [] i = omega arith
spaces_end-le (c ∷ s) i = elim (Bool-cases (is_space c)) [
  | inl space ↦ rw space (omega (arith, spaces_end-le s (i + 1)))
  | inr other ↦ rw other (omega arith)
]

skip_space-le : (raw : Bytes) (i : ℕ) → i ≤ skip_space raw i
unfolding skip_space
skip_space-le raw i = spaces_end-le (drop i raw) i

-- a member whose value is a span of the text
abbrev pub IsInside : Bytes → Member → Type 0
IsInside raw (key, start, end) = (start < end) × (end ≤ length raw)

-- a walk whose members are inside the text, and that ends
abbrev pub IsWalk : Bytes → List Member × Ending → Type 0
IsWalk raw (seen, ending) = All (IsInside raw) seen × (ending ≢ no_fuel)

-- what follows `end`, past it, or an ending
abbrev IsAfter : ℕ → After → Type 0
IsAfter end (more next) = end < next
IsAfter end (stop ending) = ending ≢ no_fuel

after-IsAfter : (raw : Bytes) (close end : ℕ) → IsAfter end (after raw close end)
unfolding after
after-IsAfter raw close end =
    let next = skip_space raw end in
    elim (Bool-cases (has_byte b',' raw next)) [
      | inl comma ↦ rw comma (omega (arith, skip_space-le raw end, skip_space-le raw (next + 1)))
      | inr other ↦ rw other (ending (has_byte close raw next))
    ]
  where
    ending : (b : Bool) → (if b then done else ill_formed) ≢ no_fuel
    ending true e = cc
    ending false e = cc

-- a member that is inside the text and ends past its key's first quote, or an ending
abbrev IsMember : Bytes → ℕ → MemberScan → Type 0
IsMember raw i (member key start end) = (i < end) × IsInside raw (key, start, end)
IsMember raw i (no_member ending) = ending ≢ no_fuel

spanned-IsMember :
    (raw key : Bytes) (i start : ℕ) (r : Scan)
    → i ≤ start
    → EndsWithin start (length raw) r
    → IsMember raw i (spanned key start r)
unfolding spanned
spanned-IsMember raw key i start (crossed end) le h = omega arith
spanned-IsMember raw key i start malformed le h = λ e. cc
spanned-IsMember raw key i start out_of_fuel le h = absurd h

member_at-IsMember : (raw : Bytes) (i : ℕ) → IsMember raw i (member_at raw i)
unfolding member_at
member_at-IsMember raw i = past_key (skip_string raw i) (skip_string-EndsWithin raw i)
  where
    past_key : (r : Scan) → EndsWithin i (length raw) r → IsMember raw i (member_past raw i r)
    past_key malformed h = λ e. cc
    past_key out_of_fuel h = absurd h
    past_key (crossed key_end) h =
        let key = take (key_end - 1 - (i + 1)) (drop (i + 1) raw) in
        let colon = skip_space raw key_end in
        let start = skip_space raw (colon + 1) in
        elim (Bool-cases (has_byte b':' raw colon)) [
          | inl found ↦ rw found (
              spanned-IsMember raw key i start (skip_value raw start)
                (omega (arith, skip_space-le raw key_end, skip_space-le raw (colon + 1)))
                (skip_value-EndsWithin raw start))
          | inr missing ↦ rw missing (λ e. cc)
        ]

MemberScan-cases :
    (m : MemberScan)
    → ((key : Bytes) × (start : ℕ) × (end : ℕ) × (m ≡ member key start end))
      ⊎ ((ending : Ending) × (m ≡ no_member ending))
MemberScan-cases (member key start end) = inl (key, start, end, refl)
MemberScan-cases (no_member ending) = inr (ending, refl)

After-cases : (a : After) → ((next : ℕ) × (a ≡ more next)) ⊎ ((ending : Ending) × (a ≡ stop ending))
After-cases (more next) = inl (next, refl)
After-cases (stop ending) = inr (ending, refl)

members_from-IsWalk :
    (raw : Bytes) (visit : Bytes → ℕ → ℕ → Bool) (fuel i : ℕ) (seen : List Member)
    → 0 < fuel
    → length raw < fuel + i
    → All (IsInside raw) seen
    → IsWalk raw (members_from fuel raw visit i seen)
unfolding members_from
members_from-IsWalk raw visit zero i seen pos enough h = absurd (omega arith)
members_from-IsWalk raw visit (suc fuel) i seen pos enough h =
    elim (MemberScan-cases (member_at raw i)) [
      | inr (ending, found) ↦ rw (found, members_from) (h, rw found at (member_at-IsMember raw i))
      | inl (key, start, end, found) ↦
          let here : IsMember raw i (member key start end) =
            rw found at (member_at-IsMember raw i) in
          let seen' = seen ++ ((key, start, end) ∷ []) in
          let h' : All (IsInside raw) seen' =
            All-append (IsInside raw) seen ((key, start, end) ∷ []) h (here.1, tt) in
          rw (found, members_from)
            (elim (Bool-cases (visit key start end)) [
              | inr enough_seen ↦ rw enough_seen (h', λ e. cc)
              | inl on ↦ rw on (elim (After-cases (after raw b'}' end)) [
                | inr (ending, last) ↦ rw last (h', rw last at (after-IsAfter raw b'}' end))
                | inl (next, comma) ↦
                    let past : end < next = rw comma at (after-IsAfter raw b'}' end) in
                    rw comma
                      (members_from-IsWalk raw visit fuel next seen' (omega arith) (omega arith) h')
              ])
            ])
    ]

-- Whatever the visitor answers, a walk over the members of an object ends with fuel to spare, and
-- the value of each member that it visits is not empty and lies inside the text.
pub members-IsWalk : (raw : Bytes) (visit : Bytes → ℕ → ℕ → Bool) → IsWalk raw (members raw visit)
unfolding members
members-IsWalk raw visit =
    let i = skip_space raw 0 in
    let first = skip_space raw (i + 1) in
    elim (Bool-cases (has_byte b'{' raw i)) [
      | inr other ↦ rw other (tt, λ e. cc)
      | inl open_brace ↦ elim (Bool-cases (has_byte b'}' raw first)) [
        | inl empty ↦ rw (open_brace, empty) (tt, λ e. cc)
        | inr some_member ↦
            rw (open_brace, some_member)
              (members_from-IsWalk raw visit (length raw + 1) first [] (omega arith) (omega arith)
                tt)
      ]
    ]
