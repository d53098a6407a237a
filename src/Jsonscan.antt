-- ===== src/Jsonscan.antt =====
-- Crossing JSON values without decoding them: internal/jsonscan/jsonscan.go. A text is its bytes. A
-- loop keeps the slice raw[j:] that is left beside the index j; those that drop more than one byte
-- in a round run on fuel.
pub mod Strings
pub mod Bounds
pub mod Walks
pub mod Members
use cpa_plugin_key_policy.Base.{
  ℕ, zero, suc, ◌+◌, ◌-◌, ◌*◌, Bool, true, false, not, ◌||◌, ◌&&◌, Option, none, some, List, [],
  ◌∷◌, ◌++◌, ltb, ◌==◌, nat_eq, if◌then◌else◌, length, drop, option_map,
}

abbrev pub Bytes : Type 0
Bytes = List ℕ

abbrev pub quote : ℕ
quote = 34

abbrev pub backslash : ℕ
backslash = 92

-- the index past what is crossed, or `ErrMalformed`; `out_of_fuel` belongs to the model only
pub data Scan : Type 0 where
  crossed : ℕ → Scan
  malformed out_of_fuel : Scan

abbrev pub take : ℕ → Bytes → Bytes
take zero s = []
take (suc n) [] = []
take (suc n) (c ∷ s) = c ∷ take n s

-- `bytes.IndexByte`, none for -1
unfoldable pub index_byte : ℕ → Bytes → Option ℕ
index_byte b [] = none
index_byte b (c ∷ s) = let rest = index_byte b s in if c == b then some 0 else option_map suc rest

abbrev pub is_space : ℕ → Bool
is_space c = c == b' ' || c == 9 || c == 13 || c == 10

-- the loop of `SkipSpace`
unfoldable pub spaces_end : Bytes → ℕ → ℕ
spaces_end [] i = i
spaces_end (c ∷ s) i = let rest = spaces_end s (i + 1) in if is_space c then rest else i

-- `SkipSpace`
unfoldable pub skip_space : Bytes → ℕ → ℕ
unfolding spaces_end
skip_space raw i = spaces_end (drop i raw) i

-- The two loops of `SkipString` on raw[j:]: the outer one, which looks for the next quote, and the
-- inner one, which steps over the escapes before that quote, at `end`.
mutual
  search_quote : ℕ → Bytes → ℕ → Scan
  search_quote zero s j = out_of_fuel
  search_quote (suc fuel) s j = elim (index_byte quote s) [
    | none ↦ malformed
    | some n ↦ step_escapes fuel s j (j + n)
  ]

  step_escapes : ℕ → Bytes → ℕ → ℕ → Scan
  step_escapes zero s j end = out_of_fuel
  step_escapes (suc fuel) s j end = elim (index_byte backslash (take (end - j) s)) [
    | none ↦ crossed (end + 1)
    | some b ↦
        let s' = drop (b + 2) s in
        let j' = j + b + 2 in
        elim (ltb end j') [ true ↦ search_quote fuel s' j' | false ↦ step_escapes fuel s' j' end ]
  ]

-- the literal that a slice begins with, at an index
unfoldable pub string_at : Bytes → ℕ → Scan
unfolding search_quote
string_at [] i = malformed
string_at (c ∷ s) i = if c == quote then search_quote (2 * length s + 2) s (i + 1) else malformed

-- `SkipString`
unfoldable pub skip_string : Bytes → ℕ → Scan
unfolding string_at
skip_string raw i = string_at (drop i raw) i

abbrev pub opens : ℕ → Bool
opens c = c == b'{' || c == b'['

abbrev pub closes : ℕ → Bool
closes c = c == b'}' || c == b']'

-- the depth past a byte that begins no string
abbrev pub depth_past : ℕ → ℕ → ℕ
depth_past c depth = if opens c then depth + 1 else if closes c then depth - 1 else depth

-- The loop of `SkipValue` over an object or array, on raw[j:]; it ends where the depth falls to 0.
unfoldable pub container_end : ℕ → Bytes → ℕ → ℕ → Scan
container_end zero s j depth = out_of_fuel
container_end (suc fuel) [] j depth = malformed
container_end (suc fuel) (c ∷ s) j depth = elim (c == quote) [
  | true ↦ elim (string_at (c ∷ s) j) [
    | crossed end ↦ container_end fuel (drop (end - j) (c ∷ s)) end depth
    | malformed ↦ malformed
    | out_of_fuel ↦ out_of_fuel
  ]
  | false ↦ elim (closes c && depth == 1) [
    | true ↦ crossed (j + 1)
    | false ↦ container_end fuel s (j + 1) (depth_past c depth)
  ]
]

abbrev pub ends_scalar : ℕ → Bool
ends_scalar c = c == b',' || closes c || is_space c

-- the loop of `SkipValue` over a number, `true`, `false` or `null` that begins at `i`
unfoldable pub scalar_end : ℕ → Bytes → ℕ → Scan
scalar_end i [] j = malformed
scalar_end i (c ∷ s) j =
    let rest = scalar_end i s (j + 1) in
    if ends_scalar c then if j == i then malformed else crossed j else rest

-- the value that a slice begins with, at an index
unfoldable pub value_at : Bytes → ℕ → Scan
unfolding container_end scalar_end
value_at [] i = malformed
value_at (c ∷ s) i =
    if c == quote
    then string_at (c ∷ s) i
    else if opens c
    then container_end (length s + 2) (c ∷ s) i 0
    else scalar_end i (c ∷ s) i

-- `SkipValue`
unfoldable pub skip_value : Bytes → ℕ → Scan
unfolding value_at
skip_value raw i = value_at (drop i raw) i
