-- ===== src/Jsonscan/Bounds.antt =====
-- Every scan of internal/jsonscan/jsonscan.go ends, and within the text.
use cpa_plugin_key_policy.Base.{
  ℕ, zero, suc, ◌+◌, ◌-◌, ◌≤◌, ◌<◌, ◌≡◌, ◌⊎◌, refl, Bool, false, not, ◌&&◌, [], ◌∷◌, ◌==◌, nat_eq,
  if◌then◌else◌, length, length-drop, drop, arith, Bool-cases, inl, inr,
}
use cpa_plugin_key_policy.Jsonscan.{
  Bytes, quote, backslash, Scan, crossed, malformed, out_of_fuel, string_at, skip_string, opens,
  closes, container_end, depth_past, ends_scalar, scalar_end, value_at, skip_value,
}
use cpa_plugin_key_policy.Jsonscan.Strings.{literal_end, string_at-literal_end}

-- a scan that ends, past `low` and not past `high` where it crosses anything
abbrev pub EndsWithin : ℕ → ℕ → Scan → Type 0
EndsWithin low high (crossed e) = (low < e) × (e ≤ high)
EndsWithin low high malformed = Unit
EndsWithin low high out_of_fuel = ⊥

EndsWithin-wider :
    (low high low' high' : ℕ) (r : Scan)
    → EndsWithin low high r
    → low' ≤ low
    → high ≤ high'
    → EndsWithin low' high' r
EndsWithin-wider low high low' high' (crossed e) h a b = omega arith
EndsWithin-wider low high low' high' malformed h a b = tt
EndsWithin-wider low high low' high' out_of_fuel h a b = h

literal_end-EndsWithin :
    (escaped : Bool) (s : Bytes) (i : ℕ) → EndsWithin i (i + length s) (literal_end escaped s i)
unfolding literal_end
literal_end-EndsWithin escaped [] i = tt
literal_end-EndsWithin escaped (c ∷ s) i = elim (Bool-cases (not escaped && c == quote)) [
  | inl end ↦ rw end (omega arith, omega arith)
  | inr more ↦ rw more (
      EndsWithin-wider (i + 1) (i + 1 + length s) i (i + length (c ∷ s)) _
        (literal_end-EndsWithin (not escaped && c == backslash) s (i + 1)) (omega arith)
        (omega arith))
]

string_at-EndsWithin : (s : Bytes) (i : ℕ) → EndsWithin i (i + length s) (string_at s i)
string_at-EndsWithin s i = rw (string_at-literal_end s i) (at s)
  where
    at :
        (s : Bytes)
        → EndsWithin i (i + length s) (elim s [
          | [] ↦ malformed
          | c ∷ t ↦ if c == quote then literal_end false t (i + 1) else malformed
        ])
    at [] = tt
    at (c ∷ t) = elim (Bool-cases (c == quote)) [
      | inl quoted ↦ rw quoted (
          EndsWithin-wider (i + 1) (i + 1 + length t) i (i + length (c ∷ t)) _
            (literal_end-EndsWithin false t (i + 1)) (omega arith) (omega arith))
      | inr other ↦ rw other tt
    ]

scalar_end-EndsWithin :
    (i : ℕ) (s : Bytes) (j : ℕ) → i ≤ j → EndsWithin i (j + length s) (scalar_end i s j)
unfolding scalar_end
scalar_end-EndsWithin i [] j le = tt
scalar_end-EndsWithin i (c ∷ s) j le = elim (Bool-cases (ends_scalar c)) [
  | inl end ↦ elim (Bool-cases (j == i)) [
    | inl empty ↦ rw (end, empty) tt
    | inr some_bytes ↦ rw (end, some_bytes) (ground (arith, le, some_bytes))
  ]
  | inr more ↦ rw more (
      EndsWithin-wider i (j + 1 + length s) i (j + length (c ∷ s)) _
        (scalar_end-EndsWithin i s (j + 1) (omega arith)) (omega arith) (omega arith))
]

pub Scan-cases : (r : Scan) → ((e : ℕ) × (r ≡ crossed e)) ⊎ ((r ≡ malformed) ⊎ (r ≡ out_of_fuel))
Scan-cases (crossed e) = inl (e, refl)
Scan-cases malformed = inr (inl refl)
Scan-cases out_of_fuel = inr (inr refl)

container_end-EndsWithin :
    (fuel : ℕ) (s : Bytes) (j depth : ℕ)
    → length s < fuel
    → EndsWithin j (j + length s) (container_end fuel s j depth)
unfolding container_end
container_end-EndsWithin zero s j depth enough = absurd (omega arith)
container_end-EndsWithin (suc fuel) [] j depth enough = tt
container_end-EndsWithin (suc fuel) (c ∷ s) j depth enough = elim (Bool-cases (c == quote)) [
  | inl quoted ↦ elim (Scan-cases (string_at (c ∷ s) j)) [
    | inl (e, found) ↦
        let within : EndsWithin j (j + length (c ∷ s)) (crossed e) =
          rw found at (string_at-EndsWithin (c ∷ s) j) in
        let rest : length (drop (e - j) (c ∷ s)) ≡ length (c ∷ s) - (e - j) =
          length-drop (e - j) (c ∷ s) in
        rw (quoted, found, container_end)
          (EndsWithin-wider e (e + length (drop (e - j) (c ∷ s))) j (j + length (c ∷ s)) _
            (container_end-EndsWithin fuel (drop (e - j) (c ∷ s)) e depth (omega arith))
            (omega arith) (omega arith))
    | inr (inl bad) ↦ rw (quoted, bad, container_end) tt
    | inr (inr stuck) ↦ absurd (rw stuck at (string_at-EndsWithin (c ∷ s) j))
  ]
  | inr other ↦ elim (Bool-cases (closes c && depth == 1)) [
    | inl last ↦ rw (other, last, container_end) (omega arith, omega arith)
    | inr more ↦
        rw (other, more, container_end)
          (EndsWithin-wider (j + 1) (j + 1 + length s) j (j + length (c ∷ s)) _
            (container_end-EndsWithin fuel s (j + 1) (depth_past c depth) (omega arith))
            (omega arith) (omega arith))
  ]
]

value_at-EndsWithin : (s : Bytes) (i : ℕ) → EndsWithin i (i + length s) (value_at s i)
unfolding value_at
value_at-EndsWithin [] i = tt
value_at-EndsWithin (c ∷ s) i = elim (Bool-cases (c == quote)) [
  | inl quoted ↦ rw quoted (string_at-EndsWithin (c ∷ s) i)
  | inr other ↦ elim (Bool-cases (opens c)) [
    | inl opener ↦
        rw (other, opener) (container_end-EndsWithin (length s + 2) (c ∷ s) i 0 (omega arith))
    | inr scalar ↦ rw (other, scalar) (scalar_end-EndsWithin i (c ∷ s) i (omega arith))
  ]
]

EndsWithin-drop :
    (raw : Bytes) (i : ℕ) (r : Scan)
    → EndsWithin i (i + length (drop i raw)) r
    → EndsWithin i (length raw) r
EndsWithin-drop raw i (crossed e) h = omega (arith, length-drop i raw)
EndsWithin-drop raw i malformed h = tt
EndsWithin-drop raw i out_of_fuel h = h

pub skip_string-EndsWithin : (raw : Bytes) (i : ℕ) → EndsWithin i (length raw) (skip_string raw i)
unfolding skip_string
skip_string-EndsWithin raw i =
    EndsWithin-drop raw i (string_at (drop i raw) i) (string_at-EndsWithin (drop i raw) i)

-- Crossing a value ends past the index that it starts at and at most at the end of the text, or is
-- refused as malformed; it never runs out of fuel.
pub skip_value-EndsWithin : (raw : Bytes) (i : ℕ) → EndsWithin i (length raw) (skip_value raw i)
unfolding skip_value
skip_value-EndsWithin raw i =
    EndsWithin-drop raw i (value_at (drop i raw) i) (value_at-EndsWithin (drop i raw) i)
