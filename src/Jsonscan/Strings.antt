-- ===== src/Jsonscan/Strings.antt =====
-- `SkipString` of internal/jsonscan/jsonscan.go against a scan that reads one byte after the other.
use cpa_plugin_key_policy.Base.{
  ℕ, zero, suc, ◌+◌, ◌-◌, ◌*◌, ◌≤◌, ◌<◌, ◌≡◌, refl, Bool, false, not, ◌&&◌, none, some, [], ◌∷◌,
  ltb, ◌==◌, nat_eq, if◌then◌else◌, length, length-drop, drop, arith, Option-cases, Bool-cases, inl,
  inr, ltb-false,
}
use cpa_plugin_key_policy.Jsonscan.{
  Bytes, quote, backslash, Scan, crossed, malformed, take, index_byte, search_quote, step_escapes,
  string_at, skip_string,
}

-- A literal past its first quote, read byte by byte: it ends at the first quote that no backslash
-- escapes.
unfoldable pub literal_end : Bool → Bytes → ℕ → Scan
literal_end escaped [] i = malformed
literal_end escaped (c ∷ s) i =
    let rest = literal_end (not escaped && c == backslash) s (i + 1) in
    if not escaped && c == quote then crossed (i + 1) else rest

literal_end_missing :
    (escaped : Bool) (s : Bytes) (i : ℕ)
    → index_byte quote s ≡ none
    → literal_end escaped s i ≡ malformed
unfolding index_byte literal_end
literal_end_missing escaped [] i h = refl
literal_end_missing escaped (c ∷ s) i h =
    ground (arith, literal_end_missing (not escaped && c == backslash) s (i + 1))

literal_end_plain :
    (s : Bytes) (i n : ℕ)
    → index_byte quote s ≡ some n
    → index_byte backslash (take n s) ≡ none
    → literal_end false s i ≡ crossed (i + n + 1)
unfolding index_byte literal_end
literal_end_plain [] i n h k = absurd (cc)
literal_end_plain (c ∷ s) i zero h k = ground arith
literal_end_plain (c ∷ s) i (suc n) h k = ground (arith, literal_end_plain s (i + 1) n)

literal_end_escape :
    (s : Bytes) (i n b : ℕ)
    → index_byte quote s ≡ some n
    → index_byte backslash (take n s) ≡ some b
    → literal_end false s i ≡ literal_end false (drop (b + 2) s) (i + b + 2)
unfolding index_byte literal_end
literal_end_escape [] i n b h k = absurd (cc)
literal_end_escape (c ∷ s) i zero b h k = absurd (cc)
literal_end_escape (c ∷ []) i (suc n) b h k = ground arith
literal_end_escape (c ∷ d ∷ s) i (suc n) zero h k = ground arith
literal_end_escape (c ∷ d ∷ s) i (suc n) (suc b) h k =
    let e : suc b + 2 ≡ suc (b + 2) = omega arith in
    let t = literal_end_escape (d ∷ s) (i + 1) n b in rw e (ground (arith, t))

index_byte-drop :
    (q : ℕ) (s : Bytes) (k n : ℕ)
    → index_byte q s ≡ some n
    → k ≤ n
    → index_byte q (drop k s) ≡ some (n - k)
unfolding index_byte
index_byte-drop q s zero n h le = ground (arith, h)
index_byte-drop q [] (suc k) n h le = absurd (cc)
index_byte-drop q (c ∷ s) (suc k) zero h le = absurd (omega arith)
index_byte-drop q (c ∷ s) (suc k) (suc n) h le = ground (arith, index_byte-drop q s k n)

index_byte-lt : (q : ℕ) (s : Bytes) (n : ℕ) → index_byte q s ≡ some n → n < length s
unfolding index_byte
index_byte-lt q [] n h = absurd (cc)
index_byte-lt q (c ∷ s) zero h = omega arith
index_byte-lt q (c ∷ s) (suc n) h = ground (arith, index_byte-lt q s n)

mutual
  unfolding search_quote step_escapes

  search_quote_lem :
      (fuel : ℕ) (s : Bytes) (j : ℕ)
      → 2 * length s + 2 ≤ fuel
      → search_quote fuel s j ≡ literal_end false s j
  search_quote_lem zero s j enough = absurd (omega arith)
  search_quote_lem (suc fuel) s j enough = elim (Option-cases (index_byte quote s)) [
    | inl missing ↦ rw (missing, search_quote, literal_end_missing false s j missing) refl
    | inr (n, found) ↦
        rw (found, search_quote) (step_escapes_lem fuel s j (j + n) n (omega arith) found refl)
  ]

  step_escapes_lem :
      (fuel : ℕ) (s : Bytes) (j end n : ℕ)
      → 2 * length s + 1 ≤ fuel
      → index_byte quote s ≡ some n
      → end ≡ j + n
      → step_escapes fuel s j end ≡ literal_end false s j
  step_escapes_lem zero s j end n enough found at = absurd (omega arith)
  step_escapes_lem (suc fuel) s j end n enough found at =
      let shift : end - j ≡ n = omega arith in
      let short = index_byte-lt quote s n found in
      rw (shift, step_escapes)
        (elim (Option-cases (index_byte backslash (take n s))) [
          | inl plain ↦ rw (plain, literal_end_plain s j n found plain, at) refl
          | inr (b, escape) ↦
              rw (escape, literal_end_escape s j n b found escape)
                (elim (Bool-cases (ltb end (j + b + 2))) [
                  | inl past ↦ rw past (
                      search_quote_lem fuel (drop (b + 2) s) (j + b + 2)
                        (omega (arith, length-drop (b + 2) s)))
                  | inr before ↦
                      let le = ltb-false end (j + b + 2) before in
                      rw before (
                        step_escapes_lem fuel (drop (b + 2) s) (j + b + 2) end (n - (b + 2))
                          (omega (arith, length-drop (b + 2) s))
                          (index_byte-drop quote s (b + 2) n found (omega arith)) (omega arith))
                ])
        ])

pub string_at-literal_end :
    (s : Bytes) (i : ℕ)
    → string_at s i ≡ elim s [
      | [] ↦ malformed
      | c ∷ t ↦ if c == quote then literal_end false t (i + 1) else malformed
    ]
unfolding string_at
string_at-literal_end [] i = refl
string_at-literal_end (c ∷ s) i =
    rw (search_quote_lem (2 * length s + 2) s (i + 1) (omega arith)) refl

-- Crossing a string literal, which looks for quotes and then steps from escape to escape, ends
-- where reading the literal byte by byte ends, just past its first quote that is not escaped, and
-- is refused exactly where that is; the fuel is enough.
pub skip_string-literal_end :
    (raw : Bytes) (i : ℕ)
    → skip_string raw i ≡ elim (drop i raw) [
      | [] ↦ malformed
      | c ∷ s ↦ if c == quote then literal_end false s (i + 1) else malformed
    ]
unfolding skip_string
skip_string-literal_end raw i = string_at-literal_end (drop i raw) i
