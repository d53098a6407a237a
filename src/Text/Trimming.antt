-- ===== src/Text/Trimming.antt =====
-- A text that `strings.TrimSpace` has trimmed is left as it is by trimming it again.
use cpa_plugin_key_policy.Base.{◌≡◌, refl, false, ◌&&◌, String, if-false, Bool-cases, inl, inr}
use cpa_plugin_key_policy.Text.{is_space, blank, trim_left, trim_right, trim_space}

-- no blank end
abbrev EndsWell : String → Type 0
EndsWell String.[] = Unit
EndsWell (String.◌∷◌ c s) = ((is_space c && blank s) ≡ false) × EndsWell s

blank-trim_right : (s : String) → blank (trim_right s) ≡ blank s
unfolding blank trim_right
blank-trim_right String.[] = refl
blank-trim_right (String.◌∷◌ c s) = elim (Bool-cases (is_space c && blank s)) [
  | inl end ↦ rw end refl
  | inr inside ↦ rw inside (rw (blank-trim_right s) inside)
]

trim_right-EndsWell : (s : String) → EndsWell (trim_right s)
unfolding blank trim_right
trim_right-EndsWell String.[] = tt
trim_right-EndsWell (String.◌∷◌ c s) = elim (Bool-cases (is_space c && blank s)) [
  | inl end ↦ rw end tt
  | inr inside ↦ rw inside (rw (blank-trim_right s) inside, trim_right-EndsWell s)
]

trim_right-eq : (s : String) → EndsWell s → trim_right s ≡ s
unfolding trim_right
trim_right-eq String.[] h = refl
trim_right-eq (String.◌∷◌ c s) h = rw (h.0, trim_right-eq s h.1) refl

trim_left-EndsWell : (s : String) → EndsWell s → EndsWell (trim_left s)
unfolding trim_left
trim_left-EndsWell String.[] h = tt
trim_left-EndsWell (String.◌∷◌ c s) h = elim (Bool-cases (is_space c)) [
  | inl space ↦ rw space (trim_left-EndsWell s h.1)
  | inr text ↦ rw (if-false (is_space c) (trim_left s) (String.◌∷◌ c s) text) h
]

trim_left_idem : (s : String) → trim_left (trim_left s) ≡ trim_left s
unfolding trim_left
trim_left_idem String.[] = refl
trim_left_idem (String.◌∷◌ c s) = elim (Bool-cases (is_space c)) [
  | inl space ↦ rw space (trim_left_idem s)
  | inr text ↦ rw (text, text) refl
]

pub trim_space_idem : (s : String) → trim_space (trim_space s) ≡ trim_space s
unfolding trim_space
trim_space_idem s =
    rw
      (trim_right-eq (trim_left (trim_right s))
        (trim_left-EndsWell (trim_right s) (trim_right-EndsWell s)))
      (trim_left_idem (trim_right s))
