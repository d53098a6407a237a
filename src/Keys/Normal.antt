-- ===== src/Keys/Normal.antt =====
-- What `normalizeKeys` of internal/policy/config.go accepts, and what it makes of it.
use cpa_plugin_key_policy.Base.{
  true, false, ◌||◌, ◌≡◌, ap, ◌≢◌, ◌↔◌, ◌⊎◌, inl, inr, Bool-cases, refl, List, [], ◌∷◌, map, String,
  string_eq, ◌==◌, if◌then◌else◌, any, All, arith,
}
use cpa_plugin_key_policy.Base.Results.{
  Result, ok, err, ◌>>=◌, ◌>>◌, >>=-eq-ok, refuse_if, refuse_if-eq-ok,
}
use Prim.Native.Char.{Char}
use cpa_plugin_key_policy.Text.{trim_space, to_lower}
use cpa_plugin_key_policy.Int64.{negative}
use cpa_plugin_key_policy.Money.{Floats}
use cpa_plugin_key_policy.Store.{KeyConfig}
use cpa_plugin_key_policy.Keys.{
  KeyError, balance_key_limits, bad_quota_mode, id_required, duplicate_id, negative_rpm,
  negative_limit, has_negative_limit, has_limit, trimmed, check_mode, normalize_key, normalize_from,
  normalize_keys,
}

-- a mode that has a key limited by periods
plain_mode :
    (mode : String)
    → (mode == "" || mode == "cycle") ≡ true
    → ((mode ≡ "") ⊎ (mode ≡ "cycle")) × ((mode == "balance") ≡ false)
plain_mode mode h = elim (Bool-cases (mode == "")) [
  | inl e ↦ let e' : mode ≡ "" = (string_eq.same_iff mode "").0 e in (inl e', rw e' refl)
  | inr n ↦
      let e' : mode ≡ "cycle" = (string_eq.same_iff mode "cycle").0 (rw n at h) in
      (inr e', rw e' refl)
]

-- The mode names the periods, or the balance where the key has no limits of periods.
abbrev pub IsModed : {fl : Floats} → String → KeyConfig fl → Type 0
IsModed mode raw = ((mode ≡ "") ⊎ (mode ≡ "cycle")) ⊎ ((mode ≡ "balance") × (has_limit raw ≡ false))

ok_injective : {A : Type 0} (a b : A) → ◌≡◌ {A = Result KeyError A} (ok a) (ok b) → a ≡ b
ok_injective a b h = cc

module _ {fl : Floats} where
  -- none of the ids of the list is `id`
  abbrev pub Fresh : String → List (KeyConfig fl) → Type 0
  Fresh id keys = All (λ k. id ≢ k.id) keys

  abbrev pub HasDistinctIds : List (KeyConfig fl) → Type 0
  HasDistinctIds [] = Unit
  HasDistinctIds (k ∷ keys) = Fresh k.id keys × HasDistinctIds keys

module _ (fl : Floats) (lower : Char → Char) where
  abbrev pub mode_text : KeyConfig fl → String
  mode_text raw = to_lower lower (trim_space raw.quota_mode)

  -- a key as it is kept
  abbrev pub normal : KeyConfig fl → KeyConfig fl
  normal raw = record raw {
    id = trim_space raw.id;
    name = if trim_space raw.name == "" then trim_space raw.id else trim_space raw.name;
    key_hash = trim_space raw.key_hash;
    key_preview = trim_space raw.key_preview;
    quota_mode = if mode_text raw == "balance" then "balance" else "";
  }

  -- a key that can be kept
  pub record IsAcceptable (raw : KeyConfig fl) : Type 0 where
    pub named : trim_space raw.id ≢ ""
    pub rated : negative raw.rpm ≡ false
    pub limited : has_negative_limit raw ≡ false
    pub moded : IsModed (mode_text raw) raw

  check_mode-eq-ok :
      (raw k : KeyConfig fl)
      → check_mode fl lower raw ≡ ok k
      → (k ≡ record raw { quota_mode = if mode_text raw == "balance" then "balance" else "" })
        × IsModed (mode_text raw) raw
  unfolding check_mode
  check_mode-eq-ok raw k h = elim (Bool-cases (mode_text raw == "" || mode_text raw == "cycle")) [
    | inl plain ↦
        let (which, other) = plain_mode (mode_text raw) plain in
        let h' : ok (record raw { quota_mode = "" }) ≡ ok k = rw plain at h in
        rw other (cc, inl which)
    | inr rest ↦ elim (Bool-cases (mode_text raw == "balance")) [
      | inl balance ↦
          let m : mode_text raw ≡ "balance" =
            (string_eq.same_iff (mode_text raw) "balance").0 balance in
          elim (Bool-cases (has_limit raw)) [
            | inl limited ↦ absurd (
                let h' : err (balance_key_limits raw.id) ≡ ok k =
                  rw (rest, balance, limited) at h in
                cc)
            | inr free ↦
                let h' : ok (record raw { quota_mode = mode_text raw }) ≡ ok k =
                  rw (rest, balance, free) at h in
                rw balance (
                  let e = ap (λ (t : String). record raw { quota_mode = t }) m in cc,
                  inr (m, free),
                )
          ]
      | inr bad ↦ absurd (let h' : err (bad_quota_mode raw.id) ≡ ok k = rw (rest, bad) at h in cc)
    ]
  ]

  normalize_key-eq-ok :
      (seen : List String) (raw k : KeyConfig fl)
      → normalize_key fl lower seen raw ≡ ok k
      → (k ≡ normal raw) × IsAcceptable raw × (any (λ id. id == trim_space raw.id) seen ≡ false)
  unfolding normalize_key trimmed
  normalize_key-eq-ok seen raw k h =
      let kept = trimmed raw in
      let whole = record kept { name = if kept.name == "" then kept.id else kept.name } in
      let rest4 = check_mode fl lower whole in
      let rest3 = refuse_if (has_negative_limit kept) (negative_limit kept.id) >> rest4 in
      let rest2 = refuse_if (negative kept.rpm) (negative_rpm kept.id) >> rest3 in
      let dup = any (λ id. id == kept.id) seen in
      let rest1 = refuse_if dup (duplicate_id kept.id) >> rest2 in
      let (named, h1) = refuse_if-eq-ok (kept.id == "") id_required rest1 h in
      let (new, h2) = refuse_if-eq-ok dup (duplicate_id kept.id) rest2 h1 in
      let (rated, h3) = refuse_if-eq-ok (negative kept.rpm) (negative_rpm kept.id) rest3 h2 in
      let (limited, h4) =
        refuse_if-eq-ok (has_negative_limit kept) (negative_limit kept.id) rest4 h3 in
      let (made, moded) = check_mode-eq-ok whole k h4 in
      (
        made,
        record {
          named = λ e. ground (arith, named, string_eq.same_iff kept.id "");
          rated = rated;
          limited = limited;
          moded = moded;
        },
        new,
      )

  check_mode-IsModed :
      (raw : KeyConfig fl)
      → IsModed (mode_text raw) raw
      → check_mode fl lower raw
        ≡ ok (record raw { quota_mode = if mode_text raw == "balance" then "balance" else "" })
  unfolding check_mode
  check_mode-IsModed raw (inl (inl e)) = rw e refl
  check_mode-IsModed raw (inl (inr e)) = rw e refl
  check_mode-IsModed raw (inr (e, free)) = rw (e, free) refl

  normalize_key-IsAcceptable :
      (seen : List String) (raw : KeyConfig fl)
      → IsAcceptable raw
      → any (λ id. id == trim_space raw.id) seen ≡ false
      → normalize_key fl lower seen raw ≡ ok (normal raw)
  unfolding normalize_key trimmed
  normalize_key-IsAcceptable seen raw a new =
      let kept = trimmed raw in
      let whole = record kept { name = if kept.name == "" then kept.id else kept.name } in
      let named : (trim_space raw.id == "") ≡ false =
        ground (arith, a.named, string_eq.same_iff (trim_space raw.id) "") in
      rw (named, new, a.rated, a.limited) (check_mode-IsModed whole a.moded)

  -- a key whose id is none of those seen
  abbrev Unseen : List String → KeyConfig fl → Type 0
  Unseen seen k = any (λ id. id == k.id) seen ≡ false

  All-Unseen :
      (id : String) (seen : List String) (keys : List (KeyConfig fl))
      → All (Unseen (id ∷ seen)) keys ↔ (Fresh id keys × All (Unseen seen) keys)
  All-Unseen id seen [] = (λ _. (tt, tt), λ _. tt)
  All-Unseen id seen (k ∷ keys) =
      let (apart, joined) = All-Unseen id seen keys in
      (
        λ h. (
          ((λ e. absurd (ground (arith, h.0, string_eq.same_iff id k.id))), (apart h.1).0),
          (ground (arith, h.0), (apart h.1).1),
        ),
        λ h. (ground (arith, h.0.0, h.1.0, string_eq.same_iff id k.id), joined (h.0.1, h.1.1)),
      )

  All-Unseen_none : (keys : List (KeyConfig fl)) → All (Unseen []) keys
  All-Unseen_none [] = tt
  All-Unseen_none (k ∷ keys) = (refl, All-Unseen_none keys)

  normalize_from-eq-ok :
      (seen : List String) (raws keys : List (KeyConfig fl))
      → normalize_from fl lower seen raws ≡ ok keys
      → (keys ≡ map normal raws)
        × All IsAcceptable raws
        × All (Unseen seen) keys
        × HasDistinctIds keys
  unfolding normalize_from
  normalize_from-eq-ok seen [] keys h = rw (← ok_injective [] keys h) (refl, tt, tt, tt)
  normalize_from-eq-ok seen (raw ∷ raws) keys h =
      let (k, hk, h1) =
        >>=-eq-ok (normalize_key fl lower seen raw)
          (λ k. normalize_from fl lower (k.id ∷ seen) raws >>= λ ks. ok (k ∷ ks)) h in
      let (ks, hks, h2) =
        >>=-eq-ok (normalize_from fl lower (k.id ∷ seen) raws) (λ ks. ok (k ∷ ks)) h1 in
      let (same, fine, new) = normalize_key-eq-ok seen raw k hk in
      let (sames, fines, news, distinct) = normalize_from-eq-ok (k.id ∷ seen) raws ks hks in
      let (fresh, unseen) = (All-Unseen k.id seen ks).0 news in
      rw (← ok_injective (k ∷ ks) keys h2)
        (rw (same, sames) refl, (fine, fines), (rw same new, unseen), (fresh, distinct))

  normalize_from-IsAcceptable :
      (seen : List String) (raws : List (KeyConfig fl))
      → All IsAcceptable raws
      → All (Unseen seen) (map normal raws)
      → HasDistinctIds (map normal raws)
      → normalize_from fl lower seen raws ≡ ok (map normal raws)
  unfolding normalize_from
  normalize_from-IsAcceptable seen [] a u d = refl
  normalize_from-IsAcceptable seen (raw ∷ raws) (a, as') (u, us) (f, d) =
      rw
        (
          normalize_key-IsAcceptable seen raw a u,
          normalize_from-IsAcceptable (trim_space raw.id ∷ seen) raws as'
              ((All-Unseen (trim_space raw.id) seen (map normal raws)).1 (f, us)) d,
        )
        refl

-- The check of a list of keys gives a list exactly when that is the list of the keys' normal forms,
-- every key has an id, no negative rate or limit and a known quota mode, with no limit on a prepaid
-- key, and the trimmed ids are distinct.
pub normalize_keys-eq-ok :
    (fl : Floats) (lower : Char → Char) (raws keys : List (KeyConfig fl))
    → (normalize_keys fl lower raws ≡ ok keys) ↔ (
        (keys ≡ map (normal fl lower) raws)
        × All (IsAcceptable fl lower) raws
        × HasDistinctIds (map (normal fl lower) raws))
unfolding normalize_keys
normalize_keys-eq-ok fl lower raws keys = (
  λ h.
      let (same, fine, _, distinct) = normalize_from-eq-ok fl lower [] raws keys h in
      (same, fine, rw (← same) distinct),
  λ h. rw h.0 (
      normalize_from-IsAcceptable fl lower [] raws h.1
        (All-Unseen_none fl lower (map (normal fl lower) raws)) h.2),
)
