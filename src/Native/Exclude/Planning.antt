-- ===== src/Native/Exclude/Planning.antt =====
-- What `planLocked` of internal/search/native/exclude.go may take off a channel.
use cpa_plugin_key_policy.Base.{
  ◌<◌, ◌≡◌, ◌≢◌, ◌⊎◌, inl, inr, refl, sym, ap, Bool, true, false, not, ◌&&◌, ◌||◌, Option, none,
  some, List, [], ◌∷◌, string_eq, nat_eq, ◌==◌, arith, Bool-cases, All,
}
use cpa_plugin_key_policy.Dict.Entries.{Has}
use cpa_plugin_key_policy.Calendar.{Time}
use cpa_plugin_key_policy.Native.{confirmed}
use cpa_plugin_key_policy.Native.Decide.{Credential, has}
use cpa_plugin_key_policy.Native.Exclude.{
  Exclusion, Exclusions, Manager, Pair, is_active, can_add, pair_of,
}
use cpa_plugin_key_policy.Native.Exclude.Moving.{
  Planned, credential_by_index, notice, settle_trial, settle, is_over, edit_settled, move_noticed,
  move, moved, move_all,
}

-- Why a model may be taken off a channel: automatic exclusion is on and may add, the model searches
-- natively, the operator does not keep the channel, and the channel is confirmed not to search for
-- it, or a trial of it has just ended without a search.
pub record MayExclude (m : Manager) (now : Time) (e : Exclusion) : Type 0 where
  pub adds : can_add m now ≡ true
  pub searches : has m.snapshot.native_models e.model ≡ true
  pub free : e.kept_at ≡ 0
  pub active : is_active m ≡ true
  pub shown : (confirmed (pair_of m (e.auth_index, e.model)) ≡ true) ⊎ (e.trial_at ≢ 0)

settle_native :
    (m : Manager) (now : Time) (c : Option Credential) (e : Exclusion)
    → (settle m now c e).want ≡ true
    → (settle m now c e).written ≡ false
    → has m.snapshot.native_models e.model ≡ true
unfolding settle settle_trial
settle_native m now none e want out = ground arith
settle_native m now (some c) e want out = ground arith

settle_free :
    (m : Manager) (now : Time) (c : Option Credential) (e : Exclusion)
    → (settle m now c e).want ≡ true
    → (settle m now c e).written ≡ false
    → e.kept_at ≡ 0
unfolding settle settle_trial
settle_free m now none e want out = ground arith
settle_free m now (some c) e want out = ground arith

settle_active :
    (m : Manager) (now : Time) (c : Option Credential) (e : Exclusion)
    → (settle m now c e).want ≡ true
    → (settle m now c e).written ≡ false
    → is_active m ≡ true
unfolding settle settle_trial
settle_active m now none e want out = ground arith
settle_active m now (some c) e want out = ground arith

settle_shown :
    (m : Manager) (now : Time) (c : Option Credential) (e : Exclusion)
    → (settle m now c e).want ≡ true
    → (settle m now c e).written ≡ false
    → (e.trial_at == 0) ≡ true
    → confirmed (pair_of m (e.auth_index, e.model)) ≡ true
unfolding settle
settle_shown m now none e want out free = ground arith
settle_shown m now (some c) e want out free = ground arith

notice_same :
    (m : Manager) (now : Time) (c : Option Credential) (e e' : Exclusion)
    → 0 < now
    → notice m now c e ≡ some e'
    → e'.kept_at ≡ 0
    → e' ≡ e
unfolding notice
notice_same m now none e e' pos h free = cc
notice_same m now (some c) e e' pos h free = ground arith

-- what an edit of an exclusion says
abbrev IsMove : Manager → Time → Pair → Exclusion → Option Exclusion × Option Planned → Type 0
IsMove m now key e (_, none) = Unit
IsMove m now key e (_, some p) = (p.key ≡ key) × (p.exclude ≡ true → MayExclude m now e)

edit_out :
    (want written adds : Bool)
    → (((want && not written) || (not want && written)) && (not want || adds)) ≡ true
    → want ≡ true
    → written ≡ false
edit_out true true adds h w = absurd (cc)
edit_out true false adds h w = refl
edit_out false written adds h w = absurd (cc)

edit_adds :
    (want written adds : Bool)
    → (((want && not written) || (not want && written)) && (not want || adds)) ≡ true
    → want ≡ true
    → adds ≡ true
edit_adds true written true h w = refl
edit_adds true true false h w = absurd (cc)
edit_adds true false false h w = absurd (cc)
edit_adds false written adds h w = absurd (cc)

edit_settled-IsMove :
    (m : Manager) (now : Time) (key : Pair) (e : Exclusion) (over : Bool) (settled : Exclusion)
    → (settled.want ≡ true → settled.written ≡ false → can_add m now ≡ true → MayExclude m now e)
    → IsMove m now key e (edit_settled over (can_add m now) key settled)
unfolding edit_settled
edit_settled-IsMove m now key e over settled may =
    let adds = can_add m now in
    let differs = (settled.want && not settled.written) || (not settled.want && settled.written) in
    elim (Bool-cases (over && not settled.written)) [
      | inl gone ↦ rw gone tt
      | inr stays ↦ elim (Bool-cases (differs && (not settled.want || adds))) [
        | inr no_edit ↦ rw (stays, no_edit) tt
        | inl edit ↦
            rw (stays, edit)
              (
                refl,
                λ want.
                    may want (edit_out settled.want settled.written adds edit want)
                      (edit_adds settled.want settled.written adds edit want),
              )
      ]
    ]

module _ (m : Manager) (now : Time) (key : Pair) (e : Exclusion) (pos : 0 < now) where
  settled-MayExclude :
      (noticed : Exclusion)
      → let c = credential_by_index e.auth_index m.credentials in
        let settled = settle m now c noticed in
        notice m now c e ≡ some noticed
        → settled.want ≡ true
        → settled.written ≡ false
        → can_add m now ≡ true
        → MayExclude m now e
  settled-MayExclude noticed found want out adds =
      let c = credential_by_index e.auth_index m.credentials in
      let free = settle_free m now c noticed want out in
      let same = notice_same m now c e noticed pos found free in
      rw (← same) (record {
        adds = adds;
        searches = settle_native m now c noticed want out;
        free = free;
        active = settle_active m now c noticed want out;
        shown = elim (Bool-cases (noticed.trial_at == 0)) [
          | inl settled ↦ inl (settle_shown m now c noticed want out settled)
          | inr trying ↦ inr (λ z. ground (arith, trying, z))
        ];
      })

  move-IsMove : IsMove m now key e (move m now key e)
  unfolding move move_noticed
  move-IsMove = noticed (notice m now c e) refl
    where
      c : Option Credential
      c = credential_by_index e.auth_index m.credentials

      noticed :
          (o : Option Exclusion)
          → notice m now c e ≡ o
          → IsMove m now key e (move_noticed m now key c o)
      noticed none h = tt
      noticed (some e') h =
          edit_settled-IsMove m now key e (is_over m (settle m now c e')) (settle m now c e')
            (settled-MayExclude e' h)

-- what is planned comes from an exclusion that may be
module _ (m : Manager) (now : Time) (pos : 0 < now) where
  abbrev pub IsPlan : Exclusions → Planned → Type 0
  IsPlan exclusions p =
      p.exclude ≡ true → (e : Exclusion) × Has (p.key, e) exclusions × MayExclude m now e

  IsPlan-cons :
      (x : Pair × Exclusion) (exclusions : Exclusions) (ps : List Planned)
      → All (IsPlan exclusions) ps
      → All (IsPlan (x ∷ exclusions)) ps
  IsPlan-cons x exclusions [] h = tt
  IsPlan-cons x exclusions (p ∷ ps) h =
      (λ out. let (e, has_e, may) = h.0 out in (e, inr has_e, may), IsPlan-cons x exclusions ps h.1)

  moved-IsPlan :
      (key : Pair) (e : Exclusion) (exclusions : Exclusions) (r : Option Exclusion × Option Planned)
      (rest : Exclusions × List Planned)
      → IsMove m now key e r
      → All (IsPlan exclusions) rest.1
      → All (IsPlan ((key, e) ∷ exclusions)) (moved key r rest).1
  unfolding moved
  moved-IsPlan key e exclusions (none, none) (kept, ps) mv h = IsPlan-cons (key, e) exclusions ps h
  moved-IsPlan key e exclusions (none, some p) (kept, ps) mv h =
      IsPlan-cons (key, e) exclusions ps h
  moved-IsPlan key e exclusions (some e', none) (kept, ps) mv h =
      IsPlan-cons (key, e) exclusions ps h
  moved-IsPlan key e exclusions (some e', some p) (kept, ps) mv h = (
    λ out. (e, inl (ap (λ k. (k, e)) (sym mv.0)), mv.1 out),
    IsPlan-cons (key, e) exclusions ps h,
  )

  pub move_all-IsPlan :
      (exclusions : Exclusions) → All (IsPlan exclusions) (move_all m now exclusions).1
  unfolding move_all
  move_all-IsPlan [] = tt
  move_all-IsPlan ((key, e) ∷ exclusions) =
      moved-IsPlan key e exclusions (move m now key e) (move_all m now exclusions)
        (move-IsMove m now key e pos) (move_all-IsPlan exclusions)
