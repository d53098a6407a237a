-- ===== src/Quota/Denials.antt =====
-- When a quota refuses a request: `quotaDenial` of internal/policy/ledger.go.
use cpa_plugin_key_policy.Base.{
  ◌≡◌, ◌↔◌, refl, Bool, true, false, not, ◌&&◌, Option, none, some, String, string_eq,
  if◌then◌else◌, is_some, Bool-cases, if-false, inl, inr,
}
use cpa_plugin_key_policy.Calendar.{Time}
use cpa_plugin_key_policy.Cycle.{Window, daily, weekly, monthly}
use cpa_plugin_key_policy.Balance.{Balance}
use cpa_plugin_key_policy.Ledger.{Ledger, evict_expired}
use cpa_plugin_key_policy.Ledger.Periods.{current_cycles}
use cpa_plugin_key_policy.Money.{Floats}
use cpa_plugin_key_policy.Quota.{
  QuotaLimits, any_limit, is_exceeded, summarise, with_balance, with_status, summary_of, summary_at,
  denied, Reason, exceeded, quota_denial, UsageSummary,
}

-- the first window of three that is exceeded
unfoldable pub first_exceeded : Bool → Bool → Bool → Option Reason
first_exceeded d w m =
    if d
    then some (exceeded daily)
    else if w
    then some (exceeded weekly)
    else if m
    then some (exceeded monthly)
    else none

module _ (fl : Floats) (limits : QuotaLimits fl) where
  blocked-with_status :
      (summary : UsageSummary fl) → (with_status fl summary).blocked_reason ≡ summary.blocked_reason
  unfolding with_status
  blocked-with_status summary = elim (Bool-cases (is_some summary.blocked_reason)) [
    | inl t ↦ rw t refl
    | inr t ↦ elim (Bool-cases summary.soft_limit_hit) [
      | inl k ↦ rw (t, k) refl
      | inr k ↦ rw (t, k) refl
    ]
  ]

  blocked-with_balance :
      (held : Option Balance) (summary : UsageSummary fl)
      → limits.balance ≡ false
      → (with_balance fl limits held summary).blocked_reason ≡ summary.blocked_reason
  unfolding with_balance
  blocked-with_balance held summary h = rw h refl

  -- The summary of a key with period limits names the first window that is exceeded.
  pub blocked-summary_of :
      (id : String) (now : Time) (l : Ledger)
      → limits.balance ≡ false
      → let cycles = (current_cycles id now l).1 in
        (summary_of fl id limits now l).1.blocked_reason
        ≡ first_exceeded
            (is_exceeded fl limits daily cycles)
            (is_exceeded fl limits weekly cycles)
            (is_exceeded fl limits monthly cycles)
  unfolding summary_of summarise first_exceeded
  blocked-summary_of id now l h =
      let cycles = (current_cycles id now l).1 in
      rw (blocked-with_status _, blocked-with_balance _ _ h)
        (cascade (is_exceeded fl limits daily cycles) (is_exceeded fl limits weekly cycles)
          (is_exceeded fl limits monthly cycles))
    where
      cascade :
          (d w m : Bool)
          → let first : Option Reason = if d && true then some (exceeded daily) else none in
            let second = if w && not (is_some first) then some (exceeded weekly) else first in
            (if m && not (is_some second) then some (exceeded monthly) else second)
            ≡ first_exceeded d w m
      cascade true true true = refl
      cascade true true false = refl
      cascade true false true = refl
      cascade true false false = refl
      cascade false true true = refl
      cascade false true false = refl
      cascade false false true = refl
      cascade false false false = refl

  denied-none :
      (d w m : Bool) (summary : UsageSummary fl)
      → denied fl summary (first_exceeded d w m) ≡ none
      → (d ≡ false) × (w ≡ false) × (m ≡ false)
  unfolding first_exceeded denied
  denied-none true w m summary h = absurd (cc)
  denied-none false true m summary h = absurd (cc)
  denied-none false false true summary h = absurd (cc)
  denied-none false false false summary h = (refl, refl, refl)

-- A key that is not prepaid and has a limit is let through by its quota exactly when the
-- consumption of no window has reached its limit, over the periods that are current.
pub quota_denial-none :
    (fl : Floats) (id : String) (limits : QuotaLimits fl) (now : Time) (l : Ledger)
    → limits.balance ≡ false
    → any_limit fl limits ≡ true
    → let cycles = (current_cycles id now (evict_expired now l).0).1 in
      (quota_denial fl id limits now l).1 ≡ none
      ↔ ((window : Window) → is_exceeded fl limits window cycles ≡ false)
unfolding quota_denial summary_at first_exceeded denied
quota_denial-none fl id limits now l hb hany =
    let evicted = (evict_expired now l).0 in
    let summary = (summary_of fl id limits now evicted).1 in
    let cycles = (current_cycles id now evicted).1 in
    let blocked = blocked-summary_of fl limits id now evicted hb in
    let hany' : not (any_limit fl limits) ≡ false = rw hany refl in
    rw (if-false limits.balance _ _ hb, if-false (not (any_limit fl limits)) _ _ hany', blocked)
      (
        λ h.
            (let (d, w, m) =
                denied-none fl limits (is_exceeded fl limits daily cycles)
                  (is_exceeded fl limits weekly cycles) (is_exceeded fl limits monthly cycles)
                  summary h in
              λ window. elim window as (λ k. is_exceeded fl limits k cycles ≡ false) [
                | daily ↦ d
                | weekly ↦ w
                | monthly ↦ m
              ]),
        λ h. rw (h daily, h weekly, h monthly) refl,
      )
