-- ===== src/Quota.antt =====
-- Quotas: `quotaLimits`, `summaryLocked` and `quotaDenial` of internal/policy/ledger.go. An empty
-- reason is none.
pub mod Denials
use cpa_plugin_key_policy.Base.{
  ℕ, Bool, true, false, not, ◌&&◌, ◌||◌, Option, none, some, List, [], ◌∷◌, ◌++◌, String, string_eq,
  ◌==◌, if◌then◌else◌, get_or, is_some, ltb,
}
use cpa_plugin_key_policy.Dict.{get}
use cpa_plugin_key_policy.Int64.{Int64, sub64, lt64, le64}
use cpa_plugin_key_policy.Calendar.{Time}
use cpa_plugin_key_policy.Cycle.{
  Window, daily, weekly, monthly, ResetKind, Cycles, cycle, used, manual_reset_deadline,
}
use cpa_plugin_key_policy.Balance.{Balance, empty_balance}
use cpa_plugin_key_policy.Ledger.{Ledger, KeyUsage, no_usage, evict_expired}
use cpa_plugin_key_policy.Ledger.Periods.{current_cycles}
use cpa_plugin_key_policy.Ledger.Adjust.{balance_allows}
use cpa_plugin_key_policy.Money.{Floats, usd_to_nano, usd}
use cpa_plugin_key_policy.Store.{KeyConfig, balance_mode}

-- why a key may not send a request
pub data Reason : Type 0 where
  rpm_exceeded balance_exhausted : Reason
  exceeded : Window → Reason

pub data Status : Type 0 where
  normal limited warning : Status

module _ (fl : Floats) where
  -- `quotaLimits`
  pub record QuotaLimits : Type 0 where
    pub daily_usd : fl.Float
    pub weekly_usd : fl.Float
    pub monthly_usd : fl.Float
    pub balance : Bool

  -- `quotaLimitsForKey`
  unfoldable pub quota_limits_for_key : KeyConfig fl → QuotaLimits
  quota_limits_for_key key =
      if balance_mode key
      then record {
        daily_usd = fl.of_int 0;
        weekly_usd = fl.of_int 0;
        monthly_usd = fl.of_int 0;
        balance = true;
      }
      else record {
        daily_usd = key.daily_limit_usd;
        weekly_usd = key.weekly_limit_usd;
        monthly_usd = key.monthly_limit_usd;
        balance = false;
      }

  -- `forWindow`
  unfoldable pub for_window : QuotaLimits → Window → fl.Float
  for_window limits daily = limits.daily_usd
  for_window limits weekly = limits.weekly_usd
  for_window limits monthly = limits.monthly_usd

  -- `any`
  unfoldable pub any_limit : QuotaLimits → Bool
  any_limit limits =
      limits.balance
      || fl.lt (fl.of_int 0) limits.daily_usd
      || fl.lt (fl.of_int 0) limits.weekly_usd
      || fl.lt (fl.of_int 0) limits.monthly_usd

  -- `QuotaCycleSummary`
  pub record CycleSummary : Type 0 where
    pub window : Window
    pub started_at : Time
    pub resets_at : Time
    pub reset_kind : ResetKind
    pub used_usd : fl.Float
    pub limit_usd : fl.Float
    pub reset_after_manual_at : Time

  -- `UsageSummary`, without the amounts and limits that it repeats from its cycles
  pub record UsageSummary : Type 0 where
    pub balance_mode : Bool
    pub balance_usd : Option fl.Float
    pub net_credited_usd : Option fl.Float
    pub status : Status
    pub blocked_reason : Option Reason
    pub cycles : List CycleSummary
    pub next_accounting_boundary_at : Time
    pub soft_limit_hit : Bool
    pub timezone : String

  -- `float64(limit)*softLimitRatio`
  soft_limit : Int64 → fl.Float
  soft_limit limit = fl.mul (fl.of_int limit) (fl.div (fl.of_int 8) (fl.of_int 10))

  -- `limit > 0 && used >= limit`
  unfoldable pub is_exceeded : QuotaLimits → Window → Cycles → Bool
  is_exceeded limits window cycles =
      let limit = usd_to_nano fl (for_window limits window) in
      lt64 0 limit && le64 limit (used (cycle window cycles))

  -- one round of the loop in `summaryLocked`
  unfoldable pub summarise :
      QuotaLimits → Ledger → Time → Cycles → Window → UsageSummary → UsageSummary
  unfolding soft_limit
  summarise limits l now cycles window summary =
      let c = cycle window cycles in
      let limit = usd_to_nano fl (for_window limits window) in
      record summary {
        cycles =
            summary.cycles
            ++ (record {
              window = window;
              started_at = c.started_at;
              resets_at = c.resets_at;
              reset_kind = c.reset_kind;
              used_usd = usd fl (used c);
              limit_usd = for_window limits window;
              reset_after_manual_at = manual_reset_deadline l.location now window;
            }
                ∷ []);
        soft_limit_hit =
            summary.soft_limit_hit || lt64 0 limit && fl.le (soft_limit limit) (fl.of_int (used c));
        blocked_reason =
            if is_exceeded limits window cycles && not (is_some summary.blocked_reason)
            then some (exceeded window)
            else summary.blocked_reason;
      }

  -- what `summaryLocked` adds of the balance
  unfoldable pub with_balance : QuotaLimits → Option Balance → UsageSummary → UsageSummary
  unfolding soft_limit
  with_balance limits held summary =
      let b = get_or held empty_balance in
      let shown = limits.balance || is_some held in
      let summary' = record summary {
        balance_usd = if shown then some (usd fl b.nano) else none;
        net_credited_usd = if shown then some (usd fl b.net_credited_nano) else none;
      } in
      if not limits.balance then summary' else record summary' {
        balance_mode = true;
        blocked_reason = if le64 b.nano 0 then some balance_exhausted else summary.blocked_reason;
        soft_limit_hit =
            summary.soft_limit_hit
            || not (le64 b.nano 0)
              && lt64 0 b.net_credited_nano
              && fl.le (soft_limit b.net_credited_nano)
                  (fl.of_int (sub64 b.net_credited_nano b.nano));
      }

  -- its last switch
  unfoldable pub with_status : UsageSummary → UsageSummary
  with_status summary =
      if is_some summary.blocked_reason
      then record summary { status = limited }
      else if summary.soft_limit_hit
      then record summary { status = warning }
      else summary

  -- `summaryLocked`
  unfoldable pub summary_of : String → QuotaLimits → Time → Ledger → Ledger × UsageSummary
  summary_of id limits now l =
      let (l', cycles) = current_cycles id now l in
      let summary : UsageSummary = record {
        balance_mode = false;
        balance_usd = none;
        net_credited_usd = none;
        status = normal;
        blocked_reason = none;
        cycles = [];
        next_accounting_boundary_at = cycles.daily_cycle.resets_at;
        soft_limit_hit = false;
        timezone = l.timezone;
      } in
      let each = summarise limits l' now cycles in
      (
        l',
        with_status (
            with_balance limits (get_or (get id l'.entries) no_usage).balance
              (each monthly (each weekly (each daily summary)))),
      )

  -- `summary`
  unfoldable pub summary_at : String → QuotaLimits → Time → Ledger → Ledger × UsageSummary
  summary_at id limits now l = summary_of id limits now (evict_expired now l).0

  -- `Denial`
  pub record Denial : Type 0 where
    pub reason : Reason
    pub limit : fl.Float
    pub retry_at : Time
    pub timezone : String

  -- the loop of `quotaDenial`
  unfoldable pub last_reset : List CycleSummary → Denial → Denial
  last_reset [] denial = denial
  last_reset (c ∷ cycles) denial = last_reset cycles (
      if fl.lt (fl.of_int 0) c.limit_usd
        && le64 (usd_to_nano fl c.limit_usd) (usd_to_nano fl c.used_usd)
        && not (ltb c.resets_at denial.retry_at)
      then record denial { reason = exceeded c.window; limit = c.limit_usd; retry_at = c.resets_at }
      else denial)

  unfoldable pub denied : UsageSummary → Option Reason → Option Denial
  denied summary none = none
  denied summary (some reason) = some (
      last_reset summary.cycles (record {
        reason = reason;
        limit = fl.of_int 0;
        retry_at = 0;
        timezone = summary.timezone;
      }))

  -- `quotaDenial`
  unfoldable pub quota_denial : String → QuotaLimits → Time → Ledger → Ledger × Option Denial
  unfolding denied
  quota_denial id limits now l =
      let (l', summary) = summary_at id limits now l in
      if limits.balance
      then (
        l,
        if balance_allows id l
            then none
            else some (record {
              reason = balance_exhausted;
              limit = fl.of_int 0;
              retry_at = 0;
              timezone = "";
            }),
      )
      else if not (any_limit limits)
      then (l, none)
      else (l', denied summary summary.blocked_reason)
