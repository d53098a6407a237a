-- ===== src/Billing/Once.antt =====
-- A generation is billed once: the per-call branch of `RecordUsage` of internal/policy/billing.go.
use cpa_plugin_key_policy.Base.{
  ◌≡◌, refl, Bool, String, string_eq, nat_eq, ◌==◌, Bool-cases, inl, inr,
}
use cpa_plugin_key_policy.Calendar.{Time}
use cpa_plugin_key_policy.MediaTrace.{take}
use cpa_plugin_key_policy.MediaTrace.Taking.{take-take}
use cpa_plugin_key_policy.Money.{Floats}
use cpa_plugin_key_policy.Price.{ModelPrice}
use cpa_plugin_key_policy.Store.{KeyConfig, Store, journal}
use cpa_plugin_key_policy.Billing.{UsageEvent, recorded, unmetered_per_call, book, record_per_call}

-- One admitted generation is billed at most once: after a per-call record with a trace id is
-- booked, a later record with the same trace id, of whatever key and price, is unmetered, and the
-- ledger and the journal stay as they were.
pub record_per_call-once :
    (fl : Floats) (event other : UsageEvent) (name name' : String) (key key' : KeyConfig fl)
    (price price' : ModelPrice fl) (is_priced is_priced' : Bool) (now later : Time) (s : Store fl)
    → other.trace_id ≡ event.trace_id
    → (record_per_call fl event name key price is_priced now s).1 ≡ recorded
    → let first = (record_per_call fl event name key price is_priced now s).0 in
      let second = record_per_call fl other name' key' price' is_priced' later first in
      (second.1 ≡ unmetered_per_call)
      × (second.0.usage ≡ first.usage)
      × (second.0.handoff ≡ first.handoff)
unfolding record_per_call book journal
record_per_call-once fl event other name name' key key' price price' is_priced is_priced' now later
      s same h =
    elim (Bool-cases (event.trace_id == "")) [
      | inl t ↦ absurd (let e = (rw t at h) in cc)
      | inr t ↦ elim (Bool-cases (take event.trace_id now s.media_traces).1) [
        | inl k ↦
            rw (same, t, k, take-take event.trace_id now later s.media_traces) (refl, refl, refl)
        | inr k ↦ absurd (let e = (rw (t, k) at h) in cc)
      ]
    ]
