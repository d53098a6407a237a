-- ===== src/Ledger/Closing.antt =====
-- Records and the history file: what `record` of internal/policy/ledger.go does to the closed days.
use cpa_plugin_key_policy.Base.{
  ◌<◌, ◌≤◌, ◌≡◌, ◌≢◌, ◌∙◌, Bool, false, String, string_eq, nat_eq, ◌==◌, arith, Bool-cases, inl,
  inr,
}
use cpa_plugin_key_policy.Dict.{get, put, get-put_self, get-put_ne}
use cpa_plugin_key_policy.Calendar.{Time, Date}
use cpa_plugin_key_policy.Bucket.{Bucket}
use cpa_plugin_key_policy.Ledger.{Ledger, mark_dirty, open_date, record_call}
use cpa_plugin_key_policy.Ledger.Views.{usage_of}
use cpa_plugin_key_policy.Ledger.Eviction.{evict_expired_marks}
use cpa_plugin_key_policy.Ledger.Staleness.{evict_expired-fresh}
use cpa_plugin_key_policy.Ledger.Recording.{booked, days-booked_ne, closed_through-lt-open_date}

-- A record that leaves the history file in step found it in step, moved no watermark and changed no
-- day that the file holds.
pub record_call-fresh :
    (id model : String) (delta : Bucket) (deduct : Bool) (now : Time) (l : Ledger)
    → 0 < l.location.civil now
    → l.history_through ≤ l.closed_through
    → (record_call id model delta deduct now l).history_stale ≡ false
    → (l.history_stale ≡ false)
      × ((j : String) (date : Date)
          → date ≤ l.history_through
          → get date (usage_of j (record_call id model delta deduct now l)).days
            ≡ get date (usage_of j l).days)
unfolding record_call mark_dirty booked
record_call-fresh id model delta deduct now l h order fresh =
    let entry = booked id model delta deduct now l in
    let l' : Ledger = record l { entries = put id entry l.entries } in
    let (before, same) = evict_expired-fresh now l' fresh in
    (
      before,
      λ j date le. same j date le ∙ elim (Bool-cases (id == j)) [
        | inl is ↦
            let e : id ≡ j = (string_eq.same_iff id j).0 is in
            let open_ne : open_date now l ≢ date =
              λ q. omega (arith, closed_through-lt-open_date l now h) in
            rw (← e, get-put_self) (days-booked_ne id model delta deduct now l date open_ne)
        | inr other ↦
            let ne : id ≢ j = λ e. cc ((string_eq.same_iff id j).1 e) in
            rw (get-put_ne id j entry l.entries ne)
      ],
    )

pub record_call_marks :
    (id model : String) (delta : Bucket) (deduct : Bool) (now : Time) (l : Ledger)
    → let l' = record_call id model delta deduct now l in
      (l'.history_through ≡ l.history_through) × (l'.closed_through ≡ l.closed_through)
unfolding record_call mark_dirty
record_call_marks id model delta deduct now l = evict_expired_marks now _
