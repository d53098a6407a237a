-- ===== src/Persistence/Cuts.antt =====
-- The two promises of `FlushUsage`: the history file stays in step with the ledger whatever becomes
-- of the writes, and the files that a flush wrote give the ledger back.
use cpa_plugin_key_policy.Base.{
  ◌≡◌, ◌≢◌, refl, ◌⊎◌, Bool, true, false, none, some, String, arith, inl, inr, List, All,
  if◌then◌else◌,
}
use cpa_plugin_key_policy.Calendar.{Date}
use cpa_plugin_key_policy.Ledger.{Ledger}
use cpa_plugin_key_policy.Ledger.Flush.{
  history_snapshot, plan_cut, mark_flushed, entries-mark_flushed, mark_history, live_plan,
  history_plan, planned_through, close_days,
}
use cpa_plugin_key_policy.Persistence.{Files, history_file, flush_plan, perform}
use cpa_plugin_key_policy.Persistence.Meanwhile.{
  Call, IsOn, record_calls, record_calls-Kept, mark_history-Kept,
}
use cpa_plugin_key_policy.Persistence.Recovery.{history_snapshot-HistoryHolds}
use cpa_plugin_key_policy.Persistence.Flushing.{
  Recovers, InSync, InSync-mark_flushed, InSync-history, flush_cut, plan_cut-cases, flush_live_plan,
  flush_history_plan, read_back,
}

-- what a flush leaves of a ledger that was recorded in meanwhile, and of the history file
module _ (dataset_id : String) (live_ok : Bool) (l : Ledger) (files : Files) (m : Ledger) where
  between_live :
      (history_ok : Bool)
      → let r = flush_plan dataset_id history_ok live_ok (live_plan l) m files in
        (r.0 ≡ mark_flushed (live_plan l) false live_ok m) × (r.1.history ≡ files.history)
  unfolding flush_plan
  between_live history_ok = (refl, refl)

  between_history :
      (yesterday : Date) (history_ok : Bool)
      → let plan = history_plan yesterday l in
        let through = planned_through yesterday l in
        let r = flush_plan dataset_id history_ok live_ok plan m files in
        (r.0 ≡ mark_flushed plan history_ok live_ok m)
        × (r.1.history ≡ (
            if history_ok
            then some (history_file dataset_id through (history_snapshot through l))
            else files.history))
  unfolding flush_plan
  between_history yesterday true = (refl, refl)
  between_history yesterday false = (refl, refl)

module _ (dataset_id : String) (history_ok live_ok : Bool) (yesterday : Date) where
  -- The history file that a flush leaves, written or not, still holds the closed days of the ledger
  -- that it leaves, or the ledger knows the file to be stale, also where calls of the same date are
  -- recorded between the plan and the end.
  pub perform-InSync :
      (calls : List Call) (l : Ledger) (files : Files)
      → All (IsOn l.location l.last_evicted_date) calls
      → InSync dataset_id l files.history
      → let r =
          perform dataset_id history_ok live_ok (record_calls calls) files (plan_cut yesterday l) in
        InSync dataset_id r.0 r.1.history
  perform-InSync calls l files today s = elim (plan_cut-cases yesterday l) [
    | inl idle ↦ rw idle s
    | inr (inl closes) ↦
        let closed = close_days yesterday l in
        let m = record_calls calls closed in
        let plan = history_plan yesterday l in
        let (ledger, file) = between_history dataset_id live_ok l files m yesterday history_ok in
        rw (closes, ledger, file)
          (InSync-mark_flushed plan history_ok live_ok m _ (
            mark_history-Kept closed m _ (record_calls-Kept calls closed today) plan history_ok
              (InSync-history yesterday history_ok l files.history s)))
    | inr (inr (_, cut)) ↦
        let m = record_calls calls l in
        let (ledger, file) = between_live dataset_id live_ok l files m history_ok in
        rw (cut, ledger, file)
          (InSync-mark_flushed (live_plan l) false live_ok m files.history (
            mark_history-Kept l m files.history (record_calls-Kept calls l today) (live_plan l)
              false (unfold mark_history in s)))
  ]

Recovers-entries :
    (l l' : Ledger) (files : Files) → l'.entries ≡ l.entries → Recovers l files → Recovers l' files
Recovers-entries l l' files e r = record {
  live = r.live;
  read = r.read;
  written = r.written;
  merges = r.merges;
  shows = λ id. rw e (r.shows id);
}

module _ (dataset_id : String) (yesterday : Date) (l : Ledger) (files : Files) where
  read_history_plan :
      (history_ok : Bool)
      → InSync dataset_id l files.history
      → (history_ok ≡ true) ⊎ (l.history_stale ≡ false)
      → Recovers l
          (flush_plan dataset_id history_ok true
            (history_plan yesterday l)
            (close_days yesterday l)
            files).1
  read_history_plan true s h =
      let through = planned_through yesterday l in
      rw (flush_history_plan dataset_id true l files yesterday true) (
        read_back l dataset_id through l.history_through
          (some (history_file dataset_id through (history_snapshot through l))) (omega arith)
          (unfold history_file in refl) (unfold history_file in refl)
          (unfold history_file in history_snapshot-HistoryHolds through l))
  read_history_plan false s h = rw (flush_history_plan dataset_id true l files yesterday false) (
      read_back l dataset_id l.history_through l.history_through files.history (omega arith) s.named
        s.reaches (s.holds (fresh h)))
    where
      fresh : ((false ≡ true) ⊎ (l.history_stale ≡ false)) → l.history_stale ≡ false
      fresh (inl e) = cc
      fresh (inr e) = e

  same_history :
      (history_ok : Bool)
      → (flush_plan dataset_id history_ok true
          (history_plan yesterday l)
          (close_days yesterday l)
          files).0.entries
        ≡ l.entries
  same_history history_ok =
      rw (flush_history_plan dataset_id true l files yesterday history_ok)
        (entries-mark_flushed (history_plan yesterday l) history_ok true (close_days yesterday l))

  -- When a prepared ledger is in step with its history file, the cut plans anything, and the live
  -- file is written, then reading the files back gives what the ledger shows, also where the
  -- history write failed, unless that history was stale.
  pub flush_cut-Recovers :
      (history_ok : Bool)
      → InSync dataset_id l files.history
      → (history_ok ≡ true) ⊎ (l.history_stale ≡ false)
      → (plan_cut yesterday l).1 ≢ none
      → let (l', files') = flush_cut dataset_id history_ok true yesterday l files in
        Recovers l' files'
  flush_cut-Recovers history_ok s h planned = elim (plan_cut-cases yesterday l) [
    | inl idle ↦ absurd (planned (rw idle))
    | inr (inl closes) ↦
        rw closes
          (Recovers-entries l _ _ (same_history history_ok) (read_history_plan history_ok s h))
    | inr (inr (fresh, cut)) ↦
        rw (cut, flush_live_plan dataset_id true l files history_ok)
          (Recovers-entries l _ _ (entries-mark_flushed (live_plan l) false true l) (
            read_back l dataset_id l.history_through l.history_through files.history (omega arith)
              s.named s.reaches (s.holds fresh)))
  ]
