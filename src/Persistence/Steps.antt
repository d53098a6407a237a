-- ===== src/Persistence/Steps.antt =====
-- The ledger and its files over time: any order of records and flushes, with any outcome of the
-- writes (internal/policy/ledger.go, internal/policy/store.go).
use cpa_plugin_key_policy.Base.{
  ◌<◌, ◌≡◌, ◌≢◌, refl, sym, ap, inl, inr, Bool, Bool-cases, ◌==◌, List, All, if◌then◌else◌, true,
  false, Option, none, some, String, nat_eq, string_eq, arith, get_or, option_map,
}
use cpa_plugin_key_policy.Dict.{get, get-map_values}
use cpa_plugin_key_policy.Calendar.{Time, Location, date_key, date_key_back}
use cpa_plugin_key_policy.Bucket.{Bucket}
use cpa_plugin_key_policy.Ledger.{
  Ledger, KeyUsage, new_usage_ledger, no_usage, evict_expired, evict_older, mark_dirty, record_call,
}
use cpa_plugin_key_policy.Ledger.Views.{usage_of}
use cpa_plugin_key_policy.Ledger.Eviction.{evict_expired_marks}
use cpa_plugin_key_policy.Ledger.Staleness.{evict_expired-fresh}
use cpa_plugin_key_policy.Ledger.Closing.{record_call-fresh, record_call_marks}
use cpa_plugin_key_policy.Ledger.Flush.{advance_key, advance_all, plan_flush}
use cpa_plugin_key_policy.Persistence.{Files, HistoryFile, flush_usage}
use cpa_plugin_key_policy.Persistence.Flushing.{InSync, Recovers}
use cpa_plugin_key_policy.Persistence.Meanwhile.{InSync-transfer, Call, IsOn, record_calls}
use cpa_plugin_key_policy.Persistence.Cuts.{perform-InSync, flush_cut-Recovers}

-- After a retention pass the ledger names the date of the pass, in the zone that it had.
evict_expired_date :
    (now : Time) (l : Ledger)
    → let l' = (evict_expired now l).0 in
      (l'.location ≡ l.location) × (l'.last_evicted_date ≡ date_key l.location now)
unfolding evict_expired evict_older mark_dirty
evict_expired_date now l = elim (Bool-cases (date_key l.location now == l.last_evicted_date)) [
  | inl h ↦ rw h (refl, sym ((nat_eq.same_iff (date_key l.location now) l.last_evicted_date).0 h))
  | inr h ↦ rw h (go _ _)
]
  where
    go :
        (changed : Bool) (m : Ledger)
        → let m' = if changed then mark_dirty m else m in
          (m'.location ≡ m.location) × (m'.last_evicted_date ≡ m.last_evicted_date)
    go true m = (refl, refl)
    go false m = (refl, refl)

days-advance_all :
    (now : Time) (l : Ledger) (id : String)
    → (usage_of id (advance_all now l)).days ≡ (usage_of id l).days
unfolding advance_all advance_key
days-advance_all now l id = rw get-map_values (go (get id l.entries))
  where
    go :
        (o : Option KeyUsage)
        → (get_or (option_map (advance_key l.location now) o) no_usage).days
          ≡ (get_or o no_usage).days
    go none = refl
    go (some u) = refl

module _ {dataset_id : String} where
  InSync-evict_expired :
      (now : Time) (l : Ledger) (file : Option HistoryFile)
      → InSync dataset_id l file
      → InSync dataset_id (evict_expired now l).0 file
  InSync-evict_expired now l file =
      InSync-transfer l (evict_expired now l).0 file (evict_expired_marks now l)
        (evict_expired-fresh now l)

  InSync-advance_all :
      (now : Time) (l : Ledger) (file : Option HistoryFile)
      → InSync dataset_id l file
      → InSync dataset_id (advance_all now l) file
  InSync-advance_all now l file =
      InSync-transfer l (advance_all now l) file (unfold advance_all in (refl, refl)) (λ fresh.
        (unfold advance_all in fresh, λ id date le. ap (get date) (days-advance_all now l id)))

  InSync-record_call :
      (id model : String) (delta : Bucket) (deduct : Bool) (now : Time) (l : Ledger)
      (file : Option HistoryFile)
      → 0 < l.location.civil now
      → InSync dataset_id l file
      → InSync dataset_id (record_call id model delta deduct now l) file
  InSync-record_call id model delta deduct now l file h s =
      InSync-transfer l (record_call id model delta deduct now l) file
        (record_call_marks id model delta deduct now l)
        (record_call-fresh id model delta deduct now l h s.closed) s

-- What may happen to the ledger and its files: a billed record, or a flush whose two writes succeed
-- or fail on their own. Calls may be recorded between its plan and its end, all on its date.
pub data Step (dataset_id : String) : Ledger → Files → Ledger → Files → Type 0 where
  records :
      {l : Ledger} {files : Files} (id model : String) (delta : Bucket) (deduct : Bool) (now : Time)
      → 0 < l.location.civil now
      → Step dataset_id l files (record_call id model delta deduct now l) files
  flushes :
      {l : Ledger} {files : Files} (calls : List Call) (history_ok live_ok : Bool) (now : Time)
      → All (IsOn l.location (date_key l.location now)) calls
      → Step dataset_id l files
          (flush_usage dataset_id history_ok live_ok (record_calls calls) now l files).0
          (flush_usage dataset_id history_ok live_ok (record_calls calls) now l files).1

pub data Reach (dataset_id : String) (l : Ledger) (files : Files) : Ledger → Files → Type 0 where
  start : Reach dataset_id l files l files
  next :
      {m n : Ledger} {f g : Files}
      → Reach dataset_id l files m f
      → Step dataset_id m f n g
      → Reach dataset_id l files n g

module _ {dataset_id : String} where
  prepared-InSync :
      (now : Time) (l : Ledger) (file : Option HistoryFile)
      → InSync dataset_id l file
      → InSync dataset_id (advance_all now (evict_expired now l).0) file
  prepared-InSync now l file s =
      InSync-advance_all now (evict_expired now l).0 file (InSync-evict_expired now l file s)

  flush_usage-InSync :
      (calls : List Call) (history_ok live_ok : Bool) (now : Time) (l : Ledger) (files : Files)
      → All (IsOn l.location (date_key l.location now)) calls
      → InSync dataset_id l files.history
      → let r = flush_usage dataset_id history_ok live_ok (record_calls calls) now l files in
        InSync dataset_id r.0 r.1.history
  unfolding flush_usage plan_flush
  flush_usage-InSync calls history_ok live_ok now l files today s =
      elim (Bool-cases (dataset_id == "")) [
        | inl blank ↦ rw blank s
        | inr titled ↦ rw titled (
            perform-InSync dataset_id history_ok live_ok (date_key_back l.location now 1) calls
              (advance_all now (evict_expired now l).0) files
              (unfold advance_all in
                rw ((evict_expired_date now l).0, (evict_expired_date now l).1) today)
              (prepared-InSync now l files.history s))
      ]

  Step-InSync :
      {l : Ledger} {f : Files} {m : Ledger} {g : Files}
      → Step dataset_id l f m g
      → InSync dataset_id l f.history
      → InSync dataset_id m g.history
  Step-InSync (records {l = l} {files = f} id model delta deduct now h) s =
      InSync-record_call id model delta deduct now l f.history h s
  Step-InSync (flushes {l = l} {files = f} calls history_ok live_ok now today) s =
      flush_usage-InSync calls history_ok live_ok now l f today s

  -- However records and flushes follow one another and whichever of a flush's two writes fail, a
  -- ledger that is in step with its history file stays in step with it: the file carries the
  -- dataset's name and reaches the ledger's watermark, the watermark is at most the last closed
  -- day, and the file holds exactly the ledger's days up to it unless the ledger marks it as stale.
  -- Every record is made at an instant whose local date is known, and one between the plan and the
  -- end of a flush on the date of the plan.
  pub Reach-InSync :
      {l : Ledger} {f : Files} {m : Ledger} {g : Files}
      → InSync dataset_id l f.history
      → Reach dataset_id l f m g
      → InSync dataset_id m g.history
  Reach-InSync s start = s
  Reach-InSync s (next r st) = Step-InSync st (Reach-InSync s r)

  -- When the dataset has a name, the ledger is in step with its history file, the flush plans
  -- anything, nothing is recorded between its plan and its end, and both of its writes succeed,
  -- then reading the two files back gives every key the periods, the balance and the days that the
  -- ledger has after the flush.
  pub flush_usage-Recovers :
      (dataset_id == "") ≡ false
      → (now : Time) (l : Ledger) (files : Files) → InSync dataset_id l files.history
      → (plan_flush now l).1 ≢ none
      → let (l', files') = flush_usage dataset_id true true (λ m. m) now l files in
        Recovers l' files'
  unfolding flush_usage plan_flush
  flush_usage-Recovers titled now l files s planned = rw titled (
      flush_cut-Recovers dataset_id (date_key_back l.location now 1)
        (advance_all now (evict_expired now l).0) files true (prepared-InSync now l files.history s)
        (inl refl) planned)

-- A ledger that starts empty with no files is in step.
pub new_usage_ledger-InSync :
    (dataset_id timezone : String) (location : Location)
    → InSync dataset_id (new_usage_ledger location timezone) none
unfolding get
new_usage_ledger-InSync dataset_id timezone location = record {
  named = tt;
  reaches = refl;
  closed = omega arith;
  holds = λ _ id date. refl;
}
