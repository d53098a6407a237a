-- ===== src/Persistence/Flushing.antt =====
-- `FlushUsage` (internal/policy/store.go) with any outcome of its two writes.
use cpa_plugin_key_policy.Base.{
  ◌≤◌, ◌≡◌, refl, ◌⊎◌, Bool, true, false, ◌&&◌, Option, none, some, String, ◌==◌, nat_eq, string_eq,
  get_or, arith, Bool-cases, inl, inr, if◌then◌else◌,
}
use cpa_plugin_key_policy.Dict.{get}
use cpa_plugin_key_policy.Calendar.{Date}
use cpa_plugin_key_policy.Ledger.{Ledger, no_usage}
use cpa_plugin_key_policy.Ledger.Views.{usage_of}
use cpa_plugin_key_policy.Ledger.Flush.{
  FlushPlan, live_snapshot, history_snapshot, plan_cut, need_history, mark_flushed, mark_history,
  live_plan, history_plan, planned_through, close_days,
}
use cpa_plugin_key_policy.Persistence.{
  LiveFile, HistoryFile, dataset, UsageDataset, Files, live_file, history_file, merge_files,
  merge_usage, flush_plan, perform,
}
use cpa_plugin_key_policy.Persistence.Recovery.{
  SameUsage, HistoryHolds, file_through, file_days, merge_files-SameUsage,
  history_snapshot-HistoryHolds,
}

-- The name of the dataset that a history file carries.
abbrev pub IsNamed : String → Option HistoryFile → Type 0
IsNamed dataset_id none = Unit
IsNamed dataset_id (some h) = h.dataset_id ≡ dataset_id

-- Reading the files back gives a dataset that shows what the ledger shows.
pub record Recovers (l : Ledger) (files : Files) : Type 0 where
  pub live : LiveFile
  pub read : UsageDataset
  pub written : files.live ≡ some live
  pub merges : merge_usage live files.history ≡ dataset read
  pub shows : (id : String) → SameUsage (usage_of id l) (get_or (get id read.keys) no_usage)

pub merge_usage-dataset :
    (live : LiveFile) (file : Option HistoryFile)
    → IsNamed live.dataset_id file
    → file_through file ≡ live.history_through
    → merge_usage live file ≡ dataset (merge_files live (file_through file) (file_days file))
unfolding merge_usage
merge_usage-dataset live none n t = refl
merge_usage-dataset live (some h) n t =
    ground (arith, string_eq.same_iff h.dataset_id live.dataset_id)

pub read_back :
    (l : Ledger) (dataset_id : String) (t t0 : Date) (file : Option HistoryFile)
    → t0 ≤ t
    → IsNamed dataset_id file
    → file_through file ≡ t
    → HistoryHolds t (file_days file) l
    → Recovers l (record {
      live = some (live_file dataset_id l.timezone t (live_snapshot t0 l));
      history = file;
    })
unfolding live_file
read_back l dataset_id t t0 file le n th holds =
    let live = live_file dataset_id l.timezone t (live_snapshot t0 l) in
    record {
      live = live;
      read = merge_files live (file_through file) (file_days file);
      written = refl;
      merges = merge_usage-dataset live file n th;
      shows = λ id. rw th (merge_files-SameUsage l dataset_id t t0 (file_days file) id le holds);
    }

-- How the history file on disk stands to the ledger: it reaches the ledger's watermark, no day after
-- that is closed to records, and unless the ledger knows it to be stale it holds its days.
pub record InSync (dataset_id : String) (l : Ledger) (file : Option HistoryFile) : Type 0 where
  pub named : IsNamed dataset_id file
  pub reaches : file_through file ≡ l.history_through
  pub closed : l.history_through ≤ l.closed_through
  pub holds : l.history_stale ≡ false → HistoryHolds l.history_through (file_days file) l

module _ {dataset_id : String} where
  -- the dirty flag says nothing of the history
  InSync-clean :
      (done : Bool) (l : Ledger) (file : Option HistoryFile)
      → InSync dataset_id l file
      → InSync dataset_id (if done then record l { dirty = false } else l) file
  InSync-clean true l file s = record {
    named = s.named;
    reaches = s.reaches;
    closed = s.closed;
    holds = s.holds;
  }
  InSync-clean false l file s = s

  pub InSync-mark_flushed :
      (plan : FlushPlan) (history_written live_written : Bool) (l : Ledger)
      (file : Option HistoryFile)
      → InSync dataset_id (mark_history plan history_written l) file
      → InSync dataset_id (mark_flushed plan history_written live_written l) file
  unfolding mark_flushed
  InSync-mark_flushed plan history_written live_written l file =
      let l' = mark_history plan history_written l in
      InSync-clean (live_written && l'.revision == plan.revision) l' file

  -- the days closed by a plan whose history is not written, or is
  pub InSync-history :
      (yesterday : Date) (history_written : Bool) (l : Ledger) (file : Option HistoryFile)
      → InSync dataset_id l file
      → InSync dataset_id
          (mark_history (history_plan yesterday l) history_written (close_days yesterday l))
          (if history_written
            then some (
                history_file dataset_id
                  (planned_through yesterday l)
                  (history_snapshot (planned_through yesterday l) l))
            else file)
  unfolding mark_history history_file
  InSync-history yesterday true l file s = record {
    named = refl;
    reaches = refl;
    closed = omega arith;
    holds = λ _. history_snapshot-HistoryHolds (planned_through yesterday l) l;
  }
  InSync-history yesterday false l file s = record {
    named = s.named;
    reaches = s.reaches;
    closed = omega (arith, s.closed);
    holds = λ stale. cc;
  }

-- One flush of a prepared ledger, whatever becomes of its writes, with nothing recorded between its
-- plan and its end.
abbrev pub flush_cut : String → Bool → Bool → Date → Ledger → Files → Ledger × Files
flush_cut dataset_id history_ok live_ok yesterday l files =
    perform dataset_id history_ok live_ok (λ m. m) files (plan_cut yesterday l)

pub plan_cut-cases :
    (yesterday : Date) (l : Ledger)
    → (plan_cut yesterday l ≡ (l, none))
      ⊎ (plan_cut yesterday l ≡ (close_days yesterday l, some (history_plan yesterday l)))
      ⊎ ((l.history_stale ≡ false) × (plan_cut yesterday l ≡ (l, some (live_plan l))))
unfolding plan_cut
plan_cut-cases yesterday l = elim (Bool-cases (need_history yesterday l)) [
  | inl need ↦ inr (inl (ground arith))
  | inr need ↦ elim (Bool-cases l.dirty) [
    | inl d ↦ inr (inr (need_fresh yesterday l need, ground arith))
    | inr d ↦ inl (ground arith)
  ]
]
  where
    need_fresh : (y : Date) (l : Ledger) → need_history y l ≡ false → l.history_stale ≡ false
    need_fresh y l h = unfold need_history in ground arith

module _ (dataset_id : String) (live_ok : Bool) (l : Ledger) (files : Files) where
  pub flush_live_plan :
      (history_ok : Bool)
      → flush_plan dataset_id history_ok live_ok (live_plan l) l files ≡ (
        mark_flushed (live_plan l) false live_ok l,
        record {
          live =
              if live_ok
              then some (
                  live_file dataset_id l.timezone l.history_through
                    (live_snapshot l.history_through l))
              else files.live;
          history = files.history;
        },
      )
  unfolding flush_plan
  flush_live_plan history_ok = refl

  pub flush_history_plan :
      (yesterday : Date) (history_ok : Bool)
      → flush_plan dataset_id history_ok live_ok
          (history_plan yesterday l)
          (close_days yesterday l)
          files
        ≡ (
          mark_flushed (history_plan yesterday l) history_ok live_ok (close_days yesterday l),
          record {
            live =
                if live_ok
                then some (
                    live_file dataset_id l.timezone
                      (if history_ok then planned_through yesterday l else l.history_through)
                      (live_snapshot l.history_through l))
                else files.live;
            history =
                if history_ok
                then some (
                    history_file dataset_id
                      (planned_through yesterday l)
                      (history_snapshot (planned_through yesterday l) l))
                else files.history;
          },
        )
  unfolding flush_plan
  flush_history_plan yesterday true = refl
  flush_history_plan yesterday false = refl
