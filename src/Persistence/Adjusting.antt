-- ===== src/Persistence/Adjusting.antt =====
-- A balance adjustment and the files: the callback of `AdjustBalance` in internal/policy/balance.go,
-- which writes the live file before the adjustment is answered.
use cpa_plugin_key_policy.Base.{
  ◌≡◌, ◌≢◌, sym, ap, ◌∙◌, inl, inr, false, Option, some, String, nat_eq, string_eq, ◌==◌, arith,
  Bool-cases,
}
use cpa_plugin_key_policy.Dict.{get}
use cpa_plugin_key_policy.Int64.{Int64}
use cpa_plugin_key_policy.Ledger.{Ledger}
use cpa_plugin_key_policy.Ledger.Views.{usage_of}
use cpa_plugin_key_policy.Ledger.Flush.{live_snapshot}
use cpa_plugin_key_policy.Ledger.Adjust.{Persist, adjusted, BalanceAdjustment, adjust_balance}
use cpa_plugin_key_policy.Ledger.Adjust.Outcomes.{Booked, Settled, adjust_balance-Settled}
use cpa_plugin_key_policy.Persistence.{Files, HistoryFile, live_file}
use cpa_plugin_key_policy.Persistence.Meanwhile.{InSync-transfer}
use cpa_plugin_key_policy.Persistence.Flushing.{InSync, Recovers, read_back}

-- the live file that the callback wrote
unfoldable pub adjusted_files : String → Ledger → Files → Files
adjusted_files dataset_id l files = record files {
  live =
      some (live_file dataset_id l.timezone l.history_through (live_snapshot l.history_through l));
}

-- the days of every key, whether it is the one of the adjustment or not
days-Booked :
    (id : String) (amount : Int64) (l l' : Ledger) (a : BalanceAdjustment) (j : String)
    → Booked id amount l l' a
    → (usage_of j l').days ≡ (usage_of j l).days
days-Booked id amount l l' a j (_, _, _, _, _, _, days, others, _, _, _, _, _) =
    elim (Bool-cases (id == j)) [
      | inl t ↦ let same : id ≡ j = (string_eq.same_iff id j).0 t in rw (← same) days
      | inr f ↦
          let ne : id ≢ j = λ e. ground (arith, e, f, string_eq.same_iff id j) in
          ap (λ u. u.days) (others j ne)
    ]

module _ {dataset_id : String} where
  InSync-Booked :
      (id : String) (amount : Int64) (l l' : Ledger) (a : BalanceAdjustment)
      (file : Option HistoryFile)
      → Booked id amount l l' a
      → InSync dataset_id l file
      → InSync dataset_id l' file
  InSync-Booked id amount l l' a file b s =
      let (_, _, _, _, _, _, _, _, _, through, closed, stale, _) = b in
      InSync-transfer l l' file (through, closed)
        (λ fresh. (sym stale ∙ fresh, λ j date _. ap (get date) (days-Booked id amount l l' a j b)))
        s

  -- When a ledger is in step with its history file, which is not stale, an adjustment that is
  -- answered without an error, other than as a duplicate, is on disk: the files give back the
  -- ledger with the adjustment, which stays in step with its history file.
  pub adjust_balance-Recovers :
      (persist : Persist) (id : String) (amount : Int64) (request_id : String) (l : Ledger)
      (files : Files) (a : BalanceAdjustment)
      → InSync dataset_id l files.history
      → l.history_stale ≡ false
      → (adjust_balance persist id amount request_id l).1 ≡ adjusted a
      → a.duplicate ≡ false
      → let l' = (adjust_balance persist id amount request_id l).0 in
        InSync dataset_id l' files.history × Recovers l' (adjusted_files dataset_id l' files)
  adjust_balance-Recovers persist id amount request_id l files a s fresh h new =
      let l' = (adjust_balance persist id amount request_id l).0 in
      let settled : Settled id amount l l' (adjusted a) =
        (rw h at (adjust_balance-Settled persist id amount request_id l)) in
      elim settled [
        | inl (old, _) ↦ absurd (ground (arith, old, new))
        | inr (_, b) ↦
            let s' = InSync-Booked id amount l l' a files.history b s in
            let (_, _, _, _, _, _, _, _, _, _, _, stale, _) = b in
            (
              s',
              unfold adjusted_files in
                  read_back l' dataset_id l'.history_through l'.history_through files.history
                    (omega arith) s'.named s'.reaches (s'.holds (stale ∙ fresh)),
            )
      ]
