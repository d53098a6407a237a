-- ===== src/Ledger/Adjust/Outcomes.antt =====
-- What an adjustment leaves of the ledger: `adjustBalanceAndPersist` of internal/policy/balance.go.
use cpa_plugin_key_policy.Base.{
  ◌≡◌, ◌≢◌, refl, true, false, Option, none, some, String, string_eq, nat_eq, ◌==◌, get_or, inl,
  inr, Bool-cases, Option-cases, ◌⊎◌,
}
use cpa_plugin_key_policy.Dict.{get, get-put_self, get-put_ne}
use cpa_plugin_key_policy.Int64.{Int64, add64}
use cpa_plugin_key_policy.Cycle.{Cycles}
use cpa_plugin_key_policy.Balance.{Balance, BalanceRequest, empty_balance}
use cpa_plugin_key_policy.Ledger.{Ledger, KeyUsage, mark_dirty}
use cpa_plugin_key_policy.Ledger.Flush.{live_snapshot}
use cpa_plugin_key_policy.Ledger.Views.{usage_of}
use cpa_plugin_key_policy.Ledger.Adjust.{
  Persist, Adjusted, refused, adjusted, BalanceAdjustment, adjust_balance, adjust_entry,
  adjust_usage, answer_or_apply, answer_request, apply_credit, with_balance, credit,
  earlier_request,
}

unfoldable pub balance_of : String → Ledger → Balance
balance_of id l = get_or (usage_of id l).balance empty_balance

-- the ledger after an adjustment that was booked, and its answer
abbrev pub Booked : String → Int64 → Ledger → Ledger → BalanceAdjustment → Type 0
Booked id amount l l' a =
    (a.before ≡ (balance_of id l).nano)
    × (a.after ≡ (balance_of id l').nano)
    × (a.net_credited ≡ (balance_of id l').net_credited_nano)
    × ((balance_of id l').nano ≡ add64 (balance_of id l).nano amount)
    × ((balance_of id l').net_credited_nano ≡ add64 (balance_of id l).net_credited_nano amount)
    × ((usage_of id l').cycles ≡ (usage_of id l).cycles)
    × ((usage_of id l').days ≡ (usage_of id l).days)
    × ((j : String) → id ≢ j → usage_of j l' ≡ usage_of j l)
    × (l'.dirty ≡ false)
    × (l'.history_through ≡ l.history_through)
    × (l'.closed_through ≡ l.closed_through)
    × (l'.history_stale ≡ l.history_stale)
    × (l'.timezone ≡ l.timezone)

-- an answer that is not an error names an earlier adjustment, or one that was booked now
abbrev pub Settled : String → Int64 → Ledger → Ledger → Adjusted → Type 0
Settled id amount l l' (refused _) = l' ≡ l
Settled id amount l l' (adjusted a) =
    (a.duplicate ≡ true) × (l' ≡ l) ⊎ (a.duplicate ≡ false) × Booked id amount l l' a

module _ (id : String) (amount : Int64) (l : Ledger) where
  answer_request-Settled :
      (balance : Balance) (request : BalanceRequest)
      → Settled id amount l l (answer_request id amount balance request)
  unfolding answer_request
  answer_request-Settled balance request = elim (Bool-cases (request.amount_nano == amount)) [
    | inl h ↦ rw h (inl (refl, refl))
    | inr h ↦ rw h refl
  ]

  with_balance-Booked :
      (usage : KeyUsage) (request_id : String)
      → get id l.entries ≡ some usage
      → let balance = get_or usage.balance empty_balance in
        let balance' = credit amount request_id balance in
        Booked id amount l
          (record (with_balance id usage balance' l) { dirty = false })
          (record {
            key_id = id;
            amount = amount;
            before = balance.nano;
            after = balance'.nano;
            net_credited = balance'.net_credited_nano;
            duplicate = false;
          })
  unfolding with_balance mark_dirty credit balance_of
  with_balance-Booked usage request_id h =
      let balance' = credit amount request_id (get_or usage.balance empty_balance) in
      let usage' : KeyUsage = record usage { balance = some balance' } in
      rw (h, get-put_self id usage' l.entries)
        (
          refl,
          refl,
          refl,
          refl,
          refl,
          refl,
          refl,
          λ j ne. rw (get-put_ne id j usage' l.entries ne) refl,
          refl,
          refl,
          refl,
          refl,
          refl,
        )

  apply_credit-Settled :
      (persist : Persist) (request_id : String) (usage : KeyUsage)
      → get id l.entries ≡ some usage
      → let r =
          apply_credit persist id amount request_id usage (get_or usage.balance empty_balance) l in
        Settled id amount l r.0 r.1
  unfolding apply_credit
  apply_credit-Settled persist request_id usage h =
      let balance' = credit amount request_id (get_or usage.balance empty_balance) in
      let l' = with_balance id usage balance' l in
      elim (Bool-cases (persist l'.history_through (live_snapshot l'.history_through l'))) [
        | inl t ↦ rw t (inr (refl, with_balance-Booked usage request_id h))
        | inr t ↦ rw t refl
      ]

  adjust_usage-Settled :
      (persist : Persist) (request_id : String) (usage : KeyUsage) (cycles : Option Cycles)
      → get id l.entries ≡ some usage
      → let r = adjust_usage persist id amount request_id l usage cycles in
        Settled id amount l r.0 r.1
  unfolding adjust_usage answer_or_apply
  adjust_usage-Settled persist request_id usage none h = refl
  adjust_usage-Settled persist request_id usage (some _) h =
      let balance = get_or usage.balance empty_balance in
      elim (Option-cases (earlier_request request_id balance)) [
        | inl e ↦ rw e (apply_credit-Settled persist request_id usage h)
        | inr (request, e) ↦ rw e (answer_request-Settled balance request)
      ]

-- An adjustment that is refused, for a key without periods, for a request id with another amount or
-- because the live file was not written, leaves the ledger as it was, and so does one that an
-- earlier request answers. One that is booked moves the balance and the net credit of its key by
-- the amount in 64-bit arithmetic, answers with both and with the balance before, leaves the key's
-- periods and days and the other keys alone, and leaves a ledger that is not dirty.
pub adjust_balance-Settled :
    (persist : Persist) (id : String) (amount : Int64) (request_id : String) (l : Ledger)
    → let r = adjust_balance persist id amount request_id l in Settled id amount l r.0 r.1
unfolding adjust_balance adjust_entry
adjust_balance-Settled persist id amount request_id l = elim (Option-cases (get id l.entries)) [
  | inl h ↦ rw h refl
  | inr (usage, h) ↦ rw h (adjust_usage-Settled id amount l persist request_id usage usage.cycles h)
]
