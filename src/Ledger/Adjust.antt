-- ===== src/Ledger/Adjust.antt =====
-- `adjustBalanceAndPersist` and `balanceDenial` of internal/policy/balance.go. Amounts stay in
-- nanodollars: the source turns them into dollars only in its answer. The callback is a parameter,
-- whether writing the live file that it is given returns no error.
pub mod Outcomes
pub mod Retry
use cpa_plugin_key_policy.Base.{
  ℕ, ◌-◌, ◌≡◌, Bool, true, false, not, ◌&&◌, Option, none, some, List, [], ◌∷◌, String, string_eq,
  nat_eq, ◌==◌, if◌then◌else◌, get_or, length, drop, ◌++◌,
}
use cpa_plugin_key_policy.Dict.{Dict, get, put}
use cpa_plugin_key_policy.Int64.{Int64, add64, sub64, lt64}
use cpa_plugin_key_policy.Calendar.{Date}
use cpa_plugin_key_policy.Cycle.{Cycles}
use cpa_plugin_key_policy.Balance.{Balance, BalanceRequest, empty_balance, balance_requests_kept}
use cpa_plugin_key_policy.Ledger.{Ledger, KeyUsage, mark_dirty}
use cpa_plugin_key_policy.Ledger.Flush.{LiveKey, live_snapshot}

-- the errors of an adjustment
pub data AdjustError : Type 0 where
  unknown_key request_conflict not_persisted : AdjustError

-- `BalanceAdjustment`, in nanodollars
pub record BalanceAdjustment : Type 0 where
  pub key_id : String
  pub amount : Int64
  pub before : Int64
  pub after : Int64
  pub net_credited : Int64
  pub duplicate : Bool

-- what an adjustment answers
pub data Adjusted : Type 0 where
  refused : AdjustError → Adjusted
  adjusted : BalanceAdjustment → Adjusted

abbrev pub Persist : Type 0
Persist = Date → Dict String LiveKey → Bool

-- the first request of an id
unfoldable pub find_request : String → List BalanceRequest → Option BalanceRequest
find_request id [] = none
find_request id (request ∷ requests) =
    let rest = find_request id requests in if request.id == id then some request else rest

-- the request that the loop over `balance.Requests` answers; an empty id is not looked for
unfoldable pub earlier_request : String → Balance → Option BalanceRequest
unfolding find_request
earlier_request id balance = if id == "" then none else find_request id balance.requests

-- the last `balanceRequestsKept` requests
unfoldable pub latest : List BalanceRequest → List BalanceRequest
latest requests = drop (length requests - balance_requests_kept) requests

-- the balance after an adjustment
unfoldable pub credit : Int64 → String → Balance → Balance
unfolding latest
credit amount request_id balance =
    let nano = add64 balance.nano amount in
    record {
      nano = nano;
      net_credited_nano = add64 balance.net_credited_nano amount;
      requests =
          if request_id == ""
          then balance.requests
          else latest (
              balance.requests
              ++ (record { id = request_id; amount_nano = amount; balance_nano = nano } ∷ []));
    }

-- the ledger whose live file the callback is given
unfoldable pub with_balance : String → KeyUsage → Balance → Ledger → Ledger
unfolding mark_dirty
with_balance id usage balance l =
    mark_dirty (record l { entries = put id (record usage { balance = some balance }) l.entries })

-- an adjustment that no earlier request answers
unfoldable pub apply_credit :
    Persist → String → Int64 → String → KeyUsage → Balance → Ledger → Ledger × Adjusted
unfolding credit with_balance
apply_credit persist id amount request_id usage balance l =
    let balance' = credit amount request_id balance in
    let l' = with_balance id usage balance' l in
    if persist l'.history_through (live_snapshot l'.history_through l')
    then (
      record l' { dirty = false },
      adjusted (record {
        key_id = id;
        amount = amount;
        before = balance.nano;
        after = balance'.nano;
        net_credited = balance'.net_credited_nano;
        duplicate = false;
      }),
    )
    else (l, refused not_persisted)

-- the answer to a request that was made before
unfoldable pub answer_request : String → Int64 → Balance → BalanceRequest → Adjusted
answer_request id amount balance request =
    if not (request.amount_nano == amount)
    then refused request_conflict
    else adjusted (record {
      key_id = id;
      amount = amount;
      before = sub64 request.balance_nano amount;
      after = request.balance_nano;
      net_credited = balance.net_credited_nano;
      duplicate = true;
    })

unfoldable pub answer_or_apply :
    Persist
    → String
    → Int64
    → String
    → KeyUsage
    → Balance
    → Ledger
    → Option BalanceRequest
    → Ledger × Adjusted
answer_or_apply persist id amount request_id usage balance l (some request) =
    (l, answer_request id amount balance request)
answer_or_apply persist id amount request_id usage balance l none =
    apply_credit persist id amount request_id usage balance l

unfoldable pub adjust_usage :
    Persist → String → Int64 → String → Ledger → KeyUsage → Option Cycles → Ledger × Adjusted
adjust_usage persist id amount request_id l usage none = (l, refused unknown_key)
adjust_usage persist id amount request_id l usage (some _) =
    let balance = get_or usage.balance empty_balance in
    answer_or_apply persist id amount request_id usage balance l
      (earlier_request request_id balance)

unfoldable pub adjust_entry :
    Persist → String → Int64 → String → Ledger → Option KeyUsage → Ledger × Adjusted
adjust_entry persist id amount request_id l none = (l, refused unknown_key)
adjust_entry persist id amount request_id l (some usage) =
    adjust_usage persist id amount request_id l usage usage.cycles

-- `adjustBalanceAndPersist`
unfoldable pub adjust_balance : Persist → String → Int64 → String → Ledger → Ledger × Adjusted
adjust_balance persist id amount request_id l =
    adjust_entry persist id amount request_id l (get id l.entries)

allows : Option Balance → Bool
allows none = false
allows (some balance) = lt64 0 balance.nano

-- `balanceDenial`: whether it lets the key call
unfoldable pub balance_allows : String → Ledger → Bool
unfolding allows
balance_allows id l = elim (get id l.entries) [ none ↦ false | some usage ↦ allows usage.balance ]
