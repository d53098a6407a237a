-- ===== src/Ledger/Adjust/Retry.antt =====
-- A retried adjustment is booked once: the request ids of internal/policy/balance.go.
use cpa_plugin_key_policy.Base.{
  ℕ, suc, zero, ◌≡◌, ◌≢◌, refl, ap, ◌∙◌, true, false, Option, none, some, List, [], ◌∷◌, ◌++◌,
  String, string_eq, nat_eq, ◌==◌, arith, get_or, inl, inr, Bool-cases, Option-cases, ◌≤◌, length,
  drop, ◌-◌, ◌+◌, length-drop, length-append, beq_refl,
}
use cpa_plugin_key_policy.Dict.{get, get-put_self}
use cpa_plugin_key_policy.Int64.{Int64, add64, sub64, IsInt64}
use cpa_plugin_key_policy.Cycle.{Cycles}
use cpa_plugin_key_policy.Ledger.Flush.{live_snapshot}
use cpa_plugin_key_policy.Balance.{Balance, BalanceRequest, empty_balance, balance_requests_kept}
use cpa_plugin_key_policy.Ledger.{Ledger, KeyUsage, mark_dirty}
use cpa_plugin_key_policy.Ledger.Views.{usage_of}
use cpa_plugin_key_policy.Ledger.Adjust.{
  Persist, Adjusted, refused, adjusted, BalanceAdjustment, adjust_balance, adjust_entry,
  adjust_usage, answer_or_apply, answer_request, apply_credit, with_balance, credit,
  earlier_request, find_request, latest,
}

-- a request at the end of a list that does not name it is the one that is found, when the list
-- loses some that were there before
find_request-latest :
    (n : ℕ) (request : BalanceRequest) (requests : List BalanceRequest)
    → n ≤ length requests
    → find_request request.id requests ≡ none
    → find_request request.id (drop n (requests ++ (request ∷ []))) ≡ some request
unfolding find_request
find_request-latest zero request [] hn h = rw (beq_refl request.id) refl
find_request-latest (suc n) request [] hn h = absurd (omega arith)
find_request-latest zero request (first ∷ requests) hn h =
    ground (arith, find_request-latest zero request requests)
find_request-latest (suc n) request (first ∷ requests) hn h =
    ground (arith, find_request-latest n request requests)

earlier_request-credit :
    (amount : Int64) (id : String) (balance : Balance)
    → length balance.requests ≤ balance_requests_kept
    → earlier_request id balance ≡ none
    → (id == "") ≡ false
    → earlier_request id (credit amount id balance)
      ≡ some (record { id = id; amount_nano = amount; balance_nano = add64 balance.nano amount })
unfolding earlier_request credit latest
earlier_request-credit amount id balance bound h ne =
    let request : BalanceRequest = record {
      id = id;
      amount_nano = amount;
      balance_nano = add64 balance.nano amount;
    } in
    let absent : find_request id balance.requests ≡ none = rw ne at h in
    rw (ne, length-append balance.requests (request ∷ []))
      (find_request-latest (length balance.requests + 1 - balance_requests_kept) request
        balance.requests (omega arith) absent)

-- The balance keeps at most 64 requests.
pub length-credit :
    (amount : Int64) (id : String) (balance : Balance)
    → length balance.requests ≤ balance_requests_kept
    → length (credit amount id balance).requests ≤ balance_requests_kept
unfolding credit latest
length-credit amount id balance bound = elim (Bool-cases (id == "")) [
  | inl h ↦ rw h bound
  | inr h ↦ rw h (
      let requests =
        balance.requests
        ++ (record { id = id; amount_nano = amount; balance_nano = add64 balance.nano amount }
            ∷ []) in
      omega (arith, length-drop (length requests - 64) requests))
]

-- the answer to a retry
abbrev pub again : BalanceAdjustment → Adjusted
again a = adjusted (record a { duplicate = true })

abbrev retried : Adjusted → Adjusted
retried (refused e) = refused e
retried (adjusted a) = again a

adjust_usage-answer :
    (persist : Persist) (id : String) (amount : Int64) (request_id : String) (l : Ledger)
    (usage : KeyUsage) (held : Option Cycles) (cycles : Cycles) (request : BalanceRequest)
    → held ≡ some cycles
    → earlier_request request_id (get_or usage.balance empty_balance) ≡ some request
    → adjust_usage persist id amount request_id l usage held
      ≡ (l, answer_request id amount (get_or usage.balance empty_balance) request)
unfolding adjust_usage answer_or_apply
adjust_usage-answer persist id amount request_id l usage held cycles request hc h = rw (hc, h) refl

module _ (persist persist' : Persist) (id : String) (amount : Int64) (request_id : String)
    (l : Ledger) where
  answer_request-again :
      (balance : Balance) (request : BalanceRequest) (a : BalanceAdjustment)
      → answer_request id amount balance request ≡ adjusted a
      → answer_request id amount balance request ≡ again a
  unfolding answer_request
  answer_request-again balance request a h = ground (arith, h)

  answer-again :
      (balance : Balance) (a : BalanceAdjustment)
      → IsInt64 balance.nano
      → IsInt64 amount
      → let balance' = credit amount request_id balance in
        adjusted (record {
          key_id = id;
          amount = amount;
          before = balance.nano;
          after = balance'.nano;
          net_credited = balance'.net_credited_nano;
          duplicate = false;
        })
          ≡ adjusted a
        → answer_request id amount balance' (record {
          id = request_id;
          amount_nano = amount;
          balance_nano = add64 balance.nano amount;
        })
          ≡ again a
  unfolding answer_request credit
  answer-again balance a hb ha h =
      let back : sub64 (add64 balance.nano amount) amount ≡ balance.nano = omega arith in
      rw (beq_refl amount, back) (ap retried h)

  apply_credit-again :
      (usage : KeyUsage) (cycles : Cycles) (balance : Balance) (a : BalanceAdjustment)
      → IsInt64 balance.nano
      → IsInt64 amount
      → length balance.requests ≤ balance_requests_kept
      → earlier_request request_id balance ≡ none
      → (request_id == "") ≡ false
      → usage.cycles ≡ some cycles
      → (apply_credit persist id amount request_id usage balance l).1 ≡ adjusted a
      → let l' = (apply_credit persist id amount request_id usage balance l).0 in
        adjust_balance persist' id amount request_id l' ≡ (l', again a)
  unfolding apply_credit with_balance mark_dirty adjust_balance adjust_entry
  apply_credit-again usage cycles balance a hb ha bound absent ne hc h =
      let balance' = credit amount request_id balance in
      let usage' : KeyUsage = record usage { balance = some balance' } in
      let l' = with_balance id usage balance' l in
      elim (Bool-cases (persist l'.history_through (live_snapshot l'.history_through l'))) [
        | inl t ↦
            rw (t, get-put_self id usage' l.entries)
              (adjust_usage-answer persist' id amount request_id (record l' { dirty = false })
                  usage' usage.cycles cycles
                  (record {
                    id = request_id;
                    amount_nano = amount;
                    balance_nano = add64 balance.nano amount;
                  })
                  hc (earlier_request-credit amount request_id balance bound absent ne)
                ∙ ap (λ answer. (record l' { dirty = false }, answer))
                    (answer-again balance a hb ha (rw t at h)))
        | inr t ↦ absurd (let e = (rw t at h) in cc)
      ]

  adjust_usage-again :
      (usage : KeyUsage) (held : Option Cycles) (a : BalanceAdjustment)
      → let balance = get_or usage.balance empty_balance in
        get id l.entries ≡ some usage
        → usage.cycles ≡ held
        → IsInt64 balance.nano
        → IsInt64 amount
        → length balance.requests ≤ balance_requests_kept
        → (request_id == "") ≡ false
        → let (l', answer) = adjust_usage persist id amount request_id l usage held in
          answer ≡ adjusted a → adjust_balance persist' id amount request_id l' ≡ (l', again a)
  unfolding adjust_usage answer_or_apply adjust_balance adjust_entry
  adjust_usage-again usage none a hu hc hb ha bound ne h = absurd (cc)
  adjust_usage-again usage (some cycles) a hu hc hb ha bound ne h =
      let balance = get_or usage.balance empty_balance in
      elim (Option-cases (earlier_request request_id balance)) [
        | inl e ↦ rw e (apply_credit-again usage cycles balance a hb ha bound e ne hc (rw e at h))
        | inr (request, e) ↦
            rw (e, hu)
              (adjust_usage-answer persist' id amount request_id l usage usage.cycles cycles request
                  hc e
                ∙ ap (λ answer. (l, answer)) (answer_request-again balance request a (rw e at h)))
      ]

-- An adjustment with a request id that is answered without an error is booked once: the same
-- adjustment made again changes nothing, whether or not the file could be written, and has the same
-- answer but for the mark that it is a duplicate. The amount and the balance are 64-bit numbers,
-- and the balance keeps at most 64 requests before the first.
pub adjust_balance-again :
    (persist persist' : Persist) (id : String) (amount : Int64) (request_id : String) (l : Ledger)
    (a : BalanceAdjustment)
    → IsInt64 (get_or (usage_of id l).balance empty_balance).nano
    → IsInt64 amount
    → length (get_or (usage_of id l).balance empty_balance).requests ≤ balance_requests_kept
    → request_id ≢ ""
    → (adjust_balance persist id amount request_id l).1 ≡ adjusted a
    → let l' = (adjust_balance persist id amount request_id l).0 in
      adjust_balance persist' id amount request_id l' ≡ (l', again a)
unfolding adjust_balance adjust_entry
adjust_balance-again persist persist' id amount request_id l a hb ha bound ne h =
    elim (Option-cases (get id l.entries)) [
      | inl e ↦ absurd (let x = (rw e at h) in cc)
      | inr (usage, e) ↦
          (let named : (request_id == "") ≡ false =
              ground (arith, string_eq.same_iff request_id "") in
            let hb' : IsInt64 (get_or usage.balance empty_balance).nano = (rw e at hb) in
            let bound' : length (get_or usage.balance empty_balance).requests
                ≤ balance_requests_kept =
              (rw e at bound) in
            rw e (
              adjust_usage-again persist persist' id amount request_id l usage usage.cycles a e refl
                hb' ha bound' named (rw e at h)))
    ]
