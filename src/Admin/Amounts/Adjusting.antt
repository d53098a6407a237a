-- ===== src/Admin/Amounts/Adjusting.antt =====
-- What `AdjustBalance` of internal/policy/balance.go leaves, with each of its answers.
use cpa_plugin_key_policy.Base.{
  ◌≡◌, refl, ap, Bool, true, false, Option, none, some, [], ◌∷◌, ◌++◌, String, string_eq, inl, inr,
  ◌⊎◌, Bool-cases, arith,
}
use cpa_plugin_key_policy.Base.Results.{Result, ok, err}
use cpa_plugin_key_policy.Dict.{get}
use cpa_plugin_key_policy.Text.{trim_space}
use cpa_plugin_key_policy.Money.{Floats, usd_to_nano}
use cpa_plugin_key_policy.Ledger.{Ledger}
use cpa_plugin_key_policy.Ledger.Adjust.{
  BalanceAdjustment, Adjusted, refused, adjusted, adjust_balance,
}
use cpa_plugin_key_policy.Ledger.Adjust.Outcomes.{Booked, Settled, adjust_balance-Settled}
use cpa_plugin_key_policy.Persistence.Flushing.{InSync, Recovers}
use cpa_plugin_key_policy.Persistence.Adjusting.{adjusted_files, adjust_balance-Recovers}
use cpa_plugin_key_policy.Store.{KeyConfig, balance_mode}
use cpa_plugin_key_policy.Admin.{Instance}
use cpa_plugin_key_policy.Admin.Amounts.{
  AmountError, is_excessive, refused_amount, refused_key, adjustment_event, adjustment_answered,
  adjustment_booked, adjusted_unless, adjust_account, with_usage,
}

module _ {fl : Floats} (dataset_id raw_id : String) (dollars : fl.Float)
    (raw_note raw_request_id : String) where
  adjusting-Settled :
      (live_ok : Bool) (i : Instance fl)
      → let r =
          adjust_balance
            (λ _ _. live_ok)
            (trim_space raw_id)
            (usd_to_nano fl dollars)
            (trim_space raw_request_id)
            i.store.usage in
        Settled (trim_space raw_id) (usd_to_nano fl dollars) i.store.usage r.0 r.1
  adjusting-Settled live_ok i =
      adjust_balance-Settled (λ _ _. live_ok) (trim_space raw_id) (usd_to_nano fl dollars)
        (trim_space raw_request_id) i.store.usage

  -- An adjustment that is booked: the key is prepaid and the amount in its bounds, the ledger books
  -- it, one event is audited, and the files give the ledger back.
  pub record Adjustment (i i' : Instance fl) (a : BalanceAdjustment) : Type 0 where
    pub new : a.duplicate ≡ false
    pub bounded : is_excessive fl dollars ≡ false
    pub prepaid :
        (key : KeyConfig fl) × (get (trim_space raw_id) i.store.keys ≡ some key)
        × (balance_mode key ≡ true)
    pub booked : Booked (trim_space raw_id) (usd_to_nano fl dollars) i.store.usage i'.store.usage a
    pub audited :
        i'.audited
        ≡ i.audited ++ (adjustment_event (trim_space raw_note) (trim_space raw_request_id) a ∷ [])
    pub recovers :
        InSync dataset_id i.store.usage i.files.history
        → i.store.usage.history_stale ≡ false
        → InSync dataset_id i'.store.usage i'.files.history × Recovers i'.store.usage i'.files

  -- the outcome of an adjustment
  abbrev pub Outcome : Instance fl → Instance fl × Result AmountError BalanceAdjustment → Type 0
  Outcome i (i', err e) = i' ≡ i
  Outcome i (i', ok a) = ((a.duplicate ≡ true) × (i' ≡ i)) ⊎ Adjustment i i' a

  module _ (live_ok : Bool) (i : Instance fl) (small : is_excessive fl dollars ≡ false)
      (found : (key : KeyConfig fl) × (get (trim_space raw_id) i.store.keys ≡ some key)
        × (balance_mode key ≡ true)) where
    adjustment_booked-Outcome :
        (l : Ledger) (a : BalanceAdjustment) (duplicate : Bool)
        → a.duplicate ≡ duplicate
        → adjust_balance
            (λ _ _. live_ok)
            (trim_space raw_id)
            (usd_to_nano fl dollars)
            (trim_space raw_request_id)
            i.store.usage
          ≡ (l, adjusted a)
        → Outcome i (
            adjustment_booked dataset_id
              (trim_space raw_note)
              (trim_space raw_request_id)
              i
              l
              a
              duplicate)
    unfolding adjustment_booked adjusted_files
    adjustment_booked-Outcome l a true old h =
        let settled : Settled (trim_space raw_id) (usd_to_nano fl dollars) i.store.usage l
            (adjusted a) =
          rw h at (adjusting-Settled live_ok i) in
        elim settled [
          | inl (_, same) ↦ inl (old, ap (λ u. with_usage u i) same)
          | inr (new, _) ↦ absurd (ground (arith, old, new))
        ]
    adjustment_booked-Outcome l a false new h =
        let settled : Settled (trim_space raw_id) (usd_to_nano fl dollars) i.store.usage l
            (adjusted a) =
          rw h at (adjusting-Settled live_ok i) in
        elim settled [
          | inl (old, _) ↦ absurd (ground (arith, old, new))
          | inr (_, booked) ↦ inr (record {
            new = new;
            bounded = small;
            prepaid = found;
            booked = booked;
            audited = refl;
            recovers = λ s fresh. rw h at (
                adjust_balance-Recovers (λ _ _. live_ok) (trim_space raw_id)
                  (usd_to_nano fl dollars) (trim_space raw_request_id) i.store.usage i.files a s
                  fresh (ap (λ r. r.1) h) new);
          })
        ]

    adjustment_answered-Outcome :
        (r : Ledger × Adjusted)
        → adjust_balance
            (λ _ _. live_ok)
            (trim_space raw_id)
            (usd_to_nano fl dollars)
            (trim_space raw_request_id)
            i.store.usage
          ≡ r
        → Outcome i
            (adjustment_answered dataset_id (trim_space raw_note) (trim_space raw_request_id) i r)
    unfolding adjustment_answered
    adjustment_answered-Outcome (l, refused e) h =
        let settled : l ≡ i.store.usage = rw h at (adjusting-Settled live_ok i) in
        ap (λ u. with_usage u i) settled
    adjustment_answered-Outcome (l, adjusted a) h = adjustment_booked-Outcome l a a.duplicate refl h

  adjusted_unless-Outcome :
      (i : Instance fl) (bad unfit : Option AmountError)
      (r : Instance fl × Result AmountError BalanceAdjustment)
      → (bad ≡ none → unfit ≡ none → Outcome i r)
      → Outcome i (adjusted_unless i bad unfit r)
  unfolding adjusted_unless
  adjusted_unless-Outcome i (some e) unfit r h = refl
  adjusted_unless-Outcome i none (some e) r h = refl
  adjusted_unless-Outcome i none none r h = h refl refl

refused_amount-none :
    (fl : Floats) (id : String) (dollars : fl.Float) (note request_id : String)
    → refused_amount fl id dollars note request_id ≡ none
    → is_excessive fl dollars ≡ false
unfolding refused_amount
refused_amount-none fl id dollars note request_id h = ground arith

refused_key-none :
    {fl : Floats} (found : Option (KeyConfig fl))
    → refused_key found ≡ none
    → (key : KeyConfig fl) × (found ≡ some key) × (balance_mode key ≡ true)
unfolding refused_key
refused_key-none none h = absurd (cc)
refused_key-none (some key) h = elim (Bool-cases (balance_mode key)) [
  | inl prepaid ↦ (key, refl, prepaid)
  | inr other ↦ absurd (cc)
]

-- An adjustment of a key's balance that is answered with an error, and one that an earlier request
-- answers, leaves the whole instance as it was. Any other is of a prepaid key of the store and
-- within the bounds, moves the key's balance and net credit by the amount in 64-bit arithmetic and
-- no other key, and is audited once; and where the ledger is in step with its history file, which
-- is not stale, the files give back the ledger with the adjustment.
pub adjust_account-Outcome :
    {fl : Floats} (dataset_id : String) (live_ok : Bool) (raw_id : String) (dollars : fl.Float)
    (raw_note raw_request_id : String) (i : Instance fl)
    → Outcome dataset_id raw_id dollars raw_note raw_request_id i
        (adjust_account dataset_id live_ok raw_id dollars raw_note raw_request_id i)
unfolding adjust_account
adjust_account-Outcome {fl} dataset_id live_ok raw_id dollars raw_note raw_request_id i =
    let id = trim_space raw_id in
    let bad = refused_amount fl id dollars (trim_space raw_note) (trim_space raw_request_id) in
    adjusted_unless-Outcome dataset_id raw_id dollars raw_note raw_request_id i bad
      (refused_key (get id i.store.keys)) _
      (λ fine fit.
        adjustment_answered-Outcome dataset_id raw_id dollars raw_note raw_request_id live_ok i
          (refused_amount-none fl id dollars (trim_space raw_note) (trim_space raw_request_id) fine)
          (refused_key-none (get id i.store.keys) fit) _ refl)
