-- ===== src/Ledger/Periods/Forgetting.antt =====
-- A deleted key keeps nothing that a key recreated under its id would inherit: `forgetKey` and
-- `openCyclesLocked` of internal/policy/ledger.go.
use cpa_plugin_key_policy.Base.{
  ◌≡◌, ◌≢◌, refl, ap, false, ◌||◌, Option, none, some, [], String, string_eq, nat_eq, ◌==◌, arith,
  get_or, is_some, length, Bool-cases, inl, inr, if◌then◌else◌, beq_refl,
}
use cpa_plugin_key_policy.Dict.{
  get, put, remove, get-put_self, get-put_ne, get-remove, get_of_empty,
}
use cpa_plugin_key_policy.Calendar.{Time, Date}
use cpa_plugin_key_policy.Cycle.{Cycles, advance_cycles, new_cycles, initial}
use cpa_plugin_key_policy.Balance.{Balance}
use cpa_plugin_key_policy.Ledger.{Ledger, KeyUsage, no_usage, mark_dirty}
use cpa_plugin_key_policy.Ledger.Views.{usage_of}
use cpa_plugin_key_policy.Ledger.Periods.{
  KeyBirth, forget_key, open_cycles, opened_cycles, holds_periods,
}

module _ (id : String) (now : Time) (l : Ledger) where
  -- an entry without its periods and its balance is as good as none when it has no days
  get-emptied :
      (usage : KeyUsage)
      → let bare : KeyUsage = record usage { cycles = none; balance = none } in
        let entries =
          if length usage.days == 0 then remove id l.entries else put id bare l.entries in
        ((date : Date) → get date (get_or (get id entries) no_usage).days ≡ get date usage.days)
        × ((get_or (get id entries) no_usage).cycles ≡ none)
        × ((get_or (get id entries) no_usage).balance ≡ none)
        × ((j : String) → id ≢ j → get j entries ≡ get j l.entries)
  get-emptied usage = elim (Bool-cases (length usage.days == 0)) [
    | inl h ↦
        (let empty : length usage.days ≡ 0 =
            ground (arith, h, nat_eq.same_iff (length usage.days) 0) in
          rw (h, get-remove id id l.entries, beq_refl id)
            (
              λ date. rw (get_of_empty date usage.days empty) (get_of_empty date [] refl),
              refl,
              refl,
              λ j ne. ground (arith, get-remove id j l.entries, string_eq.same_iff id j),
            ))
    | inr h ↦
        rw (h, get-put_self id (record usage { cycles = none; balance = none }) l.entries)
          (
            λ date. refl,
            refl,
            refl,
            λ j ne. get-put_ne id j (record usage { cycles = none; balance = none }) l.entries ne,
          )
  ]

holds_nothing :
    (usage : KeyUsage)
    → holds_periods usage ≡ false
    → (usage.cycles ≡ none) × (usage.balance ≡ none)
holds_nothing usage h = none_of usage.cycles usage.balance h
  where
    none_of :
        (c : Option Cycles) (b : Option Balance)
        → (is_some c || is_some b) ≡ false
        → (c ≡ none) × (b ≡ none)
    none_of none none h = (refl, refl)
    none_of none (some _) h = absurd (cc)
    none_of (some _) _ h = absurd (cc)

-- After a key is forgotten it has no periods and no balance, and all of its days; other keys are as
-- they were.
pub forget_key_lem :
    (id : String) (now : Time) (l : Ledger)
    → let l' = (forget_key id now l).0 in
      ((usage_of id l').cycles ≡ none)
      × ((usage_of id l').balance ≡ none)
      × ((date : Date) → get date (usage_of id l').days ≡ get date (usage_of id l).days)
      × ((j : String) → id ≢ j → usage_of j l' ≡ usage_of j l)
unfolding forget_key mark_dirty
forget_key_lem id now l =
    let usage = usage_of id l in
    elim (Bool-cases (holds_periods usage)) [
      | inl h ↦ rw h (
          let (days, cycles, balance, others) = get-emptied id now l usage in
          (cycles, balance, days, λ j ne. rw (others j ne) refl))
      | inr h ↦ rw h (
          let (cycles, balance) = holds_nothing usage h in
          (cycles, balance, λ date. refl, λ j ne. refl))
    ]

location-forget_key :
    (id : String) (now : Time) (l : Ledger) → (forget_key id now l).0.location ≡ l.location
unfolding forget_key mark_dirty
location-forget_key id now l = ground arith

module _ (key : KeyBirth) (now : Time) (l : Ledger) where
  opened : Cycles
  opened = (advance_cycles l.location now (new_cycles l.location key.created_at initial)).0

  open_cycles-fresh :
      (usage_of key.id l).cycles ≡ none
      → (key.created_at == 0) ≡ false
      → usage_of key.id (open_cycles key now l)
        ≡ record (usage_of key.id l) { cycles = some opened }
  unfolding open_cycles opened_cycles mark_dirty opened
  open_cycles-fresh absent born =
      let usage' : KeyUsage = record (usage_of key.id l) { cycles = some opened } in
      rw (absent, born)
        (elim (Bool-cases
          (advance_cycles l.location now (new_cycles l.location key.created_at initial)).1) [
            | inl t ↦ rw (t, get-put_self key.id usage' l.entries) refl
            | inr t ↦ rw (t, get-put_self key.id usage' l.entries) refl
          ])

-- A key with an instant of creation that is opened under an id that was forgotten begins with
-- periods that nothing was used in, opened at its creation and rolled forward to now, and without a
-- balance.
pub open_cycles-forget_key :
    (key : KeyBirth) (before now : Time) (l : Ledger)
    → key.created_at ≢ 0
    → let usage = usage_of key.id (open_cycles key now (forget_key key.id before l).0) in
      (usage.cycles
        ≡ some (advance_cycles l.location now (new_cycles l.location key.created_at initial)).0)
      × (usage.balance ≡ none)
unfolding opened
open_cycles-forget_key key before now l born =
    let l' = (forget_key key.id before l).0 in
    let (cycles, balance, _, _) = forget_key_lem key.id before l in
    let started : (key.created_at == 0) ≡ false =
      ground (arith, nat_eq.same_iff key.created_at 0) in
    let fresh = open_cycles-fresh key now l' cycles started in
    rw fresh (
      ap (λ loc. some (advance_cycles loc now (new_cycles loc key.created_at initial)).0)
          (location-forget_key key.id before l),
      balance,
    )
