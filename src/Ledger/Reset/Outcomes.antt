-- ===== src/Ledger/Reset/Outcomes.antt =====
-- What a manual reset leaves of the ledger: `resetWindowAndPersist` of internal/policy/ledger.go.
use cpa_plugin_key_policy.Base.{
  ◌≡◌, ◌≢◌, refl, false, Option, none, some, String, string_eq, nat_eq, inl, inr, Bool-cases,
}
use cpa_plugin_key_policy.Dict.{get, put, get-put_self, get-put_ne}
use cpa_plugin_key_policy.Calendar.{Time}
use cpa_plugin_key_policy.Cycle.{Window, Cycles, set_cycle, advance_cycles, manual_cycle}
use cpa_plugin_key_policy.Ledger.{Ledger, KeyUsage, mark_dirty}
use cpa_plugin_key_policy.Ledger.Views.{usage_of}
use cpa_plugin_key_policy.Ledger.Flush.{live_snapshot}
use cpa_plugin_key_policy.Ledger.Adjust.{Persist}
use cpa_plugin_key_policy.Ledger.Reset.{
  ResetExpectation, ResetResult, Answer, refused, done, is_changed, with_cycles, advanced,
  reset_result, reset_current, reset_usage, reset_entry, reset_window,
}

-- nothing of the ledger but a key's periods moved
abbrev pub Aside : String → Ledger → Ledger → Type 0
Aside id l l' =
    ((usage_of id l').days ≡ (usage_of id l).days)
    × ((usage_of id l').balance ≡ (usage_of id l).balance)
    × ((j : String) → id ≢ j → usage_of j l' ≡ usage_of j l)

-- a key's periods at an instant
abbrev pub periods_at : Time → Ledger → Cycles → Cycles
periods_at now l cycles = (advance_cycles l.location now cycles).0

abbrev pub Cleared : String → Window → Time → Cycles → Ledger → Ledger → ResetResult → Type 0
Cleared id window now cycles l l' r =
    ((usage_of id l').cycles
      ≡ some (set_cycle window (manual_cycle l.location now window) (periods_at now l cycles)))
    × (r
        ≡ reset_result id window (periods_at now l cycles)
            (set_cycle window (manual_cycle l.location now window) (periods_at now l cycles)))
    × (l'.dirty ≡ false)

-- what a reset leaves with each answer, for a key that has periods
abbrev pub Answered : String → Window → Time → Cycles → Ledger → Ledger → Answer → Type 0
Answered id window now cycles l l' (refused e) =
    (usage_of id l').cycles ≡ some (periods_at now l cycles)
Answered id window now cycles l l' (done r) = Cleared id window now cycles l l' r

module _ (persist : Persist) (id : String) (window : Window) (expected : Option ResetExpectation)
    (now : Time) where
  reset_current-Answered :
      (l l' : Ledger) (usage : KeyUsage) (cycles : Cycles)
      → get id l.entries ≡ some usage
      → l'.location ≡ l.location
      → l'.entries ≡ put id (record usage { cycles = some (periods_at now l cycles) }) l.entries
      → let r = reset_current persist id window expected now usage (periods_at now l cycles) l' in
        Answered id window now cycles l r.0 r.1 × Aside id l r.0
  unfolding reset_current mark_dirty with_cycles
  reset_current-Answered l l' usage cycles h hl he =
      let current = periods_at now l cycles in
      let usage' : KeyUsage = record usage { cycles = some current } in
      let cycles' = set_cycle window (manual_cycle l'.location now window) current in
      let usage'' : KeyUsage = record usage { cycles = some cycles' } in
      let reset_to : KeyUsage = record usage {
        cycles = some (set_cycle window (manual_cycle l.location now window) current);
      } in
      let l'' = mark_dirty (with_cycles id usage cycles' l') in
      elim (Bool-cases (is_changed expected l' now window current)) [
        | inl c ↦
            rw (c, he, h, get-put_self id usage' l.entries)
              (refl, (refl, refl, λ j ne. rw (get-put_ne id j usage' l.entries ne) refl))
        | inr c ↦
            rw c
              (elim (Bool-cases
                (persist l''.history_through (live_snapshot l''.history_through l''))) [
                  | inl t ↦
                      rw (t, h, get-put_self id usage'' l'.entries, hl)
                        (
                          (refl, refl, refl),
                          (
                            refl,
                            refl,
                            λ j ne.
                                rw
                                  (
                                    get-put_ne id j reset_to l'.entries ne,
                                    he,
                                    get-put_ne id j usage' l.entries ne,
                                  )
                                  refl,
                          ),
                        )
                  | inr t ↦
                      rw (t, he, h, get-put_self id usage' l.entries)
                        (refl, (refl, refl, λ j ne. rw (get-put_ne id j usage' l.entries ne) refl))
                ])
      ]

  reset_usage-Answered :
      (l : Ledger) (usage : KeyUsage) (held : Option Cycles) (cycles : Cycles)
      → get id l.entries ≡ some usage
      → held ≡ some cycles
      → let r = reset_usage persist id window expected now l usage held in
        Answered id window now cycles l r.0 r.1 × Aside id l r.0
  unfolding reset_usage advanced mark_dirty with_cycles
  reset_usage-Answered l usage none cycles h hc = absurd (cc)
  reset_usage-Answered l usage (some cycles') cycles h hc =
      let e : cycles' ≡ cycles = cc in
      let current = periods_at now l cycles in
      let l' = with_cycles id usage current l in
      rw e (elim (Bool-cases (advance_cycles l.location now cycles).1) [
        | inl t ↦ rw t (reset_current-Answered l (mark_dirty l') usage cycles h refl refl)
        | inr t ↦ rw t (reset_current-Answered l l' usage cycles h refl refl)
      ])

-- A manual reset of a key that has periods first rolls them forward to now. If it is done, the
-- window that it names starts anew at now, the answer has what each window used before and after,
-- and the ledger is not dirty; if it is refused, the key keeps the periods that are current. Either
-- way the key's days and balance and the other keys stay as they were.
pub reset_window-Answered :
    (persist : Persist) (id : String) (window : Window) (expected : Option ResetExpectation)
    (now : Time) (l : Ledger) (usage : KeyUsage) (cycles : Cycles)
    → get id l.entries ≡ some usage
    → usage.cycles ≡ some cycles
    → let r = reset_window persist id window expected now l in
      Answered id window now cycles l r.0 r.1 × Aside id l r.0
unfolding reset_window reset_entry
reset_window-Answered persist id window expected now l usage cycles h hc =
    rw h (
      rw h at
        (reset_usage-Answered persist id window expected now l usage usage.cycles cycles h hc))
