-- ===== src/Ledger/Staleness.antt =====
-- The history file and retention: when the ledger takes the file to be in step
-- (`historyStale` of internal/policy/ledger.go), no pass has dropped a day that the file holds.
use cpa_plugin_key_policy.Base.{
  ◌<◌, ◌≤◌, ◌≡◌, refl, sym, ◌∙◌, inl, inr, Bool, true, false, ◌&&◌, ◌||◌, Option, none, some,
  String, string_eq, nat_eq, ◌==◌, arith, ltb, leb, ltb→lt, get_or, Bool-cases, Option-cases,
  if◌then◌else◌,
}
use cpa_plugin_key_policy.Dict.{get, exists, exists-false}
use cpa_plugin_key_policy.Calendar.{Time, Date, date_key}
use cpa_plugin_key_policy.Ledger.{
  Ledger, KeyUsage, Models, no_usage, mark_dirty, evict_older, oldest_kept, evict_expired,
}
use cpa_plugin_key_policy.Ledger.Views.{usage_of}
use cpa_plugin_key_policy.Ledger.Eviction.{get-evict_older, Evicted-guard}

history_stale-mark_dirty_if :
    (changed : Bool) (l : Ledger)
    → (if changed then mark_dirty l else l).history_stale ≡ l.history_stale
unfolding mark_dirty
history_stale-mark_dirty_if true l = refl
history_stale-mark_dirty_if false l = refl

or_false : (a b : Bool) → (a || b) ≡ false → (a ≡ false) × (b ≡ false)
or_false a b h = ground arith

abbrev drops : Date → Ledger → KeyUsage → Bool
drops oldest l usage =
    exists (λ date (_ : Models). ltb date oldest && leb date l.history_through) usage.days

no_older_day :
    (oldest : Date) (l : Ledger) (date : Date) (o : Option KeyUsage)
    → ((u : KeyUsage) → o ≡ some u → drops oldest l u ≡ false)
    → date < oldest
    → date ≤ l.history_through
    → get date (get_or o no_usage).days ≡ none
unfolding get
no_older_day oldest l date none h old closed = refl
no_older_day oldest l date (some u) h old closed = elim (Option-cases (get date u.days)) [
  | inl e ↦ e
  | inr (models, e) ↦
      let f =
        exists-false (λ (d : Date) (_ : Models). ltb d oldest && leb d l.history_through) date
          models u.days (h u refl) e in
      absurd (ground (arith, f))
]

-- Where a pass leaves the history file in step, no day was dropped that the file holds.
stale_parts :
    (oldest : Date) (l : Ledger) (id : String) (date : Date)
    → (evict_older oldest l).0.history_stale ≡ false
    → date < oldest
    → date ≤ l.history_through
    → (l.history_stale ≡ false) × (get date (usage_of id l).days ≡ none)
unfolding evict_older
stale_parts oldest l id date fresh old closed =
    let f = rw history_stale-mark_dirty_if at fresh in
    let (a, b) = or_false _ _ f in
    (
      a,
      no_older_day oldest l date (get id l.entries)
          (λ u e. exists-false (λ (_ : String) (v : KeyUsage). drops oldest l v) id u l.entries b e)
          old closed,
    )

stale_before :
    (oldest : Date) (l : Ledger)
    → (evict_older oldest l).0.history_stale ≡ false
    → l.history_stale ≡ false
unfolding evict_older
stale_before oldest l fresh = let f = rw history_stale-mark_dirty_if at fresh in (or_false _ _ f).0

-- A pass that leaves the history file in step found it in step and kept every day it holds.
pub evict_expired-fresh :
    (now : Time) (l : Ledger)
    → (evict_expired now l).0.history_stale ≡ false
    → (l.history_stale ≡ false)
      × ((id : String) (date : Date)
          → date ≤ l.history_through
          → get date (usage_of id (evict_expired now l).0).days ≡ get date (usage_of id l).days)
unfolding evict_expired
evict_expired-fresh now l fresh =
    elim (Bool-cases (date_key l.location now == l.last_evicted_date)) [
      | inl h ↦ (rw h at fresh, λ id date le. rw h)
      | inr h ↦
          let oldest = oldest_kept l now in
          let l' : Ledger = record l { last_evicted_date = date_key l.location now } in
          let fresh' : (evict_older oldest l').0.history_stale ≡ false = rw h at fresh in
          (
            stale_before oldest l' fresh',
            λ id date le.
                rw (h, get-evict_older)
                  ((Evicted-guard oldest (get id l.entries)).days date
                    ∙ elim (Bool-cases (ltb date oldest)) [
                      | inl old ↦
                          rw old (
                            sym
                              (stale_parts oldest l' id date fresh' (ltb→lt date oldest old) le).1)
                      | inr recent ↦ rw recent
                    ]),
          )
    ]
