-- ===== src/Ledger/Eviction.antt =====
-- Retention: `evictExpiredLocked` of internal/policy/ledger.go forgets the days older than the
-- window and nothing else that a reader finds.
use cpa_plugin_key_policy.Base.{
  ◌+◌, ◌-◌, ◌≤◌, ◌≡◌, refl, sym, ◌⊎◌, inl, inr, Bool, true, false, not, Option, none, some, String,
  string_eq, nat_eq, ◌==◌, arith, ltb, get_or, guard, option_map, length, is_some, Bool-cases,
  if◌then◌else◌,
}
use cpa_plugin_key_policy.Dict.{get, get-keep, get_of_empty, get-map_values}
use cpa_plugin_key_policy.Calendar.{
  Time, Date, IsCalendar, date_key, date_key_back, day_start_back, day_begin, day_begin_iff,
}
use cpa_plugin_key_policy.Ledger.{
  Ledger, KeyUsage, Models, no_usage, mark_dirty, evict_days, spent, evict_older, oldest_kept,
  evict_expired,
}
use cpa_plugin_key_policy.Ledger.Views.{usage_of}

entries-mark_dirty_if :
    (changed : Bool) (l : Ledger) → (if changed then mark_dirty l else l).entries ≡ l.entries
unfolding mark_dirty
entries-mark_dirty_if true l = refl
entries-mark_dirty_if false l = refl

pub get-evict_older :
    (oldest : Date) (l : Ledger) (id : String)
    → get id (evict_older oldest l).0.entries
      ≡ guard (λ usage. not (spent usage)) (option_map (evict_days oldest) (get id l.entries))
unfolding evict_older
get-evict_older oldest l id = rw (entries-mark_dirty_if, get-keep, get-map_values)

spent_parts :
    (usage : KeyUsage) → spent usage ≡ true → (usage.cycles ≡ none) × (length usage.days ≡ 0)
unfolding spent
spent_parts usage h = ground arith

-- What a reader finds of a key after its older days are gone.
pub record Evicted (oldest : Date) (before after : KeyUsage) : Type 0 where
  pub cycles : after.cycles ≡ before.cycles
  pub balance : is_some before.cycles ≡ true → after.balance ≡ before.balance
  pub days :
      (date : Date) → get date after.days ≡ (if ltb date oldest then none else get date before.days)

pub Evicted-guard :
    (oldest : Date) (o : Option KeyUsage)
    → Evicted oldest
        (get_or o no_usage)
        (get_or (guard (λ usage. not (spent usage)) (option_map (evict_days oldest) o)) no_usage)
unfolding evict_days get
Evicted-guard oldest none = record {
  cycles = refl;
  balance = λ _. refl;
  days = λ date. ground arith;
}
Evicted-guard oldest (some u) = elim (Bool-cases (spent (evict_days oldest u))) [
  | inl h ↦
      let (no_cycles, no_days) = spent_parts (evict_days oldest u) h in
      rw h (record {
        cycles = sym no_cycles;
        balance = λ some_cycles. cc;
        days = λ date. ground (
          arith,
          get_of_empty date (evict_days oldest u).days no_days,
          get-keep (λ (d : Date) (_ : Models). not (ltb d oldest)) date u.days,
        );
      })
  | inr h ↦ rw h (record {
    cycles = refl;
    balance = λ _. refl;
    days = λ date.
        ground (arith, get-keep (λ (d : Date) (_ : Models). not (ltb d oldest)) date u.days);
  })
]

-- A pass at `now` is either skipped or drops exactly the days before `oldest_kept`.
pub Evicted-evict_expired :
    (l : Ledger) (now : Time) (id : String)
    → ((evict_expired now l).0 ≡ l)
      ⊎ Evicted (oldest_kept l now) (usage_of id l) (usage_of id (evict_expired now l).0)
unfolding evict_expired
Evicted-evict_expired l now id =
    elim (Bool-cases (date_key l.location now == l.last_evicted_date)) [
      | inl h ↦ inl (rw h)
      | inr h ↦ inr (rw (h, get-evict_older) (Evicted-guard (oldest_kept l now) (get id l.entries)))
    ]

-- What a pass of any outcome leaves of a key: its periods, the balance of a key that has periods,
-- and every day inside retention.
pub record Kept (oldest : Date) (before after : KeyUsage) : Type 0 where
  pub cycles : after.cycles ≡ before.cycles
  pub balance : is_some before.cycles ≡ true → after.balance ≡ before.balance
  pub days : (date : Date) → oldest ≤ date → get date after.days ≡ get date before.days

Kept-of_Evicted : {oldest : Date} {u v : KeyUsage} → Evicted oldest u v → Kept oldest u v
Kept-of_Evicted e = record {
  cycles = e.cycles;
  balance = e.balance;
  days = λ date h. ground (arith, e.days date);
}

-- Whatever its outcome, a retention pass at an instant keeps the periods of every key, the balance
-- of a key that has periods, and every day from the first day of retention on.
pub evict_expired-Kept :
    (l : Ledger) (now : Time) (id : String)
    → Kept (oldest_kept l now) (usage_of id l) (usage_of id (evict_expired now l).0)
evict_expired-Kept l now id = elim (Evicted-evict_expired l now id) [
  | inl same ↦ rw same (record { cycles = refl; balance = λ _. refl; days = λ _ _. refl })
  | inr e ↦ Kept-of_Evicted e
]

-- The first day kept is not later than today.
pub oldest_kept-le :
    (l : Ledger) (now : Time) → IsCalendar l.location → oldest_kept l now ≤ l.location.civil now
unfolding oldest_kept date_key_back day_start_back
oldest_kept-le l now cal =
    let d = l.location.civil now in
    ground (
      arith,
      day_begin_iff cal (d - 89) now,
      day_begin_iff cal (d + 1) (day_begin l.location (d - 89)),
      day_begin_iff cal (d + 1) now,
    )

marks-mark_dirty_if :
    (changed : Bool) (l : Ledger)
    → let l' = if changed then mark_dirty l else l in
      (l'.history_through ≡ l.history_through) × (l'.closed_through ≡ l.closed_through)
unfolding mark_dirty
marks-mark_dirty_if true l = (refl, refl)
marks-mark_dirty_if false l = (refl, refl)

-- A retention pass moves no watermark.
pub evict_expired_marks :
    (now : Time) (l : Ledger)
    → let l' = (evict_expired now l).0 in
      (l'.history_through ≡ l.history_through) × (l'.closed_through ≡ l.closed_through)
unfolding evict_expired evict_older
evict_expired_marks now l = elim (Bool-cases (date_key l.location now == l.last_evicted_date)) [
  | inl h ↦ rw h (refl, refl)
  | inr h ↦ rw h (marks-mark_dirty_if _ _)
]
