-- ===== src/Ledger/Recording.antt =====
-- What `record` of internal/policy/ledger.go books: the day, the three periods and the balance.
use cpa_plugin_key_policy.Base.{
  ℕ, ◌<◌, ◌≤◌, ◌≡◌, ◌≢◌, refl, ap, ◌∙◌, Bool, true, false, Option, none, some, [], String,
  string_eq, nat_eq, ◌==◌, beq_refl, arith, get_or, if◌then◌else◌, Bool-cases, inl, inr,
}
use cpa_plugin_key_policy.Dict.{get, put, get-put, get-put_self, get-put_ne}
use cpa_plugin_key_policy.Int64.{add64, sub64}
use cpa_plugin_key_policy.Calendar.{Time, Date, Location, IsCalendar, date_key, shift_date}
use cpa_plugin_key_policy.Bucket.{Bucket, add}
use cpa_plugin_key_policy.Cycle.{
  Window, daily, weekly, monthly, Cycles, cycle, used, advance_cycles,
}
use cpa_plugin_key_policy.Cycle.Usage.{used-sum, sum-add}
use cpa_plugin_key_policy.Balance.{Balance, empty_balance}
use cpa_plugin_key_policy.Ledger.{
  Ledger, KeyUsage, mark_dirty, oldest_kept, add_to, charge_cycle, charge_cycles, deduct_charge,
  charge_periods, book_day, open_date, record_call,
}
use cpa_plugin_key_policy.Ledger.Views.{usage_of, bucket_of}
use cpa_plugin_key_policy.Ledger.Eviction.{Kept, evict_expired-Kept, oldest_kept-le}

-- the entry that `record` leaves before its retention pass
unfoldable pub booked : String → String → Bucket → Bool → Time → Ledger → KeyUsage
booked id model delta deduct now l =
    let usage = usage_of id l in
    book_day (open_date now l) model delta
      (charge_periods l.location now model delta deduct usage.cycles usage)

-- The day that is open lies after the closed ones, and is not older than retention.
pub closed_through-lt-open_date :
    (l : Ledger) (now : Time) → 0 < l.location.civil now → l.closed_through < open_date now l
unfolding open_date shift_date date_key
closed_through-lt-open_date l now h = ground arith

oldest_kept-le-open_date :
    (l : Ledger) (now : Time)
    → IsCalendar l.location
    → 0 < l.location.civil now
    → oldest_kept l now ≤ open_date now l
unfolding open_date shift_date date_key
oldest_kept-le-open_date l now cal h = ground (arith, oldest_kept-le l now cal)

module _ (id model : String) (delta : Bucket) (deduct : Bool) (now : Time) (l : Ledger) where
  -- The retention pass after the booking is all that can change what was booked.
  record_call-Kept_self :
      Kept
        (oldest_kept l now)
        (booked id model delta deduct now l)
        (usage_of id (record_call id model delta deduct now l))
  unfolding record_call booked mark_dirty oldest_kept
  record_call-Kept_self = rw get-put_self at (
      evict_expired-Kept
        (record l { entries = put id (booked id model delta deduct now l) l.entries }) now id)

  record_call-Kept_ne :
      (j : String)
      → id ≢ j
      → Kept
          (oldest_kept l now)
          (usage_of j l)
          (usage_of j (record_call id model delta deduct now l))
  unfolding record_call booked mark_dirty oldest_kept
  record_call-Kept_ne j h =
      rw (get-put_ne id j (booked id model delta deduct now l) l.entries h) at (
        evict_expired-Kept
          (record l { entries = put id (booked id model delta deduct now l) l.entries }) now j)

days-charge_periods :
    (loc : Location) (now : Time) (model : String) (delta : Bucket) (deduct : Bool)
    (o : Option Cycles) (usage : KeyUsage)
    → (charge_periods loc now model delta deduct o usage).days ≡ usage.days
unfolding charge_periods
days-charge_periods loc now model delta deduct none usage = refl
days-charge_periods loc now model delta deduct (some c) usage = refl

days-book_day :
    (date d : Date) (model : String) (delta : Bucket) (usage : KeyUsage)
    → get d (book_day date model delta usage).days ≡ (
        if date == d
        then some (add_to model delta (get_or (get date usage.days) []))
        else get d usage.days)
unfolding book_day
days-book_day date d model delta usage = get-put date d _ usage.days

-- With zone data that is a calendar and a clock reading that has a local date, a record adds itself
-- to the bucket of its key and model on the open day.
pub bucket_of-record_call :
    (id model : String) (delta : Bucket) (deduct : Bool) (now : Time) (l : Ledger)
    → IsCalendar l.location
    → 0 < l.location.civil now
    → bucket_of id (open_date now l) model (record_call id model delta deduct now l)
      ≡ add (bucket_of id (open_date now l) model l) delta
unfolding booked add_to
bucket_of-record_call id model delta deduct now l cal h =
    let kept = record_call-Kept_self id model delta deduct now l in
    rw (
      kept.days (open_date now l) (oldest_kept-le-open_date l now cal h),
      days-book_day,
      beq_refl,
      days-charge_periods,
      get-put_self,
    )

-- what the booking does to another day of its key
pub days-booked_ne :
    (id model : String) (delta : Bucket) (deduct : Bool) (now : Time) (l : Ledger) (date : Date)
    → open_date now l ≢ date
    → get date (booked id model delta deduct now l).days ≡ get date (usage_of id l).days
unfolding booked
days-booked_ne id model delta deduct now l date h =
    let u = usage_of id l in
    ground (
      arith,
      days-book_day (open_date now l) date model delta
          (charge_periods l.location now model delta deduct u.cycles u),
      days-charge_periods l.location now model delta deduct u.cycles u,
    )

-- When the clock reading has a local date, a record changes no closed day inside retention, of
-- whichever key.
pub record_call-closed :
    (id model : String) (delta : Bucket) (deduct : Bool) (now : Time) (l : Ledger) (j : String)
    (date : Date)
    → 0 < l.location.civil now
    → date ≤ l.closed_through
    → oldest_kept l now ≤ date
    → get date (usage_of j (record_call id model delta deduct now l)).days
      ≡ get date (usage_of j l).days
record_call-closed id model delta deduct now l j date h closed kept = elim (Bool-cases (id == j)) [
  | inl same ↦
      let e : id ≡ j = (string_eq.same_iff id j).0 same in
      let k = record_call-Kept_self id model delta deduct now l in
      let open_ne : open_date now l ≢ date =
        λ q. omega (arith, closed_through-lt-open_date l now h) in
      rw (← e) (k.days date kept ∙ days-booked_ne id model delta deduct now l date open_ne)
  | inr other ↦
      let ne : id ≢ j = λ e. cc ((string_eq.same_iff id j).1 e) in
      let k = record_call-Kept_ne id model delta deduct now l j ne in k.days date kept
]

-- A record leaves the periods of every other key as they were, and every day of another key that is
-- inside retention.
pub record_call-other :
    (id model : String) (delta : Bucket) (deduct : Bool) (now : Time) (l : Ledger) (j : String)
    (date : Date)
    → id ≢ j
    → oldest_kept l now ≤ date
    → ((usage_of j (record_call id model delta deduct now l)).cycles ≡ (usage_of j l).cycles)
      × (get date (usage_of j (record_call id model delta deduct now l)).days
          ≡ get date (usage_of j l).days)
record_call-other id model delta deduct now l j date h recent =
    let k = record_call-Kept_ne id model delta deduct now l j h in (k.cycles, k.days date recent)

used-charge_cycle :
    (model : String) (delta : Bucket) (window : Window) (cycles : Cycles)
    → used (cycle window (charge_cycles model delta cycles))
      ≡ add64 (used (cycle window cycles)) delta.charged_nano
unfolding charge_cycles cycle add_to
used-charge_cycle model delta daily cycles =
    let c = cycles.daily_cycle in
    omega (arith, used-sum (charge_cycle model delta c), used-sum c, sum-add model delta c.by_model)
used-charge_cycle model delta weekly cycles =
    let c = cycles.weekly_cycle in
    omega (arith, used-sum (charge_cycle model delta c), used-sum c, sum-add model delta c.by_model)
used-charge_cycle model delta monthly cycles =
    let c = cycles.monthly_cycle in
    omega (arith, used-sum (charge_cycle model delta c), used-sum c, sum-add model delta c.by_model)

resets_at-charge_cycles :
    (model : String) (delta : Bucket) (window : Window) (cycles : Cycles)
    → (cycle window (charge_cycles model delta cycles)).resets_at ≡ (cycle window cycles).resets_at
unfolding charge_cycles cycle
resets_at-charge_cycles model delta daily cycles = refl
resets_at-charge_cycles model delta weekly cycles = refl
resets_at-charge_cycles model delta monthly cycles = refl

abbrev pub balance_nano : Option Balance → ℕ
balance_nano b = (get_or b empty_balance).nano

charged_balance :
    (charge : ℕ) (deduct : Bool) (b : Option Balance)
    → balance_nano (if deduct then deduct_charge charge b else b)
      ≡ (if deduct then sub64 (balance_nano b) charge else balance_nano b)
unfolding deduct_charge
charged_balance charge true b = refl
charged_balance charge false b = refl

module _ (id model : String) (delta : Bucket) (deduct : Bool) (now : Time) (l : Ledger)
    (cycles : Cycles) (opened : (usage_of id l).cycles ≡ some cycles) where
  -- A record of a key that has periods raises what each of the three has used, once they are rolled
  -- forward to now, by the record's charge in 64-bit arithmetic, and leaves the ends of the rolled
  -- periods as they are.
  pub record_call-used :
      (window : Window)
      → (after : Cycles) × ((usage_of id (record_call id model delta deduct now l)).cycles
          ≡ some after)
        × (used (cycle window after)
            ≡ add64
                (used (cycle window (advance_cycles l.location now cycles).0))
                delta.charged_nano)
        × ((cycle window after).resets_at
            ≡ (cycle window (advance_cycles l.location now cycles).0).resets_at)
  unfolding booked charge_periods book_day
  record_call-used window =
      let rolled = (advance_cycles l.location now cycles).0 in
      let k = record_call-Kept_self id model delta deduct now l in
      (
        charge_cycles model delta rolled,
        k.cycles ∙ rw opened,
        used-charge_cycle model delta window rolled,
        resets_at-charge_cycles model delta window rolled,
      )

  -- A record of a key that has periods takes its charge from the key's balance exactly when it is
  -- told to deduct, and else leaves the balance as it was.
  pub record_call-balance :
      balance_nano (usage_of id (record_call id model delta deduct now l)).balance ≡ (
        if deduct
        then sub64 (balance_nano (usage_of id l).balance) delta.charged_nano
        else balance_nano (usage_of id l).balance)
  unfolding booked charge_periods book_day deduct_charge
  record_call-balance =
      let k = record_call-Kept_self id model delta deduct now l in
      ap balance_nano (k.balance (rw opened))
      ∙ rw opened (charged_balance delta.charged_nano deduct (usage_of id l).balance)
