-- ===== src/Persistence/Meanwhile.antt =====
-- Records that come between the plan of a flush and its end, where the lock of the ledger is free
-- (`FlushUsage` of internal/policy/store.go), and what they leave of the ledger.
use cpa_plugin_key_policy.Base.{
  ◌<◌, ◌≤◌, ◌≡◌, ◌≢◌, refl, sym, ◌∙◌, inl, inr, Bool, true, false, Bool-cases, Option, Option-cases,
  none, some, List, [], ◌∷◌, String, nat_eq, string_eq, ◌==◌, arith, guard, All,
}
use cpa_plugin_key_policy.Dict.{get, put, get-put_self, get-put_ne}
use cpa_plugin_key_policy.Calendar.{Time, Date, Location, date_key}
use cpa_plugin_key_policy.Bucket.{Bucket}
use cpa_plugin_key_policy.Ledger.{Ledger, Models, mark_dirty, evict_expired, open_date, record_call}
use cpa_plugin_key_policy.Ledger.Views.{usage_of}
use cpa_plugin_key_policy.Ledger.Recording.{booked, days-booked_ne, closed_through-lt-open_date}
use cpa_plugin_key_policy.Ledger.Flush.{closed_day, FlushPlan, mark_history}
use cpa_plugin_key_policy.Persistence.{HistoryFile}
use cpa_plugin_key_policy.Persistence.Flushing.{InSync}

closed_view :
    (through date : Date) (a b : Option Models)
    → (date ≤ through → a ≡ b)
    → guard (closed_day through date) a ≡ guard (closed_day through date) b
closed_view through date none none h = refl
closed_view through date none (some b) h = ground (arith, h)
closed_view through date (some a) none h = ground (arith, h)
closed_view through date (some a) (some b) h = ground (arith, h)

module _ {dataset_id : String} where
  -- a change of the ledger that keeps the watermarks and what the history file holds
  pub InSync-transfer :
      (l l' : Ledger) (file : Option HistoryFile)
      → (l'.history_through ≡ l.history_through) × (l'.closed_through ≡ l.closed_through)
      → (l'.history_stale ≡ false
          → (l.history_stale ≡ false)
            × ((id : String) (date : Date)
                → date ≤ l.history_through
                → get date (usage_of id l').days ≡ get date (usage_of id l).days))
      → InSync dataset_id l file
      → InSync dataset_id l' file
  InSync-transfer l l' file (t, c) same s = record {
    named = s.named;
    reaches = s.reaches ∙ sym t;
    closed = omega (arith, s.closed);
    holds = λ fresh.
        let (before, views) = same fresh in
        λ id date. rw t (
          s.holds before id date
          ∙ closed_view l.history_through date _ _ (λ le. sym (views id date le)));
  }

-- the arguments of `record`
pub record Call : Type 0 where
  pub id : String
  pub model : String
  pub delta : Bucket
  pub deduct : Bool
  pub at : Time

-- calls recorded one after another
abbrev pub record_calls : List Call → Ledger → Ledger
record_calls [] l = l
record_calls (c ∷ calls) l = record_calls calls (record_call c.id c.model c.delta c.deduct c.at l)

-- A call on a date, at an instant whose local date is known.
abbrev pub IsOn : Location → Date → Call → Type 0
IsOn loc date c = (date_key loc c.at ≡ date) × (0 < loc.civil c.at)

-- What is left of a ledger that something is recorded in on the date of its last retention pass.
pub record Kept (l m : Ledger) : Type 0 where
  pub history : m.history_through ≡ l.history_through
  pub closed : m.closed_through ≡ l.closed_through
  pub stale : m.history_stale ≡ l.history_stale
  pub location : m.location ≡ l.location
  pub evicted : m.last_evicted_date ≡ l.last_evicted_date
  pub days :
      (id : String) (date : Date)
      → date ≤ l.closed_through
      → get date (usage_of id m).days ≡ get date (usage_of id l).days

evict_expired-same :
    (now : Time) (l : Ledger)
    → date_key l.location now ≡ l.last_evicted_date
    → (evict_expired now l).0 ≡ l
unfolding evict_expired
evict_expired-same now l h =
    rw ((nat_eq.same_iff (date_key l.location now) l.last_evicted_date).1 h) refl

record_call-Kept :
    (c : Call) (l : Ledger)
    → IsOn l.location l.last_evicted_date c
    → Kept l (record_call c.id c.model c.delta c.deduct c.at l)
unfolding record_call mark_dirty booked
record_call-Kept c l (today, known) =
    let entry = booked c.id c.model c.delta c.deduct c.at l in
    let l' : Ledger = record l { entries = put c.id entry l.entries } in
    rw (evict_expired-same c.at l' today) record {
      history = refl;
      closed = refl;
      stale = refl;
      location = refl;
      evicted = refl;
      days = λ j date le. elim (Bool-cases (c.id == j)) [
        | inl is ↦
            let e : c.id ≡ j = (string_eq.same_iff c.id j).0 is in
            let open_ne : open_date c.at l ≢ date =
              λ q. omega (arith, closed_through-lt-open_date l c.at known) in
            rw (← e, get-put_self)
              (days-booked_ne c.id c.model c.delta c.deduct c.at l date open_ne)
        | inr other ↦
            let ne : c.id ≢ j = λ e. cc ((string_eq.same_iff c.id j).1 e) in
            rw (get-put_ne c.id j entry l.entries ne) refl
      ];
    }

Kept-refl : (l : Ledger) → Kept l l
Kept-refl l = record {
  history = refl;
  closed = refl;
  stale = refl;
  location = refl;
  evicted = refl;
  days = λ id date le. refl;
}

Kept-trans : {l m n : Ledger} → Kept l m → Kept m n → Kept l n
Kept-trans h k = record {
  history = k.history ∙ h.history;
  closed = k.closed ∙ h.closed;
  stale = k.stale ∙ h.stale;
  location = k.location ∙ h.location;
  evicted = k.evicted ∙ h.evicted;
  days = λ id date le. k.days id date (omega (arith, h.closed)) ∙ h.days id date le;
}

-- Calls on the date of the last retention pass keep the closed days.
pub record_calls-Kept :
    (calls : List Call) (l : Ledger)
    → All (IsOn l.location l.last_evicted_date) calls
    → Kept l (record_calls calls l)
record_calls-Kept [] l h = Kept-refl l
record_calls-Kept (c ∷ calls) l (h, hs) =
    let k = record_call-Kept c l h in
    Kept-trans k (record_calls-Kept calls _ (rw (k.location, k.evicted) hs))

module _ {dataset_id : String} (l m : Ledger) (file : Option HistoryFile) (k : Kept l m) where
  -- A history file that is in step with a flushed ledger is in step with one that was recorded in
  -- meanwhile.
  pub mark_history-Kept :
      (plan : FlushPlan) (written : Bool)
      → InSync dataset_id (mark_history plan written l) file
      → InSync dataset_id (mark_history plan written m) file
  unfolding mark_history
  mark_history-Kept plan true s =
      InSync-transfer _ _ file (refl, k.closed)
        (λ fresh. (sym k.stale ∙ fresh, λ id date le. k.days id date (omega (arith, s.closed)))) s
  mark_history-Kept plan false s = elim (Option-cases plan.history) [
    | inl none_planned ↦ rw none_planned (
        InSync-transfer l m file (k.history, k.closed)
          (λ fresh. (
            sym k.stale ∙ fresh,
            λ id date le. k.days id date (omega (arith, (rw none_planned at s).closed)),
          ))
          (rw none_planned at s))
    | inr (days, planned) ↦
        rw planned
          (InSync-transfer _ _ file (k.history, k.closed) (λ fresh. absurd (cc)) (rw planned at s))
  ]
