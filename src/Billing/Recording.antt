-- ===== src/Billing/Recording.antt =====
-- What `RecordUsage` of internal/policy/billing.go books, and when it books nothing.
use cpa_plugin_key_policy.Base.{
  ◌≡◌, ◌≢◌, refl, true, false, not, ◌&&◌, ◌||◌, Option, some, [], ◌∷◌, ◌++◌, string_eq, nat_eq,
  ◌==◌, if◌then◌else◌, is_some, get_or, option_map, Bool-cases, Option-cases, if-false, inl, inr,
  arith,
}
use cpa_plugin_key_policy.Text.{to_lower}
use cpa_plugin_key_policy.Int64.{Int64, add64}
use cpa_plugin_key_policy.Calendar.{Time}
use cpa_plugin_key_policy.Bucket.{Bucket}
use cpa_plugin_key_policy.Ledger.{record_call}
use cpa_plugin_key_policy.MediaTrace.{take}
use cpa_plugin_key_policy.Tokens.{sanitize_detail, token_semantics_for}
use cpa_plugin_key_policy.Money.{Floats, usd_to_nano}
use cpa_plugin_key_policy.Price.{ModelPrice, lookup_price}
use cpa_plugin_key_policy.Charging.{bill_tokens}
use cpa_plugin_key_policy.Store.{
  Library, KeyConfig, Health, Store, usage_entry, balance_mode, journal,
}
use cpa_plugin_key_policy.Billing.{
  UsageEvent, UsageResult, recorded, model_of, bills_nothing, unlisted, one_call, book,
  record_per_call, record_tokens, row_priced, record_priced, record_for, key_of, record_found,
  record_usage,
}

module _ (fl : Floats) (lib : Library) (event : UsageEvent) where
  -- the row that prices the record, and the row that charges it
  abbrev found_row : Store fl → Option (ModelPrice fl)
  found_row s = lookup_price fl lib.lower s.prices event.provider (model_of event)

  -- the charge of the record by its row, or by no row
  unfoldable pub charge_of : Store fl → Int64
  charge_of s =
      let price = get_or (found_row s) (unlisted fl) in
      if price.billing_mode == "per_call"
      then usd_to_nano fl price.per_call_usd
      else (bill_tokens fl price (token_semantics_for lib.lower event.provider event.executor_type)
          (sanitize_detail event.detail).detail).charged_nano

  -- a booking of the record for a key
  pub record IsBooked (key : KeyConfig fl) (now : Time) (s s' : Store fl) (bucket : Bucket)
      : Type 0 where
    pub usage :
        s'.usage
        ≡ record_call key.id
            (to_lower lib.lower (model_of event))
            bucket
            (balance_mode key)
            now
            s.usage
    pub handoff :
        s'.handoff
        ≡ option_map
            (λ entries.
              entries
              ++ (usage_entry key.id
                    (to_lower lib.lower (model_of event))
                    bucket
                    (balance_mode key)
                    now
                  ∷ []))
            s.handoff
    pub one_call : bucket.calls ≡ 1
    pub charge : bucket.charged_nano ≡ charge_of s
    pub unpriced : bucket.unpriced_calls ≡ (if row_priced fl (found_row s) then 0 else 1)

  pub record Booking (key : KeyConfig fl) (now : Time) (s s' : Store fl) : Type 0 where
    pub bucket : Bucket
    pub booked : IsBooked key now s s' bucket

  -- what a result says of the store: a record that is not booked charges nobody
  abbrev pub Outcome : KeyConfig fl → Time → Store fl → Store fl → UsageResult → Type 0
  Outcome key now s s' recorded = Booking key now s s'
  Outcome key now s s' _ = (s'.usage ≡ s.usage) × (s'.handoff ≡ s.handoff)

  module _ (key : KeyConfig fl) (now : Time) where
    book-IsBooked :
        (s s' : Store fl) (bucket : Bucket)
        → s'.usage ≡ s.usage
        → s'.handoff ≡ s.handoff
        → bucket.calls ≡ 1
        → bucket.unpriced_calls ≡ 0
        → bucket.charged_nano ≡ charge_of s
        → Booking key now s
            (book fl
              (to_lower lib.lower (model_of event))
              key
              (row_priced fl (found_row s))
              bucket
              now
              s').0
    unfolding book journal
    book-IsBooked s s' bucket hu hh hc hp hn = elim (Bool-cases (row_priced fl (found_row s))) [
      | inl t ↦ rw t (record {
        bucket = bucket;
        booked = record {
          usage = rw hu refl;
          handoff = rw hh refl;
          one_call = hc;
          charge = hn;
          unpriced = rw t hp;
        };
      })
      | inr t ↦ rw t (record {
        bucket = record bucket { unpriced_calls = 1 };
        booked = record {
          usage = rw hu refl;
          handoff = rw hh refl;
          one_call = hc;
          charge = hn;
          unpriced = rw t refl;
        };
      })
    ]

    module _ (s : Store fl) (health : Health) where
      abbrev s' : Store fl
      s' = record s { health = health }

      abbrev price_here : ModelPrice fl
      price_here = get_or (found_row s) (unlisted fl)

      record_per_call-Outcome :
          (price_here.billing_mode == "per_call") ≡ true
          → let r =
              record_per_call fl event
                (to_lower lib.lower (model_of event))
                key
                price_here
                (row_priced fl (found_row s))
                now
                s' in
            Outcome key now s r.0 r.1
      unfolding record_per_call charge_of
      record_per_call-Outcome mode =
          let (traces, taken) = take event.trace_id now s'.media_traces in
          let s'' : Store fl = record s' { media_traces = traces } in
          elim (Bool-cases (event.trace_id == "")) [
            | inl t ↦ rw t (refl, refl)
            | inr t ↦ elim (Bool-cases taken) [
              | inl k ↦
                  rw (t, k)
                    (book-IsBooked s s'' (one_call fl price_here) refl refl refl refl
                      (rw mode refl))
              | inr k ↦ rw (t, k) (refl, refl)
            ]
          ]

      record_tokens-Outcome :
          (price_here.billing_mode == "per_call") ≡ false
          → let r =
              record_tokens fl lib event
                (sanitize_detail event.detail).detail
                (to_lower lib.lower (model_of event))
                key
                price_here
                (row_priced fl (found_row s))
                now
                s' in
            Outcome key now s r.0 r.1
      unfolding record_tokens charge_of bill_tokens
      record_tokens-Outcome mode =
          let bucket =
            bill_tokens fl price_here
              (token_semantics_for lib.lower event.provider event.executor_type)
              (sanitize_detail event.detail).detail in
          elim (Bool-cases (row_priced fl (found_row s) && bills_nothing bucket)) [
            | inl t ↦ rw t (refl, refl)
            | inr t ↦ rw t (book-IsBooked s s' bucket refl refl refl refl (rw mode refl))
          ]

      record_priced-Outcome :
          let r =
            record_priced fl lib event
              (sanitize_detail event.detail).detail
              (model_of event)
              key
              now
              s' in
          Outcome key now s r.0 r.1
      unfolding record_priced
      record_priced-Outcome = elim (Bool-cases (price_here.billing_mode == "per_call")) [
        | inl t ↦ rw t (record_per_call-Outcome t)
        | inr t ↦ rw t (record_tokens-Outcome t)
      ]

    record_for-Outcome :
        (s : Store fl) → let r = record_for fl lib event key now s in Outcome key now s r.0 r.1
    unfolding record_for
    record_for-Outcome s =
        let d = sanitize_detail event.detail in
        elim (Bool-cases (model_of event == "")) [
          | inl t ↦ rw t (refl, refl)
          | inr t ↦ elim (Bool-cases d.invalid) [
            | inl i ↦ rw (t, i) (refl, refl)
            | inr i ↦ elim (Bool-cases d.clamped) [
              | inl c ↦
                  rw (t, i, c)
                    (record_priced-Outcome s
                      (record s.health { clamped_tokens = add64 s.health.clamped_tokens 1 }))
              | inr c ↦ rw (t, i, c) (record_priced-Outcome s s.health)
            ]
          ]
        ]

-- On an enabled store, a usage record of a call that did not fail, of a key that the store knows,
-- is either booked or leaves the ledger and the journal as they were. A booked record is one call,
-- counted as unpriced where no priced row matches it; it charges what the matching row asks, for
-- one call or for its tokens; and where a handoff keeps a journal, the journal gets the same entry
-- as the ledger.
pub record_usage-Outcome :
    (fl : Floats) (lib : Library) (event : UsageEvent) (key : KeyConfig fl) (now : Time)
    (s : Store fl)
    → s.enabled ≡ true
    → event.failed ≡ false
    → key_of fl lib event s ≡ some key
    → let r = record_usage fl lib event now s in Outcome fl lib event key now s r.0 r.1
unfolding record_usage record_found
record_usage-Outcome fl lib event key now s on ok known =
    let on' : not s.enabled ≡ false = rw on refl in
    rw (if-false (not s.enabled) _ _ on', if-false event.failed _ _ ok, known)
      (record_for-Outcome fl lib event key now s)

-- A record is not booked when the store is disabled, when its call failed, or when no key has its
-- id or secret: the ledger, the journal and the traces stay as they were.
pub record_usage-free :
    (fl : Floats) (lib : Library) (event : UsageEvent) (now : Time) (s : Store fl)
    → not s.enabled || event.failed || not (is_some (key_of fl lib event s)) ≡ true
    → let r = record_usage fl lib event now s in
      (r.1 ≢ recorded)
      × (r.0.usage ≡ s.usage)
      × (r.0.handoff ≡ s.handoff)
      × (r.0.media_traces ≡ s.media_traces)
unfolding record_usage record_found
record_usage-free fl lib event now s h = elim (Bool-cases s.enabled) [
  | inl on ↦
      let on' : not s.enabled ≡ false = rw on refl in
      rw (if-false (not s.enabled) _ _ on') (elim (Bool-cases event.failed) [
        | inl t ↦ rw t (λ e. cc, refl, refl, refl)
        | inr t ↦ rw (if-false event.failed _ _ t) (elim (Option-cases (key_of fl lib event s)) [
          | inl k ↦ rw k (λ e. cc, refl, refl, refl)
          | inr (key, k) ↦ absurd (ground (arith, h, on, t, k))
        ])
      ])
  | inr off ↦ rw off (λ e. cc, refl, refl, refl)
]
