-- ===== src/Price/Lookup.antt =====
-- What `normalizeModelPrices` accepts and what a lookup in its table finds: internal/policy/price.go.
use Prim.Native.Char.{Char}
use cpa_plugin_key_policy.Base.{
  ◌≡◌, ◌≢◌, refl, ◌∙◌, inl, inr, none, some, List, [], ◌∷◌, ◌++◌, string_eq, ◌==◌, arith, All,
  All-append, Bool-cases, Option-cases,
}
use cpa_plugin_key_policy.Dict.{get, put, get-put, get-put_self, get-put_ne}
use cpa_plugin_key_policy.Text.{trim_space}
use cpa_plugin_key_policy.Money.{Floats}
use cpa_plugin_key_policy.Price.{
  PriceKey, price_key, ModelPrice, PriceError, normalize_provider, RowResult, row, bad_row,
  check_row, PriceTable, TableResult, table, bad_table, add_row, normalize_row, normalize_rows,
  normalize_model_prices,
}
use cpa_plugin_key_policy.Price.Rows.{IsPriced, Accepted, check_row_lem}

module _ (fl : Floats) where
  -- What a table that `normalizeModelPrices` builds has of every row: the row is found under its own
  -- name and provider, and its prices are within their bounds.
  pub record IsListed (lower : Char → Char) (t : PriceTable fl) (r : ModelPrice fl) : Type 0 where
    pub found : get (price_key lower r.name r.provider) t.index ≡ some r
    pub prices : IsPriced fl r

  -- And of its index: what is found under a key has that key.
  abbrev IsKeyed : (Char → Char) → PriceTable fl → Type 0
  IsKeyed lower t =
      (k : PriceKey) (r : ModelPrice fl)
      → get k t.index ≡ some r
      → price_key lower r.name r.provider ≡ k

  pub record IsTable (lower : Char → Char) (t : PriceTable fl) : Type 0 where
    pub listed : All (IsListed lower t) t.rows
    pub keyed : IsKeyed lower t

  module _ (lower : Char → Char) where
    IsListed-put :
        (t : PriceTable fl) (k : PriceKey) (r : ModelPrice fl) (rows rest : List (ModelPrice fl))
        → get k t.index ≡ none
        → All (IsListed lower t) rows
        → All (IsListed lower (record { rows = rest; index = put k r t.index })) rows
    IsListed-put t k r [] rest new h = tt
    IsListed-put t k r (q ∷ rows) rest new (h, hs) =
        let ne : k ≢ price_key lower q.name q.provider = λ e. cc (h.found) in
        (
          record {
            found = get-put_ne k (price_key lower q.name q.provider) r t.index ne ∙ h.found;
            prices = h.prices;
          },
          IsListed-put t k r rows rest new hs,
        )

    key_of_Accepted :
        (raw r : ModelPrice fl)
        → Accepted fl raw r
        → price_key lower r.name r.provider ≡ price_key lower raw.name raw.provider
    key_of_Accepted raw r a = rw (a.name, a.provider)

    put-IsTable :
        (k : PriceKey) (r : ModelPrice fl) (t : PriceTable fl)
        → get k t.index ≡ none
        → price_key lower r.name r.provider ≡ k
        → IsPriced fl r
        → IsTable lower t
        → IsTable lower (record { rows = t.rows ++ r ∷ []; index = put k r t.index })
    put-IsTable k r t new key p h =
        let u : PriceTable fl = record { rows = t.rows ++ r ∷ []; index = put k r t.index } in
        record {
          listed =
              All-append (IsListed lower u) t.rows (r ∷ [])
                (IsListed-put t k r t.rows (t.rows ++ r ∷ []) new h.listed)
                (record { found = rw key (get-put_self k r t.index); prices = p }, tt);
          keyed = λ j q e. elim (Bool-cases (k == j)) [
            | inl same ↦
                let is : k ≡ j = (string_eq.same_iff k j).0 same in
                let stored : some r ≡ some q = rw (get-put, same) at e in
                let q_eq : r ≡ q = cc in rw (← q_eq) (key ∙ is)
            | inr other ↦ h.keyed j q (rw (get-put, other) at e)
          ];
        }

    add_row-IsTable :
        (k : PriceKey) (raw : ModelPrice fl) (t u : PriceTable fl) (result : RowResult fl)
        → check_row fl lower raw ≡ result
        → get k t.index ≡ none
        → price_key lower raw.name raw.provider ≡ k
        → IsTable lower t
        → add_row fl k result t ≡ table u
        → IsTable lower u
    unfolding add_row
    add_row-IsTable k raw t u (bad_row x) c new key h e = cc
    add_row-IsTable k raw t u (row r) c new key h e =
        let a = check_row_lem fl lower raw r c in
        let is : record { rows = t.rows ++ r ∷ []; index = put k r t.index } ≡ u = cc in
        rw (← is) (put-IsTable k r t new (key_of_Accepted raw r a ∙ key) a.prices h)

    normalize_row-IsTable :
        (raw : ModelPrice fl) (t u : PriceTable fl)
        → IsTable lower t
        → normalize_row fl lower raw t ≡ table u
        → IsTable lower u
    unfolding normalize_row
    normalize_row-IsTable raw t u h e =
        let name = trim_space raw.name in
        let provider = normalize_provider lower raw.provider in
        let key = price_key lower name provider in
        let raw' : ModelPrice fl = record raw { name = name; provider = provider } in
        elim (Bool-cases (name == "")) [
          | inl empty ↦ absurd (ground (arith, empty))
          | inr named ↦ elim (Option-cases (get key t.index)) [
            | inr (q, old) ↦ absurd (ground (arith, named, old))
            | inl new ↦
                add_row-IsTable key raw' t u (check_row fl lower raw') refl new refl h
                  (rw (named, new) at e)
          ]
        ]

    normalize_rows-failed :
        (rows : List (ModelPrice fl)) (x : PriceError)
        → normalize_rows fl lower rows (bad_table x) ≡ bad_table x
    unfolding normalize_rows
    normalize_rows-failed [] x = refl
    normalize_rows-failed (r ∷ rows) x = refl

    normalize_rows-IsTable :
        (rows : List (ModelPrice fl)) (t u : PriceTable fl)
        → IsTable lower t
        → normalize_rows fl lower rows (table t) ≡ table u
        → IsTable lower u
    unfolding normalize_rows
    normalize_rows-IsTable [] t u h e = let is : t ≡ u = cc in rw (← is) h
    normalize_rows-IsTable (raw ∷ rows) t u h e =
        go (normalize_row fl lower raw t) (λ v q. normalize_row-IsTable raw t v h q)
          (λ v. normalize_rows-IsTable rows v u) e
      where
        go :
            (result : TableResult fl)
            → ((v : PriceTable fl) → result ≡ table v → IsTable lower v)
            → ((v : PriceTable fl)
                → IsTable lower v
                → normalize_rows fl lower rows (table v) ≡ table u
                → IsTable lower u)
            → normalize_rows fl lower rows result ≡ table u
            → IsTable lower u
        go (bad_table x) keeps rest q = absurd (cc (normalize_rows-failed rows x))
        go (table v) keeps rest q = rest v (keeps v refl) q

    -- In every table that the checks of price rows build, each row is found under the key of its
    -- own name and provider, so no two rows share a key; its prices and multiplier are within their
    -- bounds; and a row found under a key has that key.
    pub normalize_model_prices-IsTable :
        (rows : List (ModelPrice fl)) (t : PriceTable fl)
        → normalize_model_prices fl lower rows ≡ table t
        → IsTable lower t
    unfolding normalize_model_prices get
    normalize_model_prices-IsTable rows t e =
        normalize_rows-IsTable rows (record { rows = []; index = [] }) t
          (record { listed = tt; keyed = λ k r q. cc }) e
