-- ===== src/Price/Snapshot.antt =====
-- `priceTable.snapshot` of internal/policy/price.go: the rows in the order of their lowered names,
-- then of their providers. `sort.Slice` leaves open how rows with both alike stand, which no table
-- holds.
use Prim.Native.Char.{Char}
use cpa_plugin_key_policy.Base.{Bool, List, [], ◌∷◌, string_eq, ◌==◌, if◌then◌else◌}
use cpa_plugin_key_policy.Text.{to_lower, before}
use cpa_plugin_key_policy.Money.{Floats}
use cpa_plugin_key_policy.Price.{ModelPrice, PriceTable}

module _ {fl : Floats} (lower : Char → Char) where
  -- the comparison that `snapshot` sorts by
  unfoldable pub row_before : ModelPrice fl → ModelPrice fl → Bool
  row_before a b =
      let left = to_lower lower a.name in
      let right = to_lower lower b.name in
      if left == right then before a.provider b.provider else before left right

  unfoldable insert_row : ModelPrice fl → List (ModelPrice fl) → List (ModelPrice fl)
  unfolding row_before
  insert_row row [] = row ∷ []
  insert_row row (other ∷ rows) =
      let rest = insert_row row rows in
      if row_before row other then row ∷ other ∷ rows else other ∷ rest

  unfoldable sort_rows : List (ModelPrice fl) → List (ModelPrice fl)
  unfolding insert_row
  sort_rows [] = []
  sort_rows (row ∷ rows) = insert_row row (sort_rows rows)

  -- `priceTable.snapshot`
  unfoldable pub price_snapshot : PriceTable fl → List (ModelPrice fl)
  unfolding sort_rows
  price_snapshot t = sort_rows t.rows
