-- ===== src/Inventory/Race.antt =====
-- Two reservations of one product whose checks both come before their writes: `reserveStock` of the
-- repository reads the row, waits, and writes it in a second call.
use advanced_node.Common.{ℕ, String, ◌≡◌, ◌≢◌, Option, none, some}
use advanced_node.Exec.{Exec, pure, ◌>>=◌}
use advanced_node.Exec.Ensures.{Ensures}
use advanced_node.Inventory.Repository.{
  Inventory, InventoryTable, increment_reserved, find_by_product_id, reserve_found,
}
use advanced_node.Inventory.Bounds.{IsWithin}

abbrev pub Both : Type 0
Both = Option Inventory × Option Inventory

-- The steps of two calls of `reserve_stock`, the second look-up before the first write.
pub reserve_both : (t : InventoryTable) → String → ℕ → ℕ → Exec t.Db Both
unfolding find_by_product_id
reserve_both t k n m = do
  first ← find_by_product_id t k
  second ← find_by_product_id t k
  r ← reserve_found t k n first
  q ← reserve_found t k m second
  pure (r, q)

module _ (t : InventoryTable) where
  -- Both calls succeeded, their sum is reserved, and the bound is broken.
  abbrev pub Oversold : String → ℕ → Inventory → Both → t.Db → Type 0
  Oversold k total i r db' =
      (r.0 ≢ none)
      × (r.1 ≢ none)
      × (t.row db' k ≡ some (increment_reserved total i))
      × ¬ IsWithin t db'
