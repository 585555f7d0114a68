-- ===== src/Inventory/Total.antt =====
-- On a table whose calls fail only where the documentation says so, reserving always returns, and
-- rolling back never meets a missing row.
use advanced_node.Common.{String, ◌≡◌, Option, none, some}
use advanced_node.Exec.Ensures.{Ensures}
use advanced_node.Prisma.{IsHealthy}
use advanced_node.Inventory.Repository
use advanced_node.Inventory.Repository.{Inventory, InventoryTable, decrement_reserved}

module _ (t : InventoryTable) (healthy : IsHealthy t) where
  abbrev HasRow : t.Db → String → Type 0
  HasRow db k = (i : Inventory) × (t.row db k ≡ some i)

  -- Every row stays.
  abbrev Keeps : t.Db → t.Db → Type 0
  Keeps db db' = (k : String) → HasRow db k → HasRow db' k

  -- A reservation that was made has its row.
  abbrev HasRowIf : t.Db → String → Option Inventory → Type 0
  HasRowIf db k none = Unit
  HasRowIf db k (some r) = HasRow db k
