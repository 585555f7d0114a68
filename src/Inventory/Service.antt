-- ===== src/Inventory/Service.antt =====
-- src/services/inventory/services/inventory.service.ts
use Prim.Native.String.{◌++◌ as join}
use advanced_node.Common.{ℕ, String, Bool, true, false, Option, none, some, List, [], ◌∷◌, ◌++◌}
use advanced_node.Exec.{Exec, pure, throw, ◌>>=◌, ◌>>◌}
use advanced_node.Shared.Errors.{app, not_found}
use advanced_node.Inventory.Repository
use advanced_node.Inventory.Repository.{Inventory, UpdateInventory, InventoryTable}

pub record Item : Type 0 where
  pub product_id : String
  pub quantity : ℕ

-- ReserveStockResponse; the two others have no `reservations`.
pub record StockResponse : Type 0 where
  pub success : Bool
  pub message : Option String
  pub reservations : Option (List Item)

abbrev pub done : StockResponse
done = record { success = true; message = none; reservations = none }

abbrev pub reserved : List Item → StockResponse
reserved items = record { success = true; message = none; reservations = some items }

abbrev pub insufficient : Item → StockResponse
insufficient item = record {
  success = false;
  message = some (join "Insufficient stock for product " item.product_id);
  reservations = none;
}

module _ (t : InventoryTable) where
  abbrev or_not_found : Option Inventory → Exec t.Db Inventory
  or_not_found none = throw (app (not_found "Inventory not found"))
  or_not_found (some i) = pure i

  unfoldable pub get_by_product_id : String → Exec t.Db Inventory
  unfolding Repository.find_by_product_id
  get_by_product_id product_id = do
    inventory ← Repository.find_by_product_id t product_id
    or_not_found inventory

  unfoldable pub get_all : Exec t.Db (List Inventory)
  unfolding Repository.find_all
  get_all = Repository.find_all t

  unfoldable pub get_low_stock : Exec t.Db (List Inventory)
  unfolding Repository.find_low_stock
  get_low_stock = Repository.find_low_stock t

  -- The check `!inventory` of the source: the call returns the row or throws.
  unfoldable pub update : String → UpdateInventory → Exec t.Db Inventory
  unfolding Repository.update
  update product_id u = do
    inventory ← Repository.update t product_id u
    or_not_found (some inventory)

  -- `for (const item of items) await releaseStock(…)`, also the rollback of `reserveStock`
  unfoldable pub release_each : List Item → Exec t.Db (Unit {0})
  release_each [] = pure tt
  release_each (item ∷ items) = do
    Repository.release_stock t item.product_id item.quantity
    release_each items

  unfoldable pub confirm_each : List Item → Exec t.Db (Unit {0})
  confirm_each [] = pure tt
  confirm_each (item ∷ items) = do
    Repository.confirm_reservation t item.product_id item.quantity
    confirm_each items

  abbrev pub roll_back : List Item → Item → Exec t.Db StockResponse
  roll_back results item = do release_each results; pure (insufficient item)

  -- The loop of `reserveStock`: the items left, and `results`.
  unfoldable pub reserve_from : List Item → List Item → Exec t.Db StockResponse
  reserve_from results [] = pure (reserved results)
  reserve_from results (item ∷ items) = do
    result ← Repository.reserve_stock t item.product_id item.quantity
    elim result [
      | none ↦ roll_back results item
      | some _ ↦ reserve_from (results ++ item ∷ []) items
    ]

  unfoldable pub reserve_stock : List Item → Exec t.Db StockResponse
  reserve_stock items = reserve_from [] items

  unfoldable pub release_stock : List Item → Exec t.Db StockResponse
  release_stock items = do release_each items; pure done

  unfoldable pub confirm_reservation : List Item → Exec t.Db StockResponse
  confirm_reservation items = do confirm_each items; pure done
