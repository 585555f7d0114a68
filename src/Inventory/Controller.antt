-- ===== src/Inventory/Controller.antt =====
-- src/services/inventory/controllers/inventory.controller.ts. The schemas' `parse` is the validation
-- library's: what it makes of a body is a parameter.
use advanced_node.Common.{String, Bool, false, if◌then◌else◌, Option, none, some, List}
use advanced_node.Exec.{Exec, Result, pure, query, ◌>>=◌}
use advanced_node.Shared.Errors.{Exception, is_not_found}
use advanced_node.Shared.Reply.{Reply, or_text, decorate_reply, send_ok, send_bad_request}
use advanced_node.Shared.AddErrorHelper.{ErrorEntry, App, lift}
use advanced_node.Shared.Catch.{failure, success, guarded}
use advanced_node.Inventory.Repository.{Inventory, UpdateInventory, InventoryTable}
use advanced_node.Inventory.Service
use advanced_node.Inventory.Service.{Item, StockResponse}

-- What the replies of this controller carry.
pub data Content : Type 0 where
  inventory : Inventory → Content
  inventories : List Inventory → Content
  stock : StockResponse → Content

abbrev pub or_message : Option String → String → String
or_message none b = b
or_message (some a) b = or_text a b

abbrev never_rethrown : Exception → Bool
never_rethrown e = false

-- `if (!result.success)` in `reserveStock`
abbrev pub reserve_reply : StockResponse → Reply Content
reserve_reply r =
    if r.success
    then decorate_reply send_ok (success "Stock reserved successfully" (stock r))
    else decorate_reply send_bad_request (failure (or_message r.message "Failed to reserve stock"))

-- A request to one of the routes of src/services/inventory/routes/inventory.routes.ts, with its
-- path parameter and what the schema made of its body.
pub data Request : Type 0 where
  list low_stock : Request
  show : String → Request
  put : String → Result UpdateInventory → Request
  reserve release : Result (List Item) → Request

abbrev pub ok_reply : String → Content → Reply Content
ok_reply m c = decorate_reply send_ok (success m c)

module _ (t : InventoryTable) (stores : ErrorEntry → Bool) where
  unfoldable pub get_by_product_id : String → Exec (App t.Db) (Reply Content)
  unfolding Service.get_by_product_id
  get_by_product_id product_id =
      guarded stores "InventoryController.getByProductId" "Failed to fetch inventory" is_not_found
        do
          i ← lift (Service.get_by_product_id t product_id)
          pure (ok_reply "Inventory fetched successfully" (inventory i))

  unfoldable pub get_all : Exec (App t.Db) (Reply Content)
  unfolding Service.get_all
  get_all =
      guarded stores "InventoryController.getAll" "Failed to fetch inventory" never_rethrown do
        is ← lift (Service.get_all t)
        pure (ok_reply "Inventory fetched successfully" (inventories is))

  unfoldable pub get_low_stock : Exec (App t.Db) (Reply Content)
  unfolding Service.get_low_stock
  get_low_stock =
      guarded stores "InventoryController.getLowStock" "Failed to fetch low stock items"
        never_rethrown
        do
          is ← lift (Service.get_low_stock t)
          pure (ok_reply "Low stock items fetched successfully" (inventories is))

  -- What the schema made of the body is an argument: the values, or what it threw.
  unfoldable pub update : String → Result UpdateInventory → Exec (App t.Db) (Reply Content)
  unfolding Service.update
  update product_id parsed =
      guarded stores "InventoryController.update" "Failed to update inventory" is_not_found do
        body ← query (λ _. parsed)
        i ← lift (Service.update t product_id body)
        pure (ok_reply "Inventory updated successfully" (inventory i))

  unfoldable pub reserve_stock : Result (List Item) → Exec (App t.Db) (Reply Content)
  unfolding Service.reserve_stock
  reserve_stock parsed =
      guarded stores "InventoryController.reserveStock" "Failed to reserve stock" never_rethrown do
        items ← query (λ _. parsed)
        r ← lift (Service.reserve_stock t items)
        pure (reserve_reply r)

  unfoldable pub release_stock : Result (List Item) → Exec (App t.Db) (Reply Content)
  unfolding Service.release_stock
  release_stock parsed =
      guarded stores "InventoryController.releaseStock" "Failed to release stock" never_rethrown do
        items ← query (λ _. parsed)
        r ← lift (Service.release_stock t items)
        pure (ok_reply "Stock released successfully" (stock r))

  unfoldable pub handle : Request → Exec (App t.Db) (Reply Content)
  handle list = get_all
  handle low_stock = get_low_stock
  handle (show product_id) = get_by_product_id product_id
  handle (put product_id body) = update product_id body
  handle (reserve items) = reserve_stock items
  handle (release items) = release_stock items
