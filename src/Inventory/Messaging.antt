-- ===== src/Inventory/Messaging.antt =====
-- src/services/inventory/services/messaging.service.ts: the handlers of the three RPC queues.
use advanced_node.Common.{String, Bool, false, none, some, List}
use advanced_node.Exec.{Exec, pure, try_catch, ◌>>=◌}
use advanced_node.Shared.Errors.{Exception, message_of}
use advanced_node.Shared.AddErrorHelper.{ErrorEntry, App, lift, add_error_helper}
use advanced_node.Inventory.Repository.{InventoryTable}
use advanced_node.Inventory.Service
use advanced_node.Inventory.Service.{Item, StockResponse}

-- `{ success: false, message: error.message }`
abbrev pub failed : Exception → StockResponse
failed e = record { success = false; message = some (message_of e); reservations = none }

module _ (t : InventoryTable) (stores : ErrorEntry → Bool) where
  abbrev pub answer_error : String → Exception → Exec (App t.Db) StockResponse
  answer_error api e = do _ ← add_error_helper stores api e; pure (failed e)

  unfoldable pub handle_reserve : List Item → Exec (App t.Db) StockResponse
  unfolding add_error_helper
  handle_reserve items =
      try_catch (lift (Service.reserve_stock t items))
        (answer_error "MessagingService.reserveStockRPC")

  unfoldable pub handle_release : List Item → Exec (App t.Db) StockResponse
  unfolding add_error_helper
  handle_release items =
      try_catch (lift (Service.release_stock t items))
        (answer_error "MessagingService.releaseStockRPC")

  unfoldable pub handle_confirm : List Item → Exec (App t.Db) StockResponse
  unfolding add_error_helper
  handle_confirm items =
      try_catch (lift (Service.confirm_reservation t items))
        (answer_error "MessagingService.confirmReservationRPC")
