-- ===== src/Order/Messaging.antt =====
-- src/services/order/services/messaging.service.ts: the RPC calls, whose errors become an answer
-- without success, and the events, whose errors are logged and dropped.
use advanced_node.Common.{false, none, some, List, [], ◌∷◌, ◌++◌, if◌then◌else◌}
use advanced_node.Exec.{Exec, ok, pure, try_catch}
use advanced_node.Shared.Errors.{Exception, message_of}
use advanced_node.Inventory.Service.{Item, StockResponse}
use advanced_node.Order.World.{Event, Parties, World, on_stock}

-- `{ success: false, message: error.message }`
abbrev pub no_answer : Exception → StockResponse
no_answer e = record { success = false; message = some (message_of e); reservations = none }

module _ (p : Parties) where
  unfoldable pub reserve_stock : List Item → Exec (World p) StockResponse
  reserve_stock items = try_catch (on_stock (p.stock.reserve items)) (λ e. pure (no_answer e))

  unfoldable pub release_stock : List Item → Exec (World p) StockResponse
  release_stock items = try_catch (on_stock (p.stock.release items)) (λ e. pure (no_answer e))

  unfoldable pub confirm_reservation : List Item → Exec (World p) StockResponse
  confirm_reservation items = try_catch (on_stock (p.stock.confirm items)) (λ e. pure (no_answer e))

  -- The three `publish…` methods, at their events.
  unfoldable pub publish : Event → Exec (World p) (Unit {0})
  publish e w =
      (ok tt, record w { events = if p.publishes e then w.events ++ e ∷ [] else w.events })
