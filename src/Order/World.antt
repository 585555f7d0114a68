-- ===== src/Order/World.antt =====
-- What the order service reads and writes: its orders, the stock behind the queues, the payment
-- provider and the message broker.
use advanced_node.Common.{ℕ, String, Bool, List}
use advanced_node.Exec.{Exec, Result}
use advanced_node.Inventory.Service.{Item}
use advanced_node.Order.Repository.{OrderTable, ShippingAddress}
use advanced_node.Order.Payment.{StripeCall, StripeObject}
use advanced_node.Order.StockQueue.{StockQueue}

-- src/shared/messaging/events.ts, the events of orders, without their times. The order's items
-- come with a price of 0.
pub data Event : Type 0 where
  order_created : (order_id user_id : String) (total : ℕ) → List Item → ShippingAddress → Event
  order_cancelled : (order_id user_id : String) → List Item → Event
  order_confirmed : (order_id user_id : String) → Event

-- The parties that the service calls.
pub record Parties : Type 1 where
  pub orders : OrderTable
  pub stock : StockQueue
  pub stripe : StripeCall → Result StripeObject
  -- Whether the broker takes an event.
  pub publishes : Event → Bool

pub record World (p : Parties) : Type 0 where
  pub orders : p.orders.Db
  pub stock : p.stock.Stock
  pub calls : List StripeCall
  pub events : List Event

module _ {p : Parties} {A : Type 0} where
  abbrev pub on_orders : Exec p.orders.Db A → Exec (World p) A
  on_orders m w = let (r, s) = m w.orders in (r, record w { orders = s })

  abbrev pub on_stock : Exec p.stock.Stock A → Exec (World p) A
  on_stock m w = let (r, s) = m w.stock in (r, record w { stock = s })

  abbrev pub on_stripe : Exec (List StripeCall) A → Exec (World p) A
  on_stripe m w = let (r, s) = m w.calls in (r, record w { calls = s })
