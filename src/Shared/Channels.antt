-- ===== src/Shared/Channels.antt =====
-- src/shared/messaging/events.ts: the names of exchanges, queues of events and routing keys.
use advanced_node.Common.{String}

pub data Exchange : Type 0 where
  orders inventory notifications products : Exchange

abbrev pub exchange_name : Exchange → String
exchange_name orders = "orders.exchange"
exchange_name inventory = "inventory.exchange"
exchange_name notifications = "notifications.exchange"
exchange_name products = "products.exchange"

-- The events, by which the queues and the routing keys are named.
pub data Topic : Type 0 where
  order_created order_cancelled order_confirmed : Topic
  inventory_low_stock inventory_updated : Topic
  product_created product_updated product_deleted : Topic

abbrev pub routing_key : Topic → String
routing_key order_created = "order.created"
routing_key order_cancelled = "order.cancelled"
routing_key order_confirmed = "order.confirmed"
routing_key inventory_low_stock = "inventory.low-stock"
routing_key inventory_updated = "inventory.updated"
routing_key product_created = "product.created"
routing_key product_updated = "product.updated"
routing_key product_deleted = "product.deleted"

abbrev pub queue_name : Topic → String
queue_name order_created = "order.created.queue"
queue_name order_cancelled = "order.cancelled.queue"
queue_name order_confirmed = "order.confirmed.queue"
queue_name inventory_low_stock = "inventory.low-stock.queue"
queue_name inventory_updated = "inventory.updated.queue"
queue_name product_created = "product.created.queue"
queue_name product_updated = "product.updated.queue"
queue_name product_deleted = "product.deleted.queue"
