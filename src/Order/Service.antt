-- ===== src/Order/Service.antt =====
-- src/services/order/services/order.service.ts
use advanced_node.Common.{
  ℕ, ◌+◌, ◌/◌, String, Bool, true, false, Option, none, some, List, map, ◌==◌, if◌then◌else◌,
}
use advanced_node.Exec.{Exec, pure, throw, try_catch, ◌>>=◌}
use advanced_node.Shared.Errors.{Exception, app, bad_request, not_found}
use advanced_node.Shared.Reply.{or_text?}
use advanced_node.Inventory.Service.{Item, StockResponse}
use advanced_node.Order.Repository
use advanced_node.Order.Repository.{
  Order, OrderItem, OrderStatus, PaymentStatus, ShippingAddress, Drawn, NewOrder,
}
use advanced_node.Order.Payment.{process_payment}
use advanced_node.Order.World.{order_created, order_cancelled, Parties, World, on_orders, on_stripe}
use advanced_node.Order.Messaging

pub record CreateOrderData : Type 0 where
  pub user_id : String
  pub items : List Item
  pub shipping_address : ShippingAddress
  pub payment_method_id : Option String

pub record Totals : Type 0 where
  pub subtotal : ℕ
  pub tax : ℕ
  pub total : ℕ

-- `calculateTotals`, which is the same for all items; the tax is a tenth of the subtotal.
unfoldable pub calculate_totals : List Item → Totals
calculate_totals items =
    let subtotal : ℕ = 1000 in
    let tax : ℕ = subtotal / 10 in record { subtotal = subtotal; tax = tax; total = subtotal + tax }

abbrev pub new_order : CreateOrderData → Totals → NewOrder
new_order d totals = record {
  user_id = d.user_id;
  items = d.items;
  shipping_address = d.shipping_address;
  subtotal = totals.subtotal;
  tax = totals.tax;
  total = totals.total;
  status = OrderStatus.pending;
  payment_status = PaymentStatus.pending;
}

-- `items.map` in `cancel`
abbrev pub item_of : OrderItem → Item
item_of i = record { product_id = i.product_id; quantity = i.quantity }

-- `!['PENDING', 'CONFIRMED'].includes(order.status)`
abbrev pub is_cancellable : OrderStatus → Bool
is_cancellable OrderStatus.pending = true
is_cancellable OrderStatus.confirmed = true
is_cancellable _ = false

abbrev pub order_not_found : Exception
order_not_found = app (not_found "Order not found")

abbrev pub payment_failed : Exception
payment_failed = app (bad_request "Payment failed")

-- `if (data.paymentMethodId)`: the empty text counts as absent.
abbrev pub payment_method : Option String → Option String
payment_method none = none
payment_method (some m) = if m == "" then none else some m

module _ (p : Parties) where
  unfoldable pub get_user_orders : String → Exec (World p) (List Order)
  unfolding Repository.find_by_user_id
  get_user_orders user_id = on_orders (Repository.find_by_user_id p.orders user_id)

  abbrev pub check_owner : String → Option Order → Exec (World p) (Option Order)
  check_owner user_id none = pure none
  check_owner user_id (some o) =
      if o.user_id == user_id then pure (some o) else throw order_not_found

  unfoldable pub get_by_id : String → String → Exec (World p) (Option Order)
  unfolding Repository.find_by_id
  get_by_id id user_id = do
    order ← on_orders (Repository.find_by_id p.orders id)
    check_owner user_id order

  -- Step 4, once the provider has answered.
  unfoldable pub settle_payment : List Item → Order → Bool → Exec (World p) (Unit {0})
  unfolding Repository.update_payment_status Repository.update_status Messaging.confirm_reservation
      Messaging.release_stock
  settle_payment items order true = do
    _ ← on_orders (Repository.update_payment_status p.orders order.id PaymentStatus.completed)
    _ ← on_orders (Repository.update_status p.orders order.id OrderStatus.confirmed)
    _ ← Messaging.confirm_reservation p items
    pure tt
  settle_payment items order false = do _ ← Messaging.release_stock p items; throw payment_failed

  -- Step 4
  unfoldable pub pay : CreateOrderData → Totals → Order → Option String → Exec (World p) (Unit {0})
  unfolding process_payment settle_payment
  pay d totals order none = pure tt
  pay d totals order (some m) = do
    payment ← on_stripe (
        process_payment p.stripe
          (record { order_id = order.id; amount = totals.total; payment_method_id = m }))
    settle_payment d.items order payment.success

  -- The `try` block: steps 2 to 5.
  unfoldable pub place : Drawn → CreateOrderData → Exec (World p) Order
  unfolding Repository.create pay Messaging.publish
  place drawn d = do
    let totals = calculate_totals d.items
    order ← on_orders (Repository.create p.orders drawn (new_order d totals))
    _ ← pay d totals order (payment_method d.payment_method_id)
    _ ←
        Messaging.publish p
          (order_created order.id d.user_id totals.total d.items d.shipping_address)
    pure order

  -- The `catch` block.
  abbrev pub undo : List Item → Exception → Exec (World p) Order
  undo items e = do _ ← Messaging.release_stock p items; throw e

  abbrev pub place_reserved : Drawn → CreateOrderData → StockResponse → Exec (World p) Order
  place_reserved drawn d reservations =
      if reservations.success
      then try_catch (place drawn d) (undo d.items)
      else throw
          (app (bad_request (or_text? reservations.message "Insufficient stock for some items")))

  unfoldable pub create : Drawn → CreateOrderData → Exec (World p) Order
  unfolding Messaging.reserve_stock Messaging.release_stock place
  create drawn d = do
    reservations ← Messaging.reserve_stock p d.items
    place_reserved drawn d reservations

  abbrev pub cancel_found : String → String → Order → Exec (World p) Order
  cancel_found id user_id o =
      if o.user_id == user_id
      then (if is_cancellable o.status
          then (do
            _ ← Messaging.release_stock p (map item_of o.items)
            updated ← on_orders (Repository.update_status p.orders id OrderStatus.cancelled)
            _ ← Messaging.publish p (order_cancelled id user_id (map item_of o.items))
            pure updated)
          else throw (app (bad_request "Order cannot be cancelled")))
      else throw order_not_found

  abbrev pub cancel_order : String → String → Option Order → Exec (World p) Order
  cancel_order id user_id none = throw order_not_found
  cancel_order id user_id (some o) = cancel_found id user_id o

  unfoldable pub cancel : String → String → Exec (World p) Order
  unfolding Repository.find_by_id Messaging.release_stock Repository.update_status Messaging.publish
  cancel id user_id = do
    order ← on_orders (Repository.find_by_id p.orders id)
    cancel_order id user_id order
