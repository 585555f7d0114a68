-- ===== src/Order/Tests.antt =====
-- The theorems on orders, with orders and stock held in memory.
use mathlib.Core.Option
use advanced_node.Common.{ℕ, String, ◌≡◌, refl, Bool, true, Option, none, some, List, [], ◌∷◌}
use advanced_node.Common.Int.{pos, ◌+ℤ◌, ◌-ℤ◌}
use advanced_node.Exec.{Result, ok, thrown}
use advanced_node.Exec.Ensures.{Ensures}
use advanced_node.Shared.AddErrorHelper.{App, ErrorEntry}
use advanced_node.Prisma.Memory.{Rows, memory}
use advanced_node.Inventory.Repository as StockRepository
use advanced_node.Inventory.Repository.{Inventory, InventoryTable, product_key, decrement_reserved}
use advanced_node.Inventory.Changes.{demand}
use advanced_node.Inventory.Service
use advanced_node.Inventory.Service.{Item, done, reserved}
use advanced_node.Inventory.Messaging.{handle_reserve, handle_release}
use advanced_node.Order.Repository.{
  Order, OrderStatus, PaymentStatus, OrderTable, Drawn, ShippingAddress, order_key, order_of,
  create_items,
}
use advanced_node.Order.Payment.{StripeCall, StripeObject}
use advanced_node.Order.World.{Parties, World}
use advanced_node.Order.Settle.{order_row}
use advanced_node.Order.Create.{made}
use advanced_node.Order.Refused.{IsRefused, create-releases_twice}
use advanced_node.Order.Runs
use advanced_node.Order.Runs.{OrderRequest, serve_all, serve_all-keeps_closed}
use advanced_node.Order.Queues.{queues}
use advanced_node.Order.Service.{CreateOrderData, payment_failed, create}

abbrev pub stock_table : InventoryTable
stock_table = memory product_key

abbrev pub order_table : OrderTable
order_table = memory order_key

abbrev pub stores : ErrorEntry → Bool
stores e = true

abbrev pub declines : StripeCall → Result StripeObject
declines c = ok (record { id = "pi_1"; status = "requires_action" })

abbrev pub parties : Parties
parties = record {
  orders = order_table;
  stock = queues stock_table stores;
  stripe = declines;
  publishes = λ e. true;
}

abbrev pub pens : List Item
pens = record { product_id = "pen"; quantity = 2 } ∷ []

abbrev pub pen_row : ℕ → Inventory
pen_row r = record {
  id = "inv-1";
  product_id = "pen";
  quantity = pos 10;
  reserved_quantity = pos r;
  low_stock_threshold = pos 10;
}

abbrev pub stock_of : ℕ → App (Rows Inventory)
stock_of r = record { db = ("pen", pen_row r) ∷ []; errors = [] }

abbrev pub home : ShippingAddress
home = record {
  street = "High St";
  city = "Pune";
  state = "MH";
  zip_code = "411001";
  country = "IN";
}

abbrev pub wanted : Option String → CreateOrderData
wanted m = record { user_id = "ann"; items = pens; shipping_address = home; payment_method_id = m }

abbrev pub drawn : Drawn
drawn = record { order_id = "order-1"; order_number = "ORD-1"; item_id = λ n. "item" }

abbrev pub world : World parties
world = record { orders = []; stock = stock_of 5; calls = []; events = [] }

abbrev pub order_in : OrderStatus → Order
order_in status = record {
  id = "order-0";
  order_number = "ORD-0";
  user_id = "ann";
  status = status;
  payment_status = PaymentStatus.completed;
  subtotal = 1000;
  tax = 100;
  total = 1100;
  shipping_address = home;
  items = [];
}

abbrev world_with : OrderStatus → World parties
world_with status = record world { orders = ("order-0", order_in status) ∷ [] }

refused : IsRefused parties drawn (wanted (some "pm_card")) world
unfolding order_of create_items handle_reserve handle_release Service.reserve_stock
    Service.release_stock Service.reserve_from Service.release_each StockRepository.reserve_stock
    StockRepository.release_stock ◌-ℤ◌ ◌+ℤ◌
refused = record {
  method = "pm_card";
  given = refl;
  refused = refl;
  reservation = reserved pens;
  stock1 = stock_of 7;
  reserves = refl;
  reserved = refl;
  orders1 = ("order-1", made drawn (wanted (some "pm_card"))) ∷ [];
  creates = refl;
  release1 = done;
  stock2 = stock_of 5;
  releases1 = refl;
  released1 = refl;
  release2 = done;
  stock3 = stock_of 3;
  releases2 = refl;
  released2 = refl;
}

create-releases_twice_example :
    ((create parties drawn (wanted (some "pm_card")) world).0 ≡ thrown payment_failed)
    × ((create parties drawn (wanted (some "pm_card")) world).1.orders ≡ refused.orders1)
    × ((id : String)
        → parties.stock.row (create parties drawn (wanted (some "pm_card")) world).1.stock id
          ≡ Option.map (decrement_reserved (demand pens id)) (parties.stock.row world.stock id))
create-releases_twice_example =
    create-releases_twice parties drawn (wanted (some "pm_card")) world refused

abbrev run : List OrderRequest
run = Runs.place drawn (wanted none) ∷ Runs.withdraw "order-0" "ann" ∷ []

serve_all-keeps_closed_example :
    order_row parties (serve_all parties run (world_with OrderStatus.shipped)) "order-0"
    ≡ some (order_in OrderStatus.shipped)
serve_all-keeps_closed_example =
    serve_all-keeps_closed parties run (world_with OrderStatus.shipped) "order-0"
      (order_in OrderStatus.shipped) (refl, (tt, tt)) refl refl

abbrev pub service : App (World parties)
service = record { db = world_with OrderStatus.delivered; errors = [] }
