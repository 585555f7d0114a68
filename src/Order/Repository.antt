-- ===== src/Order/Repository.antt =====
-- src/services/order/repositories/order.repository.ts, over Prisma's table of orders (the models
-- Order and OrderItem of prisma/schema.prisma, without timestamps and joins). Amounts of money are
-- whole numbers of the currency's unit: the program stores no others.
use advanced_node.Common.{ℕ, suc, String, Bool, Option, List, [], ◌∷◌, ◌==◌}
use advanced_node.Exec.{Exec, query}
use advanced_node.Prisma.{Table}
use advanced_node.Inventory.Service.{Item}

pub data OrderStatus : Type 0 where
  pending confirmed processing shipped delivered cancelled refunded : OrderStatus

pub data PaymentStatus : Type 0 where
  pending completed failed refunded : PaymentStatus

pub record ShippingAddress : Type 0 where
  pub street : String
  pub city : String
  pub state : String
  pub zip_code : String
  pub country : String

pub record OrderItem : Type 0 where
  pub id : String
  pub product_id : String
  pub quantity : ℕ
  pub price : ℕ
  pub subtotal : ℕ

pub record Order : Type 0 where
  pub id : String
  pub order_number : String
  pub user_id : String
  pub status : OrderStatus
  pub payment_status : PaymentStatus
  pub subtotal : ℕ
  pub tax : ℕ
  pub total : ℕ
  pub shipping_address : ShippingAddress
  pub items : List OrderItem

abbrev pub order_key : Order → String
order_key o = o.id

abbrev pub OrderTable : Type 1
OrderTable = Table Order order_key

-- What `create` is called with.
pub record NewOrder : Type 0 where
  pub user_id : String
  pub items : List Item
  pub shipping_address : ShippingAddress
  pub subtotal : ℕ
  pub tax : ℕ
  pub total : ℕ
  pub status : OrderStatus
  pub payment_status : PaymentStatus

-- The identifiers that `create` draws: `uuidv4()` for the order and for each item, and the order
-- number from the time and `Math.random()`.
pub record Drawn : Type 0 where
  pub order_id : String
  pub order_number : String
  pub item_id : ℕ → String

-- The items of the call name no price, so `item.price || 0` and `item.subtotal || 0` are 0.
unfoldable pub create_items : (ℕ → String) → ℕ → List Item → List OrderItem
create_items ids n [] = []
create_items ids n (item ∷ items) =
    record {
      id = ids n;
      product_id = item.product_id;
      quantity = item.quantity;
      price = 0;
      subtotal = 0;
    }
    ∷ create_items ids (suc n) items

unfoldable pub order_of : Drawn → NewOrder → Order
order_of drawn new = record {
  id = drawn.order_id;
  order_number = drawn.order_number;
  user_id = new.user_id;
  status = new.status;
  payment_status = new.payment_status;
  subtotal = new.subtotal;
  tax = new.tax;
  total = new.total;
  shipping_address = new.shipping_address;
  items = create_items drawn.item_id 0 new.items;
}

abbrev pub belongs_to : String → Order → Bool
belongs_to user_id o = o.user_id == user_id

abbrev pub set_status : OrderStatus → Order → Order
set_status status o = record o { status = status }

abbrev pub set_payment_status : PaymentStatus → Order → Order
set_payment_status status o = record o { payment_status = status }

module _ (t : OrderTable) where
  -- The order of the list, `createdAt: 'desc'`, is the database's.
  unfoldable pub find_by_user_id : String → Exec t.Db (List Order)
  find_by_user_id user_id = query (t.find_many (belongs_to user_id))

  unfoldable pub find_by_id : String → Exec t.Db (Option Order)
  find_by_id id = query (t.find_unique id)

  unfoldable pub create : Drawn → NewOrder → Exec t.Db Order
  create drawn new = t.create (order_of drawn new)

  unfoldable pub update_status : String → OrderStatus → Exec t.Db Order
  update_status id status = t.update id (set_status status)

  unfoldable pub update_payment_status : String → PaymentStatus → Exec t.Db Order
  update_payment_status id status = t.update id (set_payment_status status)
