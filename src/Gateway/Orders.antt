-- ===== src/Gateway/Orders.antt =====
-- src/services/api-gateway/routes/v1/orders.routes.ts: the handlers, behind the hook that all of them
-- have, and what they ask of the order service. What a schema makes of a query or a body is an
-- argument, and so are the time and the random number that the proxy reads.
use Prim.Native.String.{◌++◌ as join}
use mathlib.Core.Option
use advanced_node.Common.{ℕ, String, Option, none, some, List, map}
use advanced_node.Exec.{Exec, Result}
use advanced_node.Shared.Reply.{Reply}
use advanced_node.Order.Repository.{ShippingAddress}
use advanced_node.Gateway.Parties.{JwtPayload}
use advanced_node.Gateway.Uuid.{is_valid_uuid}
use advanced_node.Gateway.Proxy.{Network, Config, Method, Proxy, get, post, put, forward}
use advanced_node.Gateway.Hooks.{Validated, replying, validated, checked, behind_auth}

-- An item of the body, whose price the handler leaves out.
pub record BodyItem : Type 0 where
  pub product_id : String
  pub quantity : ℕ
  pub price : Option ℕ

pub record CreateOrder : Type 0 where
  pub items : List BodyItem
  pub shipping_address : ShippingAddress
  pub payment_method : Option String

pub record SentItem : Type 0 where
  pub product_id : String
  pub quantity : ℕ

-- What is sent to the order service.
pub data Payload : Type 0 where
  user : String → Payload
  new_order :
      (user_id : String)
      → List SentItem
      → ShippingAddress
      → (payment_method_id : Option String) → Payload

abbrev pub without_price : BodyItem → SentItem
without_price i = record { product_id = i.product_id; quantity = i.quantity }

abbrev pub payload_of : String → CreateOrder → Payload
payload_of user_id d =
    new_order user_id (map without_price d.items) d.shipping_address d.payment_method

-- A request, with its header `authorization`.
pub data Request : Type 0 where
  list : Option String → Validated (Unit {0}) → Request
  show : Option String → String → Request
  create : Option String → Validated CreateOrder → Request
  cancel : Option String → String → Request

-- The order service as the gateway is told of it, and how a value's field is read: nothing where it
-- is absent or null.
pub record Settings (D : Type 0) : Type 0 where
  pub service_name : String
  pub service_url : String
  pub member : String → D → Option D

abbrev pub bad_order_id : String
bad_order_id = "Invalid order ID format. Must be a valid UUID."

abbrev pub or_else : {A : Type 0} → Option A → A → A
or_else none a = a
or_else (some b) a = b

abbrev pub path_of : String → String
path_of id = join "/orders/" id

module _ {D : Type 0} (n : Network Payload D) (config : Config) (o : Settings D)
    (verify_access : String → Result JwtPayload) (now random : ℕ) where
  -- `result.data?.field ?? result.data ?? result`
  abbrev pub dig : String → D → Option D
  dig field result =
      let inner = o.member "data" result in
      some (or_else (Option.bind inner (o.member field)) (or_else inner result))

  abbrev pub forwarded : String → Method → Payload → Exec (Proxy n config) D
  forwarded path method content =
      forward n config o.service_name o.service_url now random path method (some content)

  abbrev pub listing : JwtPayload → Exec (Proxy n config) (Reply D)
  listing u =
      replying 200 "Orders fetched successfully" "Failed to fetch orders" (dig "orders")
        (forwarded "/orders" get (user u.user_id))

  abbrev pub showing : String → JwtPayload → Exec (Proxy n config) (Reply D)
  showing id u =
      replying 200 "Order fetched successfully" "Failed to fetch order" (dig "order")
        (forwarded (path_of id) get (user u.user_id))

  abbrev pub creating : CreateOrder → JwtPayload → Exec (Proxy n config) (Reply D)
  creating d u =
      replying 201 "Order created successfully" "Failed to create order" (dig "order")
        (forwarded "/orders" post (payload_of u.user_id d))

  abbrev pub cancelling : String → JwtPayload → Exec (Proxy n config) (Reply D)
  cancelling id u =
      replying 200 "Order cancelled successfully" "Failed to cancel order" (dig "order")
        (forwarded (join (path_of id) "/cancel") put (user u.user_id))

  unfoldable pub handle : Request → Exec (Proxy n config) (Reply D)
  handle (list header parsed) =
      behind_auth verify_access header λ u. validated parsed λ query. listing u
  handle (show header id) =
      behind_auth verify_access header λ u. checked (is_valid_uuid id) bad_order_id (showing id u)
  handle (create header parsed) =
      behind_auth verify_access header λ u. validated parsed λ d. creating d u
  handle (cancel header id) =
      behind_auth verify_access header
        λ u. checked (is_valid_uuid id) bad_order_id (cancelling id u)
