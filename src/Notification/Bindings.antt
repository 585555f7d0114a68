-- ===== src/Notification/Bindings.antt =====
-- How an event that a service publishes comes to a consumer: the bindings that
-- src/services/notification/services/messaging.service.ts makes, and the broker's topic exchanges,
-- a third party, which match a binding's pattern with a message's key.
use Prim.Native.Char.{code}
use advanced_node.Common.{
  String, ◌≡◌, Bool, true, false, not, ◌||◌, ◌&&◌, List, [], ◌∷◌, ◌++◌, nat_eq, ◌==◌, if◌then◌else◌,
}
use advanced_node.Shared.AddErrorHelper.{ErrorEntry, App}
use advanced_node.Shared.Channels
use advanced_node.Shared.Channels.{
  Exchange, orders, inventory, products, exchange_name, Topic, routing_key, queue_name,
}
use advanced_node.Rpc.Server.{Action}
use advanced_node.Notification.Email.{Parties, Desk}
use advanced_node.Notification.Consumers.{
  Event, order_created, order_cancelled, order_confirmed, low_stock, served,
}

-- No `*` and no `#`.
abbrev pub is_plain : String → Bool
is_plain String.[] = true
is_plain (String.◌∷◌ c t) = not (nat_eq (code c) 42 || nat_eq (code c) 35) && is_plain t

pub record Binding : Type 0 where
  pub queue : String
  pub exchange : String
  pub pattern : String

abbrev pub is_bound : String → List Binding → Bool
is_bound queue [] = false
is_bound queue (b ∷ bs) = (b.queue == queue) || is_bound queue bs

-- `queues` is where a message goes, by the bindings there are. A queue that is bound once, by a
-- pattern without wildcards, gets what is sent to its exchange with the key that the pattern is.
pub record Broker : Type 0 where
  pub queues : List Binding → (exchange key : String) → List String
  pub queues_none : (exchange key : String) → queues [] exchange key ≡ []
  pub queues_bound :
      (b : Binding) (bs : List Binding) (exchange key : String)
      → is_plain b.pattern ≡ true
      → is_bound b.queue bs ≡ false
      → queues (b ∷ bs) exchange key ≡ (
          if (b.exchange == exchange) && (b.pattern == key)
          then b.queue ∷ queues bs exchange key
          else queues bs exchange key)

abbrev pub bind_queue : Topic → Exchange → Binding
bind_queue topic exchange = record {
  queue = queue_name topic;
  exchange = exchange_name exchange;
  pattern = routing_key topic;
}

abbrev pub setup_queues : List Binding
setup_queues =
    bind_queue Channels.order_created orders
    ∷ bind_queue Channels.order_cancelled orders
    ∷ bind_queue Channels.order_confirmed orders
    ∷ bind_queue Channels.inventory_low_stock inventory
    ∷ []

-- What the services publish; of the events that nobody consumes the contents are left out.
pub data Published : Type 0 where
  notice : Event → Published
  inventory_updated product_created product_updated product_deleted : Published

abbrev pub topic_of : Published → Topic
topic_of (notice (order_created d)) = Channels.order_created
topic_of (notice (order_cancelled d)) = Channels.order_cancelled
topic_of (notice (order_confirmed order_id user_id)) = Channels.order_confirmed
topic_of (notice (low_stock d)) = Channels.inventory_low_stock
topic_of inventory_updated = Channels.inventory_updated
topic_of product_created = Channels.product_created
topic_of product_updated = Channels.product_updated
topic_of product_deleted = Channels.product_deleted

abbrev pub exchange_of : Published → Exchange
exchange_of (notice (order_created d)) = orders
exchange_of (notice (order_cancelled d)) = orders
exchange_of (notice (order_confirmed order_id user_id)) = orders
exchange_of (notice (low_stock d)) = inventory
exchange_of inventory_updated = inventory
exchange_of product_created = products
exchange_of product_updated = products
exchange_of product_deleted = products

module _ (broker : Broker) where
  module _ (p : Parties) (stores : ErrorEntry → Bool)
      (stray : String → Published → App (Desk p) → List (Action Event) × App (Desk p)) where
    -- The consumer of a queue, given a message; `stray` stands for a consumer that is given a message
    -- of another kind than its queue's.
    abbrev pub at_queue : String → Published → App (Desk p) → List (Action Event) × App (Desk p)
    at_queue queue (notice e) =
        if queue == queue_name (topic_of (notice e))
        then served p stores e
        else stray queue (notice e)
    at_queue queue m = stray queue m

    abbrev pub at_queues :
        List String → Published → App (Desk p) → List (List (Action Event)) × App (Desk p)
    at_queues [] m s = ([], s)
    at_queues (q ∷ qs) m s =
        let (told, s1) = at_queue q m s in let (rest, s2) = at_queues qs m s1 in (told ∷ rest, s2)

    unfoldable pub deliver : Published → App (Desk p) → List (List (Action Event)) × App (Desk p)
    deliver m =
        at_queues
          (broker.queues setup_queues (exchange_name (exchange_of m)) (routing_key (topic_of m))) m

    unfoldable pub deliver_all :
        List Published → App (Desk p) → List (List (Action Event)) × App (Desk p)
    unfolding deliver
    deliver_all [] s = ([], s)
    deliver_all (m ∷ ms) s =
        let (told, s1) = deliver m s in let (rest, s2) = deliver_all ms s1 in (told ++ rest, s2)
