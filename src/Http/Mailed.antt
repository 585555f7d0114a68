-- ===== src/Http/Mailed.antt =====
-- From the order service to the buyer's mail: the events that src/services/order publishes, through
-- the broker, at the consumers of src/services/notification.
use advanced_node.Common.{String, Bool, List, [], ◌∷◌, map, if◌then◌else◌}
use advanced_node.Exec.{Result, ok, thrown}
use advanced_node.Exec.Ensures.{Ensures}
use advanced_node.Shared.AddErrorHelper.{ErrorEntry, App}
use advanced_node.Rpc.Server.{Action}
use advanced_node.Order.Repository.{Order, Drawn}
use advanced_node.Order.Service.{CreateOrderData}
use advanced_node.Order.Create.{totals_of}
use advanced_node.Order.World
use advanced_node.Order.World.{World}
use advanced_node.Notification.Email
use advanced_node.Notification.Email.{Mail, Desk, confirmation_mail, cancellation_mail}
use advanced_node.Notification.Consumers
use advanced_node.Notification.Bindings.{Broker, Published, notice, deliver_all}

-- The event as the consumers read it.
abbrev pub published_by : World.Event → Published
published_by (World.order_created id user_id total items address) = notice (
    Consumers.order_created
      (record { order_id = id; user_id = user_id; total = total; items = items }))
published_by (World.order_cancelled id user_id items) =
    notice (Consumers.order_cancelled (record { order_id = id; user_id = user_id }))
published_by (World.order_confirmed id user_id) = notice (Consumers.order_confirmed id user_id)

abbrev pub if_taken : Mail → Result (Unit {0}) → List Mail
if_taken m (ok tt) = m ∷ []
if_taken m (thrown e) = []

module _ (p : World.Parties) (q : Email.Parties) (broker : Broker) (stores : ErrorEntry → Bool)
    (stray : String → Published → App (Desk q) → List (Action Consumers.Event) × App (Desk q)) where
  -- The mails that were taken once the consumers have served these events.
  abbrev pub mails_after : List World.Event → App (Desk q) → List Mail
  mails_after events s = (deliver_all broker q stores stray (map published_by events) s).1.db.mails

  -- What comes of one mail, if the broker takes the event that asks for it.
  abbrev pub mails_of : World.Event → Mail → List Mail
  mails_of e m = if p.publishes e then if_taken m (q.send_mail m) else []

  abbrev pub confirmation : Drawn → CreateOrderData → Mail
  confirmation drawn d = confirmation_mail q (record {
    order_id = drawn.order_id;
    user_id = d.user_id;
    total = (totals_of d).total;
    items = d.items;
  })

  abbrev pub cancellation : String → String → Mail
  cancellation id user_id = cancellation_mail q (record { order_id = id; user_id = user_id })
