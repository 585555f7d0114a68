-- ===== src/Notification/Consumers.antt =====
-- src/services/notification/services/messaging.service.ts: the consumers of the four event queues,
-- each bound to the routing key of its event. Log lines are left out.
use advanced_node.Common.{String, Bool, none, some, List, [], ◌∷◌}
use advanced_node.Exec.{Exec, ok, pure, ◌>>=◌}
use advanced_node.Shared.AddErrorHelper.{ErrorEntry, App}
use advanced_node.Rpc.Client.{ConsumeMessage}
use advanced_node.Rpc.Server.{Action, consume_message}
use advanced_node.Notification.Sockets.{emit_to_admins}
use advanced_node.Notification.Email.{
  OrderCreated, OrderCancelled, LowStock, Parties, Desk, logging, send_order_confirmation,
  send_order_cancellation, send_low_stock_alert,
}

pub data Event : Type 0 where
  order_created : OrderCreated → Event
  order_cancelled : OrderCancelled → Event
  order_confirmed : (order_id user_id : String) → Event
  low_stock : LowStock → Event

-- A message from the broker whose bytes say the event.
abbrev pub event_message : Event → ConsumeMessage Event
event_message e = record {
  content = ok (record { content = some e; error = none });
  correlation_id = none;
  reply_to = none;
}

module _ (p : Parties) where
  abbrev pub tell_admins : LowStock → Exec (App (Desk p)) (Unit {0})
  tell_admins d s = (
    ok tt,
    record s {
      db = record s.db { sockets = emit_to_admins p.socket_io "low-stock-alert" d s.db.sockets };
    },
  )

  module _ (stores : ErrorEntry → Bool) where
    abbrev pub alert : LowStock → Exec (App (Desk p)) (Unit {0})
    alert d = do _ ← send_low_stock_alert p stores d; tell_admins d

    unfoldable pub order_created_consumer : OrderCreated → Exec (App (Desk p)) (Unit {0})
    order_created_consumer d =
        logging p stores "MessagingService.orderCreatedConsumer"
          (send_order_confirmation p stores d)

    unfoldable pub order_cancelled_consumer : OrderCancelled → Exec (App (Desk p)) (Unit {0})
    order_cancelled_consumer d =
        logging p stores "MessagingService.orderCancelledConsumer"
          (send_order_cancellation p stores d)

    unfoldable pub order_confirmed_consumer : String → Exec (App (Desk p)) (Unit {0})
    order_confirmed_consumer order_id =
        logging p stores "MessagingService.orderConfirmedConsumer" (pure tt)

    unfoldable pub low_stock_alert_consumer : LowStock → Exec (App (Desk p)) (Unit {0})
    low_stock_alert_consumer d = logging p stores "MessagingService.lowStockAlertConsumer" (alert d)

    -- The consumer of the event's queue.
    unfoldable pub consumer : Event → Exec (App (Desk p)) (Unit {0})
    consumer (order_created d) = order_created_consumer d
    consumer (order_cancelled d) = order_cancelled_consumer d
    consumer (order_confirmed order_id user_id) = order_confirmed_consumer order_id
    consumer (low_stock d) = low_stock_alert_consumer d

    unfoldable pub served : Event → App (Desk p) → List (Action Event) × App (Desk p)
    served e = consume_message (λ body. consumer e) (event_message e)

    -- Messages one after another, with what the channel is told of each.
    unfoldable pub serve_all : List Event → App (Desk p) → List (List (Action Event)) × App (Desk p)
    serve_all [] s = ([], s)
    serve_all (e ∷ es) s =
        let (told, s1) = served e s in let (rest, s2) = serve_all es s1 in (told ∷ rest, s2)
