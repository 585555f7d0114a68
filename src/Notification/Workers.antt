-- ===== src/Notification/Workers.antt =====
-- src/services/notification/workers: the processors of the queues of jobs. A job's name and object
-- come as one of the names that a worker knows, or another. Log lines and times are left out.
use advanced_node.Common.{String, Bool}
use advanced_node.Exec.{Exec, pure}
use advanced_node.Shared.AddErrorHelper.{ErrorEntry, App}
use advanced_node.Notification.Email.{
  OrderCreated, OrderCancelled, LowStock, Parties, Desk, send_order_confirmation,
  send_order_cancellation,
}
use advanced_node.Notification.Consumers.{alert}

pub data OrderJob : Type 0 where
  order_created_job : OrderCreated → OrderJob
  order_cancelled_job : OrderCancelled → OrderJob
  unknown_job : (name : String) → OrderJob

pub data AlertJob : Type 0 where
  low_stock_job : LowStock → AlertJob
  unknown_alert : (name : String) → AlertJob

module _ (p : Parties) (stores : ErrorEntry → Bool) where
  unfoldable pub email_worker : OrderJob → Exec (App (Desk p)) (Unit {0})
  email_worker (order_created_job d) = send_order_confirmation p stores d
  email_worker (order_cancelled_job d) = send_order_cancellation p stores d
  email_worker (unknown_job name) = pure tt

  unfoldable pub alert_worker : AlertJob → Exec (App (Desk p)) (Unit {0})
  alert_worker (low_stock_job d) = alert p stores d
  alert_worker (unknown_alert name) = pure tt
