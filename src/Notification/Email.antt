-- ===== src/Notification/Email.antt =====
-- src/services/notification/services/email.service.ts: the mails. The transport is a parameter that
-- takes a mail or throws; the mails that it took are a list. Log lines are left out.
use Prim.Native.String.{◌++◌ as join}
use advanced_node.Common.{ℕ, String, Bool, Option, List, [], ◌∷◌, ◌++◌}
use advanced_node.Common.Int.{ℤ}
use advanced_node.Exec.{Exec, Result, ok, thrown, throw, try_catch, ◌>>=◌}
use advanced_node.Shared.AddErrorHelper.{ErrorEntry, App, add_error_helper}
use advanced_node.Shared.Reply.{or_text?}
use advanced_node.Shared.Decimal.{decimal, text_of}
use advanced_node.Inventory.Service.{Item}
use advanced_node.Notification.Sockets.{SocketIo, Sockets}

pub record Mail : Type 0 where
  pub sender : String
  pub to : String
  pub subject : String
  pub html : String

-- src/shared/messaging/events.ts, without the times, the address and the prices, which no mail reads.
pub record OrderCreated : Type 0 where
  pub order_id : String
  pub user_id : String
  pub total : ℕ
  pub items : List Item

pub record OrderCancelled : Type 0 where
  pub order_id : String
  pub user_id : String

pub record LowStock : Type 0 where
  pub product_id : String
  pub current_stock : ℤ
  pub threshold : ℤ

pub record DailyReport : Type 0 where
  pub date : String
  pub total_orders : ℕ
  pub total_revenue : ℕ
  -- Each with its sales.
  pub top_products : List (String × ℕ)

-- Who the service calls, and its two settings from the environment.
pub record Parties : Type 1 where
  pub socket_io : SocketIo LowStock
  pub send_mail : Mail → Result (Unit {0})
  pub email_from : Option String
  pub admin_email : Option String

pub record Desk (p : Parties) : Type 0 where
  pub mails : List Mail
  pub sockets : Sockets p.socket_io

abbrev concat : List String → String
concat [] = ""
concat (t ∷ ts) = join t (concat ts)

abbrev item_line : Item → String
item_line i =
    concat ("<li>Product: " ∷ i.product_id ∷ " - Quantity: " ∷ decimal i.quantity ∷ "</li>" ∷ [])

abbrev item_lines : List Item → String
item_lines [] = ""
item_lines (i ∷ items) = join (item_line i) (item_lines items)

abbrev product_lines : List (String × ℕ) → String
product_lines [] = ""
product_lines ((name, sales) ∷ ps) =
    join (concat ("<li>" ∷ name ∷ " - " ∷ decimal sales ∷ " sales</li>" ∷ [])) (product_lines ps)

module _ (p : Parties) where
  abbrev from_address : String
  from_address = or_text? p.email_from "noreply@ecommerce.com"

  abbrev pub admin_address : String
  admin_address = or_text? p.admin_email "admin@ecommerce.com"

  abbrev pub confirmation_mail : OrderCreated → Mail
  confirmation_mail d = record {
    sender = from_address;
    to = d.user_id;
    subject = "Order Confirmation";
    html = concat (
        "\n          <h1>Order Confirmation</h1>\n          <p>Thank you for your order!</p>"
        ∷ "\n          <p><strong>Order ID:</strong> "
        ∷ d.order_id
        ∷ "</p>\n          <p><strong>Total:</strong> $"
        ∷ decimal d.total
        ∷ "</p>\n          <h2>Items:</h2>\n          <ul>\n            "
        ∷ item_lines d.items
        ∷ "\n          </ul>\n        "
        ∷ []);
  }

  abbrev pub cancellation_mail : OrderCancelled → Mail
  cancellation_mail d = record {
    sender = from_address;
    to = d.user_id;
    subject = "Order Cancelled";
    html = concat (
        "\n          <h1>Order Cancelled</h1>\n          <p>Your order has been cancelled.</p>"
        ∷ "\n          <p><strong>Order ID:</strong> " ∷ d.order_id ∷ "</p>\n        " ∷ []);
  }

  abbrev pub low_stock_mail : LowStock → Mail
  low_stock_mail d = record {
    sender = from_address;
    to = admin_address;
    subject = "Low Stock Alert";
    html = concat (
        "\n          <h1>Low Stock Alert</h1>\n          <p><strong>Product ID:</strong> "
        ∷ d.product_id
        ∷ "</p>\n          <p><strong>Current Stock:</strong> "
        ∷ text_of d.current_stock
        ∷ "</p>\n          <p><strong>Threshold:</strong> "
        ∷ text_of d.threshold
        ∷ "</p>\n          <p>Please restock this product soon.</p>\n        "
        ∷ []);
  }

  abbrev pub report_mail : DailyReport → Mail
  report_mail d = record {
    sender = from_address;
    to = admin_address;
    subject = join "Daily Report - " d.date;
    html = concat (
        "\n          <h1>Daily Sales Report</h1>\n          <p><strong>Date:</strong> "
        ∷ d.date
        ∷ "</p>\n          <p><strong>Total Orders:</strong> "
        ∷ decimal d.total_orders
        ∷ "</p>\n          <p><strong>Total Revenue:</strong> $"
        ∷ decimal d.total_revenue
        ∷ "</p>\n          <h2>Top Products:</h2>\n          <ul>\n            "
        ∷ product_lines d.top_products
        ∷ "\n          </ul>\n        "
        ∷ []);
  }

  abbrev pub taken : Mail → Result (Unit {0}) → Exec (App (Desk p)) (Unit {0})
  taken mail (ok tt) s = (ok tt, record s { db = record s.db { mails = s.db.mails ++ mail ∷ [] } })
  taken mail (thrown e) s = (thrown e, s)

  module _ (stores : ErrorEntry → Bool) where
    -- `try { … } catch (error) { await addErrorHelper(…); throw error; }`
    unfoldable pub logging : {A : Type 0} → String → Exec (App (Desk p)) A → Exec (App (Desk p)) A
    unfolding add_error_helper
    logging api m = try_catch m λ e. do _ ← add_error_helper stores api e; throw e

    unfoldable pub send_order_confirmation : OrderCreated → Exec (App (Desk p)) (Unit {0})
    send_order_confirmation d =
        let mail = confirmation_mail d in
        logging "EmailService.sendOrderConfirmation" (taken mail (p.send_mail mail))

    unfoldable pub send_order_cancellation : OrderCancelled → Exec (App (Desk p)) (Unit {0})
    send_order_cancellation d =
        let mail = cancellation_mail d in
        logging "EmailService.sendOrderCancellation" (taken mail (p.send_mail mail))

    unfoldable pub send_low_stock_alert : LowStock → Exec (App (Desk p)) (Unit {0})
    send_low_stock_alert d =
        let mail = low_stock_mail d in
        logging "EmailService.sendLowStockAlert" (taken mail (p.send_mail mail))

    unfoldable pub send_daily_report : DailyReport → Exec (App (Desk p)) (Unit {0})
    send_daily_report d =
        let mail = report_mail d in
        logging "EmailService.sendDailyReport" (taken mail (p.send_mail mail))
