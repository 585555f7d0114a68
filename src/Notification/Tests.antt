-- ===== src/Notification/Tests.antt =====
-- The notification service at concrete events.
use advanced_node.Common.{
  ℕ, String, ◌≡◌, refl, true, none, some, List, [], ◌∷◌, ◌==◌, if◌then◌else◌,
}
use advanced_node.Common.Int.{pos}
use advanced_node.Exec.{Result, ok, thrown}
use advanced_node.Shared.AddErrorHelper.{App}
use advanced_node.Shared.Errors.{error}
use advanced_node.Notification.Sockets.{
  JwtPayload, Step, connection, disconnection, to_user, to_admins, to_all, authenticate,
}
use advanced_node.Notification.Heard.{heard}
use advanced_node.Notification.Email.{LowStock, Parties, Desk}
use advanced_node.Notification.Consumers.{order_created, order_cancelled, low_stock}
use advanced_node.Notification.Notified.{Notified}
use advanced_node.Notification.Bindings.{Broker, Published, notice, product_created, deliver_all}
use advanced_node.Notification.Delivered.{matching, notices, deliver_all-Notified}
use advanced_node.Notification.Memory.{hall}

abbrev verify : String → Result JwtPayload
verify token =
    if token == "root"
    then ok (record { user_id = "ann"; email = "a@x"; role = "ADMIN" })
    else ok (record { user_id = "bob"; email = "b@x"; role = "USER" })

abbrev day : List (Step (hall ℕ))
day =
    connection 1 (some "root")
    ∷ connection 2 (some "other")
    ∷ connection 3 none
    ∷ to_admins "low-stock-alert" 7
    ∷ to_user "bob" "note" 8
    ∷ to_all "news" 9
    ∷ disconnection 1
    ∷ to_all "news" 10
    ∷ []

hears : heard (hall ℕ) verify 1 day [] ≡ ("low-stock-alert", 7) ∷ ("news", 9) ∷ []
unfolding heard authenticate
hears = refl

abbrev pub parties : Parties
parties = record {
  socket_io = hall LowStock;
  send_mail = λ m. if m.to == "nobody" then thrown (error "no such address") else ok tt;
  email_from = none;
  admin_email = none;
}

abbrev pub desk : App (Desk parties)
desk = record { db = record { mails = []; sockets = none }; errors = [] }

abbrev pub broker : Broker
broker = record {
  queues = λ bs exchange key. matching exchange key bs;
  queues_none = λ exchange key. refl;
  queues_bound = λ b bs exchange key plain once. refl;
}

abbrev published : List Published
published =
    notice (order_created (record { order_id = "o1"; user_id = "ann"; total = 5; items = [] }))
    ∷ product_created
    ∷ notice (order_cancelled (record { order_id = "o2"; user_id = "nobody" }))
    ∷ notice (low_stock (record { product_id = "p"; current_stock = pos 1; threshold = pos 2 }))
    ∷ []

deliver_all-Notified_example :
    Notified parties
      (λ e. true)
      (notices published)
      desk
      (deliver_all broker parties (λ e. true) (λ queue m s. ([], s)) published desk)
deliver_all-Notified_example =
    deliver_all-Notified broker parties (λ e. true) (λ queue m s. ([], s)) published desk
