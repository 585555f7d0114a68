-- ===== src/Notification/Grown.antt =====
-- What one consumer of src/services/notification makes of one event.
use mathlib.Core.List.{append-nil, append_assoc}
use advanced_node.Common.{
  String, ◌≡◌, refl, ap, sym, ◌∙◌, Bool, true, false, Option, none, some, List, [], ◌∷◌, ◌++◌,
  if◌then◌else◌,
}
use advanced_node.Exec.{Result, ok, thrown, ◌>>=◌}
use advanced_node.Shared.Errors.{Exception}
use advanced_node.Shared.AddErrorHelper.{ErrorEntry, App, entry, add_error_helper}
use advanced_node.Rpc.Server.{Action, ack, nack, consume_message}
use advanced_node.Notification.Sockets.{Sockets, emit_to_admins}
use advanced_node.Notification.Email.{
  Mail, LowStock, Parties, Desk, confirmation_mail, cancellation_mail, low_stock_mail, taken,
  logging, send_order_confirmation, send_order_cancellation, send_low_stock_alert,
}
use advanced_node.Notification.Consumers.{
  Event, order_created, order_cancelled, order_confirmed, low_stock, event_message, tell_admins,
  consumer, served, order_created_consumer, order_cancelled_consumer, order_confirmed_consumer,
  low_stock_alert_consumer,
}

abbrev pub verdict : Result (Unit {0}) → List (Action Event)
verdict (ok tt) = ack ∷ []
verdict (thrown x) = nack ∷ []

kept_if :
    {A : Type 0} (b : Bool) (l : List A) (x : A)
    → (if b then l ++ x ∷ [] else l) ≡ l ++ (if b then x ∷ [] else [])
kept_if true l x = refl
kept_if false l x = sym (append-nil l)

module _ (p : Parties) (stores : ErrorEntry → Bool) where
  -- The mail that an event asks for, and what the transport says to it.
  abbrev pub mail_for : Event → Option Mail
  mail_for (order_created d) = some (confirmation_mail p d)
  mail_for (order_cancelled d) = some (cancellation_mail p d)
  mail_for (order_confirmed order_id user_id) = none
  mail_for (low_stock d) = some (low_stock_mail p d)

  abbrev pub posted : Option Mail → Result (Unit {0})
  posted none = ok tt
  posted (some m) = p.send_mail m

  abbrev pub outcome : Event → Result (Unit {0})
  outcome e = posted (mail_for e)

  abbrev pub listed : {A : Type 0} → Option A → List A
  listed none = []
  listed (some a) = a ∷ []

  abbrev pub sent : Event → Result (Unit {0}) → List Mail
  sent e (ok tt) = listed (mail_for e)
  sent e (thrown x) = []

  -- The names under which the mail's failure and the consumer's are stored.
  abbrev pub names : Event → String × String
  names (order_created d) =
      ("EmailService.sendOrderConfirmation", "MessagingService.orderCreatedConsumer")
  names (order_cancelled d) =
      ("EmailService.sendOrderCancellation", "MessagingService.orderCancelledConsumer")
  names (order_confirmed order_id user_id) = ("", "MessagingService.orderConfirmedConsumer")
  names (low_stock d) = ("EmailService.sendLowStockAlert", "MessagingService.lowStockAlertConsumer")

  abbrev pub row : String → Exception → List ErrorEntry
  row api x = if stores (entry api x) then entry api x ∷ [] else []

  abbrev pub stored : Event → Result (Unit {0}) → List ErrorEntry
  stored e (ok tt) = []
  stored e (thrown x) = row (names e).0 x ++ row (names e).1 x

  abbrev pub alert_for : Event → List LowStock
  alert_for (order_created d) = []
  alert_for (order_cancelled d) = []
  alert_for (order_confirmed order_id user_id) = []
  alert_for (low_stock d) = d ∷ []

  abbrev pub alerts : Event → Result (Unit {0}) → List LowStock
  alerts e (ok tt) = alert_for e
  alerts e (thrown x) = []

  abbrev pub told : List LowStock → Sockets p.socket_io → Sockets p.socket_io
  told [] io = io
  told (d ∷ ds) io = told ds (emit_to_admins p.socket_io "low-stock-alert" d io)

  -- After one event whose mail came to `r`.
  pub record Grown (e : Event) (r : Result (Unit {0})) (s : App (Desk p))
      (out : List (Action Event) × App (Desk p)) : Type 0 where
    pub verdict : out.0 ≡ verdict r
    pub mails : out.1.db.mails ≡ s.db.mails ++ sent e r
    pub errors : out.1.errors ≡ s.errors ++ stored e r
    pub sockets : out.1.db.sockets ≡ told (alerts e r) s.db.sockets

  both_rows :
      (e : Event) (x : Exception) (errors : List ErrorEntry)
      → (if stores (entry (names e).1 x)
          then (if stores (entry (names e).0 x) then errors ++ entry (names e).0 x ∷ [] else errors)
            ++ entry (names e).1 x ∷ []
          else (if stores (entry (names e).0 x)
              then errors ++ entry (names e).0 x ∷ []
              else errors))
        ≡ errors ++ stored e (thrown x)
  both_rows e x errors =
      kept_if (stores (entry (names e).1 x)) _ (entry (names e).1 x)
      ∙ ap (λ l. l ++ row (names e).1 x)
          (kept_if (stores (entry (names e).0 x)) errors (entry (names e).0 x))
      ∙ append_assoc errors (row (names e).0 x) (row (names e).1 x)

  -- A consumer that fails leaves the mails and the sockets alone, whatever it was to do after the
  -- mail.
  refused-Grown :
      (e : Event) (x : Exception) (s : App (Desk p))
      → Grown e (thrown x) s (
          consume_message
            (λ body.
              logging p stores (names e).1 (logging p stores (names e).0 (λ s. (thrown x, s))))
            (event_message e)
            s)
  unfolding consume_message logging add_error_helper
  refused-Grown e x s = record {
    verdict = refl;
    mails = sym (append-nil s.db.mails);
    errors = both_rows e x s.errors;
    sockets = refl;
  }

  -- The consumers of orders, whose mail came to `r`.
  mailed-Grown :
      (e : Event) (m : Mail) (r : Result (Unit {0})) (s : App (Desk p))
      → mail_for e ≡ some m
      → alert_for e ≡ []
      → Grown e r s (
          consume_message
            (λ body. logging p stores (names e).1 (logging p stores (names e).0 (taken p m r)))
            (event_message e)
            s)
  unfolding consume_message logging
  mailed-Grown e m (ok tt) s h none_told = record {
    verdict = refl;
    mails = ap (λ o. s.db.mails ++ listed o) (sym h);
    errors = sym (append-nil s.errors);
    sockets = ap (λ ds. told ds s.db.sockets) (sym none_told);
  }
  mailed-Grown e m (thrown x) s h none_told = refused-Grown e x s

  alert-Grown :
      (d : LowStock) (r : Result (Unit {0})) (s : App (Desk p))
      → Grown (low_stock d) r s (
          consume_message
            (λ body. logging p stores "MessagingService.lowStockAlertConsumer" do
              _ ← logging p stores "EmailService.sendLowStockAlert" (taken p (low_stock_mail p d) r)
              tell_admins p d)
            (event_message (low_stock d))
            s)
  unfolding consume_message logging
  alert-Grown d (ok tt) s = record {
    verdict = refl;
    mails = refl;
    errors = sym (append-nil s.errors);
    sockets = refl;
  }
  alert-Grown d (thrown x) s = refused-Grown (low_stock d) x s

  pub served-Grown : (e : Event) (s : App (Desk p)) → Grown e (outcome e) s (served p stores e s)
  unfolding served consumer order_created_consumer order_cancelled_consumer order_confirmed_consumer
      low_stock_alert_consumer send_order_confirmation send_order_cancellation send_low_stock_alert
      consume_message logging
  served-Grown (order_created d) s =
      mailed-Grown (order_created d) (confirmation_mail p d) (p.send_mail (confirmation_mail p d)) s
        refl refl
  served-Grown (order_cancelled d) s =
      mailed-Grown (order_cancelled d) (cancellation_mail p d) (p.send_mail (cancellation_mail p d))
        s refl refl
  served-Grown (order_confirmed order_id user_id) s = record {
    verdict = refl;
    mails = sym (append-nil s.db.mails);
    errors = sym (append-nil s.errors);
    sockets = refl;
  }
  served-Grown (low_stock d) s = alert-Grown d (p.send_mail (low_stock_mail p d)) s
