-- ===== src/Notification/Delivered.antt =====
-- What comes of the events that the services publish.
use mathlib.Core.Path.{subst}
use advanced_node.Common.{
  String, ◌≡◌, refl, sym, ap, ◌∙◌, Bool, true, false, List, [], ◌∷◌, ◌++◌, ◌==◌, ◌&&◌,
  if◌then◌else◌, eq_refl,
}
use advanced_node.Shared.AddErrorHelper.{ErrorEntry, App}
use advanced_node.Shared.Channels.{exchange_name, routing_key, queue_name}
use advanced_node.Rpc.Server.{Action}
use advanced_node.Notification.Email.{Parties, Desk}
use advanced_node.Notification.Consumers.{
  Event, order_created, order_cancelled, order_confirmed, low_stock, served, serve_all,
}
use advanced_node.Notification.Bindings.{
  Broker, Binding, is_plain, is_bound, Published, notice, inventory_updated, product_created,
  product_updated, product_deleted, exchange_of, topic_of, setup_queues, at_queues, deliver,
  deliver_all,
}
use advanced_node.Notification.Notified.{Notified, serve_all-Notified}

abbrev pub notices : List Published → List Event
notices [] = []
notices (notice e ∷ ms) = e ∷ notices ms
notices (m ∷ ms) = notices ms

-- The queues bound by the very exchange and key.
abbrev pub matching : (exchange key : String) → List Binding → List String
matching exchange key [] = []
matching exchange key (b ∷ bs) =
    let rest = matching exchange key bs in
    if (b.exchange == exchange) && (b.pattern == key) then b.queue ∷ rest else rest

-- Every binding has a plain pattern and a queue of its own.
abbrev AreDistinct : List Binding → Type 0
AreDistinct [] = Unit {0}
AreDistinct (b ∷ bs) = (is_plain b.pattern ≡ true) × (is_bound b.queue bs ≡ false) × AreDistinct bs

module _ (broker : Broker) where
  queues-matching :
      (exchange key : String) (bs : List Binding)
      → AreDistinct bs
      → broker.queues bs exchange key ≡ matching exchange key bs
  queues-matching exchange key [] h = broker.queues_none exchange key
  queues-matching exchange key (b ∷ bs) (plain, once, h) =
      broker.queues_bound b bs exchange key plain once
      ∙ ap (λ rest. if (b.exchange == exchange) && (b.pattern == key) then b.queue ∷ rest else rest)
          (queues-matching exchange key bs h)

  abbrev queues_of : Published → List String
  queues_of m =
      broker.queues setup_queues (exchange_name (exchange_of m)) (routing_key (topic_of m))

  bound_queues :
      (m : Published)
      → queues_of m
        ≡ matching (exchange_name (exchange_of m)) (routing_key (topic_of m)) setup_queues
  bound_queues m =
      queues-matching _ _ setup_queues (refl, refl, (refl, refl, (refl, refl, (refl, refl, tt))))

  -- A message about an order or low stock reaches the queue of its own topic alone.
  own_queue : (e : Event) → queues_of (notice e) ≡ queue_name (topic_of (notice e)) ∷ []
  own_queue (order_created d) = bound_queues (notice (order_created d))
  own_queue (order_cancelled d) = bound_queues (notice (order_cancelled d))
  own_queue (order_confirmed order_id user_id) =
      bound_queues (notice (order_confirmed order_id user_id))
  own_queue (low_stock d) = bound_queues (notice (low_stock d))

  module _ (p : Parties) (stores : ErrorEntry → Bool)
      (stray : String → Published → App (Desk p) → List (Action Event) × App (Desk p)) where
    deliver-notice :
        (e : Event) (s : App (Desk p))
        → deliver broker p stores stray (notice e) s
          ≡ ((served p stores e s).0 ∷ [], (served p stores e s).1)
    unfolding deliver
    deliver-notice e s =
        ap (λ qs. at_queues broker p stores stray qs (notice e) s) (own_queue e)
        ∙ (rw (eq_refl (queue_name (topic_of (notice e)))) refl)

    -- A message that reaches no queue.
    skipped :
        (m : Published) (ms : List Published) (s : App (Desk p))
        → queues_of m ≡ []
        → deliver_all broker p stores stray (m ∷ ms) s ≡ deliver_all broker p stores stray ms s
    unfolding deliver_all deliver
    skipped m ms s none_reached =
        ap
          (λ qs.
            let first = at_queues broker p stores stray qs m s in
            let rest = deliver_all broker p stores stray ms first.1 in (first.0 ++ rest.0, rest.1))
          none_reached

    deliver_all-serve_all :
        (ms : List Published) (s : App (Desk p))
        → deliver_all broker p stores stray ms s ≡ serve_all p stores (notices ms) s
    unfolding deliver_all deliver serve_all
    deliver_all-serve_all [] s = refl
    deliver_all-serve_all (notice e ∷ ms) s =
        let s1 : App (Desk p) = (served p stores e s).1 in
        ap (λ d. let rest = deliver_all broker p stores stray ms d.1 in (d.0 ++ rest.0, rest.1))
          (deliver-notice e s)
        ∙ ap (λ rest. ((served p stores e s).0 ∷ rest.0, rest.1)) (deliver_all-serve_all ms s1)
    deliver_all-serve_all (inventory_updated ∷ ms) s =
        skipped inventory_updated ms s (bound_queues inventory_updated) ∙ deliver_all-serve_all ms s
    deliver_all-serve_all (product_created ∷ ms) s =
        skipped product_created ms s (bound_queues product_created) ∙ deliver_all-serve_all ms s
    deliver_all-serve_all (product_updated ∷ ms) s =
        skipped product_updated ms s (bound_queues product_updated) ∙ deliver_all-serve_all ms s
    deliver_all-serve_all (product_deleted ∷ ms) s =
        skipped product_deleted ms s (bound_queues product_deleted) ∙ deliver_all-serve_all ms s

    -- Whatever the services publish, in any order, one message after another: each event of an order
    -- and each alert of low stock comes to one consumer, that of its own queue, and no other event
    -- comes to any. So this is what the events leave. A message is acknowledged if its mail was
    -- taken, or if it asks for none, and else dropped. The mails sent are those taken, in the events'
    -- order. Each mail refused leaves two rows of errors, under the mail's name and the consumer's,
    -- where the table takes them, and no other rows appear. A socket in the room of the
    -- administrators receives the low-stock alerts whose mail was taken, in order, and a socket
    -- outside it receives nothing.
    pub deliver_all-Notified :
        (ms : List Published) (s : App (Desk p))
        → Notified p stores (notices ms) s (deliver_all broker p stores stray ms s)
    deliver_all-Notified ms s =
        subst (Notified p stores (notices ms) s) (sym (deliver_all-serve_all ms s))
          (serve_all-Notified p stores (notices ms) s)
