-- ===== src/Order/Settle.antt =====
-- What a change of one order, a message to the inventory and step 4 of `create` leave in the world.
use advanced_node.Common.{
  ℕ, String, ◌≡◌, refl, ap, ◌∙◌, Bool, true, false, Option, some, List, eq_refl, ◌==◌,
}
use advanced_node.Exec.{pure, throw}
use advanced_node.Exec.Ensures.{Ensures, Ensures-bind, Ensures-weaken}
use advanced_node.Prisma.Calls.{update-Ensures}
use advanced_node.Inventory.Service.{Item}
use advanced_node.Order.Repository
use advanced_node.Order.Repository.{
  Order, OrderStatus, PaymentStatus, OrderTable, Drawn, order_of, set_status, set_payment_status,
}
use advanced_node.Order.Payment.{StripeCall, create_intent, intent_request}
use advanced_node.Order.World.{Parties, World, on_orders}
use advanced_node.Order.Messaging
use advanced_node.Order.Frames.{Ensures-on_orders, Ensures-answered}
use advanced_node.Order.Service.{payment_failed, settle_payment}

-- The order as it stands once it is paid for.
abbrev pub paid : Order → Order
paid o = set_status OrderStatus.confirmed (set_payment_status PaymentStatus.completed o)

-- The call to the provider for an order of the service's one total.
abbrev pub charge : Order → String → ℕ → StripeCall
charge o m amount =
    create_intent
      (intent_request (record { order_id = o.id; amount = amount; payment_method_id = m }))

module _ (p : Parties) where
  abbrev pub order_row : World p → String → Option Order
  order_row w id = p.orders.row w.orders id

  -- No order but the one at `id` is touched, and no event is sent.
  pub record OnlyOrder (id : String) (w w' : World p) : Type 0 where
    pub others : (j : String) → (id == j) ≡ false → order_row w' j ≡ order_row w j
    pub silent : w'.events ≡ w.events

  pub updated :
      (id : String) (f : Order → Order) (o : Order) (w : World p)
      → order_row w id ≡ some o
      → Ensures
          (λ _ w'. (order_row w' id ≡ some (f o)) × (w'.calls ≡ w.calls) × OnlyOrder id w w')
          (λ _ w'. OnlyOrder id w w')
          (on_orders (p.orders.update id f) w)
  updated id f o w there =
      Ensures-weaken _
        (Ensures-on_orders p (p.orders.update id f) w (update-Ensures p.orders id f w.orders))
        (λ r w' (s, same, (old, at_id, made, rows)). rw same (
          let e : old ≡ o = cc in (rw eq_refl at (rows id)) ∙ ap (λ x. some (f x)) e,
          refl,
          record { others = λ j ne. rw ne at (rows j); silent = refl },
        ))
        (λ e w' (s, same, failure).
          rw same (record { others = λ j ne. failure.1 j; silent = refl }))

  pub OnlyOrder-refl : (id : String) (w : World p) → OnlyOrder id w w
  OnlyOrder-refl id w = record { others = λ j ne. refl; silent = refl }

  pub OnlyOrder-trans :
      (id : String) (a b c : World p) → OnlyOrder id a b → OnlyOrder id b c → OnlyOrder id a c
  OnlyOrder-trans id a b c h k = record {
    others = λ j ne. k.others j ne ∙ h.others j ne;
    silent = k.silent ∙ h.silent;
  }

  -- A message to the inventory touches no order.
  pub released :
      (items : List Item) (w : World p)
      → Ensures
          (λ _ w'. (w'.orders ≡ w.orders) × (w'.calls ≡ w.calls) × (w'.events ≡ w.events))
          (λ _ w'. ⊥)
          (Messaging.release_stock p items w)
  unfolding Messaging.release_stock
  released items w =
      Ensures-weaken _
        (Ensures-answered p _ (p.stock.release items) w (p.stock.release_done items w.stock))
        (λ a w' (s, same, promise). rw same (refl, refl, refl)) (λ e w' h. h)

  pub confirmed_stock :
      (items : List Item) (w : World p)
      → Ensures
          (λ _ w'. (w'.orders ≡ w.orders) × (w'.calls ≡ w.calls) × (w'.events ≡ w.events))
          (λ _ w'. ⊥)
          (Messaging.confirm_reservation p items w)
  unfolding Messaging.confirm_reservation
  confirmed_stock items w =
      Ensures-weaken _
        (Ensures-answered p _ (p.stock.confirm items) w (p.stock.confirm_done items w.stock))
        (λ a w' (s, same, promise). rw same (refl, refl, refl)) (λ e w' h. h)

  pub OnlyOrder-same :
      (id : String) (w w' : World p)
      → w'.orders ≡ w.orders
      → w'.events ≡ w.events
      → OnlyOrder id w w'
  OnlyOrder-same id w w' e f = record { others = λ j ne. ap (λ d. p.orders.row d j) e; silent = f }

  -- What step 4 leaves when the provider took the money, and when it did not.
  abbrev pub Settled : Order → World p → Bool → World p → Type 0
  Settled o w paid_for w' =
      (paid_for ≡ true)
      × (order_row w' o.id ≡ some (paid o))
      × (w'.calls ≡ w.calls)
      × OnlyOrder o.id w w'

  pub settle_payment-Settled :
      (items : List Item) (o : Order) (taken : Bool) (w : World p)
      → order_row w o.id ≡ some o
      → Ensures
          (λ _ w'. Settled o w taken w')
          (λ _ w'. OnlyOrder o.id w w')
          (settle_payment p items o taken w)
  unfolding settle_payment
  settle_payment-Settled items o true w there =
      Ensures-bind
        (on_orders (Repository.update_payment_status p.orders o.id PaymentStatus.completed)) _ w
        (updated o.id (set_payment_status PaymentStatus.completed) o w there)
        λ _ w1 (row1, calls1, only1).
          Ensures-bind (on_orders (Repository.update_status p.orders o.id OrderStatus.confirmed)) _
            w1
            (Ensures-weaken _
              (updated o.id (set_status OrderStatus.confirmed)
                (set_payment_status PaymentStatus.completed o) w1 row1)
              (λ _ w2 h. h) (λ _ w2 h. OnlyOrder-trans o.id w w1 w2 only1 h))
            λ _ w2 (row2, calls2, only2).
              Ensures-bind (Messaging.confirm_reservation p items) (λ _. pure tt) w2
                (Ensures-weaken _ (confirmed_stock items w2) (λ _ w3 h. h) (λ e w3 h. absurd h))
                λ _ w3 (orders3, calls3, events3). record {
                  holds = (
                    refl,
                    ap (λ d. p.orders.row d o.id) orders3 ∙ row2,
                    calls3 ∙ calls2 ∙ calls1,
                    OnlyOrder-trans o.id w w1 w3 only1 (
                        OnlyOrder-trans o.id w1 w2 w3 only2
                          (OnlyOrder-same o.id w2 w3 orders3 events3)),
                  );
                }
  settle_payment-Settled items o false w there =
      Ensures-bind (Messaging.release_stock p items) (λ _. throw payment_failed) w
        (Ensures-weaken _ (released items w) (λ _ w1 h. h) (λ e w1 h. absurd h))
        λ _ w1 (orders1, calls1, events1). record {
          holds = OnlyOrder-same o.id w w1 orders1 events1;
        }
