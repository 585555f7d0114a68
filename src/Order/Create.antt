-- ===== src/Order/Create.antt =====
-- Placing an order: what it leaves in every part of the world, on every branch.
use mathlib.Core.Option
use advanced_node.Common.{
  ℕ, String, ◌≡◌, refl, ◌∙◌, true, false, Bool-cases, Option, none, some, inl, inr, List, [], ◌∷◌,
  ◌++◌, eq_refl, ◌==◌, if◌then◌else◌,
}
use advanced_node.Exec.{Exec, pure, throw, ◌>>=◌}
use advanced_node.Exec.Ensures.{Ensures, Ensures-bind, Ensures-weaken, Ensures-try}
use advanced_node.Prisma.Calls.{create-Ensures}
use advanced_node.Shared.Errors.{Exception}
use advanced_node.Inventory.Repository.{increment_reserved}
use advanced_node.Inventory.Changes.{demand}
use advanced_node.Inventory.Service.{Item, StockResponse}
use advanced_node.Order.Repository.{Order, Drawn, order_of}
use advanced_node.Order.Payment.{StripeCall, payment_result}
use advanced_node.Order.World.{Event, order_created, Parties, World, on_orders}
use advanced_node.Order.Messaging
use advanced_node.Order.Frames.{Ensures-on_orders, Ensures-answered}
use advanced_node.Order.Settle.{
  order_row, OnlyOrder, OnlyOrder-refl, OnlyOrder-trans, OnlyOrder-same, paid, charge, released,
  settle_payment-Settled,
}
use advanced_node.Order.Service.{
  CreateOrderData, Totals, new_order, calculate_totals, payment_method, pay, place, place_reserved,
  undo, create,
}

abbrev pub totals_of : CreateOrderData → Totals
totals_of d = calculate_totals d.items

-- The row that `create` makes, and that it returns.
abbrev pub made : Drawn → CreateOrderData → Order
made drawn d = order_of drawn (new_order d (totals_of d))

module _ (p : Parties) where
  -- What step 4 leaves, with and without a payment method.
  abbrev pub Charged :
      Order → ℕ → p.stock.Stock → List StripeCall → Option String → World p → Type 0
  Charged o amount stock calls none w' =
      (w'.stock ≡ stock) × (w'.calls ≡ calls) × (order_row p w' o.id ≡ some o)
  Charged o amount stock calls (some m) w' =
      ((payment_result (p.stripe (charge o m amount))).success ≡ true)
      × (w'.calls ≡ calls ++ charge o m amount ∷ [])
      × (order_row p w' o.id ≡ some (paid o))

  pay-Charged :
      (d : CreateOrderData) (totals : Totals) (o : Order) (m : Option String) (w : World p)
      → order_row p w o.id ≡ some o
      → Ensures
          (λ _ w'. Charged o totals.total w.stock w.calls m w' × OnlyOrder p o.id w w')
          (λ _ w'. OnlyOrder p o.id w w')
          (pay p d totals o m w)
  unfolding pay
  pay-Charged d totals o none w there = record {
    holds = ((refl, refl, there), OnlyOrder-refl p o.id w);
  }
  pay-Charged d totals o (some m) w there =
      let call = charge o m totals.total in
      let w1 : World p = record w { calls = w.calls ++ call ∷ [] } in
      Ensures-weaken _
        (settle_payment-Settled p d.items o (payment_result (p.stripe call)).success w1 there)
        (λ _ w' (taken, row, calls, only).
          ((taken, calls, row), record { others = only.others; silent = only.silent }))
        (λ _ w' only. record { others = only.others; silent = only.silent })

  Charged-events :
      (o : Order) (amount : ℕ) (stock : p.stock.Stock) (calls : List StripeCall) (m : Option String)
      (w' : World p) (events : List Event)
      → Charged o amount stock calls m w'
      → Charged o amount stock calls m (record w' { events = events })
  Charged-events o amount stock calls none w' events h = h
  Charged-events o amount stock calls (some m) w' events h = h

  abbrev pub announced : Drawn → CreateOrderData → World p → List Event
  announced drawn d w =
      let e =
        order_created drawn.order_id d.user_id (totals_of d).total d.items d.shipping_address in
      if p.publishes e then w.events ++ e ∷ [] else w.events

  -- The order was new and is the one returned; it is stored, paid for if a method was given, and
  -- announced; no other order is touched.
  abbrev pub Placed : Drawn → CreateOrderData → World p → Order → World p → Type 0
  Placed drawn d w o w' =
      (o ≡ made drawn d)
      × (order_row p w drawn.order_id ≡ none)
      × Charged (made drawn d) (totals_of d).total w.stock w.calls
          (payment_method d.payment_method_id) w'
      × ((j : String) → (drawn.order_id == j) ≡ false → order_row p w' j ≡ order_row p w j)
      × (w'.events ≡ announced drawn d w)

  -- What follows the creation of the row.
  abbrev after_creation : CreateOrderData → Order → Exec (World p) Order
  after_creation d o = pay p d (totals_of d) o (payment_method d.payment_method_id) >>= λ _.
      Messaging.publish p
        (order_created o.id d.user_id (totals_of d).total d.items d.shipping_address)
      >>= λ _. pure o

  after_creation-Placed :
      (drawn : Drawn) (d : CreateOrderData) (w : World p) (s : p.orders.Db)
      → order_row p w drawn.order_id ≡ none
      → ((j : String)
          → p.orders.row s j
            ≡ (if drawn.order_id == j then some (made drawn d) else p.orders.row w.orders j))
      → Ensures
          (Placed drawn d w)
          (λ _ w'. OnlyOrder p drawn.order_id w w')
          (after_creation d (made drawn d) (record w { orders = s }))
  unfolding order_of Messaging.publish
  after_creation-Placed drawn d w s fresh rows =
      let o = made drawn d in
      let w1 : World p = record w { orders = s } in
      let there : order_row p w1 o.id ≡ some o = rw eq_refl at (rows drawn.order_id) in
      let only : OnlyOrder p drawn.order_id w w1 = record {
        others = λ j ne. rw ne at (rows j);
        silent = refl;
      } in
      Ensures-bind (pay p d (totals_of d) o (payment_method d.payment_method_id)) _ w1
        (Ensures-weaken _
          (pay-Charged d (totals_of d) o (payment_method d.payment_method_id) w1 there)
          (λ _ w2 h. h) (λ _ w2 only2. OnlyOrder-trans p drawn.order_id w w1 w2 only only2))
        λ _ w2 (charged, only2). record {
          holds = (
            refl,
            fresh,
            Charged-events o (totals_of d).total w.stock w.calls
                (payment_method d.payment_method_id) w2 _ charged,
            λ j ne. only2.others j ne ∙ only.others j ne,
            rw only2.silent refl,
          );
        }

  place-Placed :
      (drawn : Drawn) (d : CreateOrderData) (w : World p)
      → Ensures (Placed drawn d w) (λ _ w'. OnlyOrder p drawn.order_id w w') (place p drawn d w)
  unfolding place order_of
  place-Placed drawn d w =
      Ensures-bind (on_orders (p.orders.create (made drawn d))) _ w
        (Ensures-weaken _
          (Ensures-on_orders p (p.orders.create (made drawn d)) w
            (create-Ensures p.orders (made drawn d) w.orders))
          (λ o w1 h. h)
          (λ e w1 (s, same, failure).
            rw same (record { others = λ j ne. failure.1 j; silent = refl })))
        λ o w1 (s, same, (fresh, new, rows)).
          rw same (rw new (after_creation-Placed drawn d w s fresh rows))

  -- What a reservation of the items makes of the stock.
  abbrev pub Reserved : List Item → World p → p.stock.Stock → Type 0
  Reserved items w stock =
      (id : String)
      → p.stock.row stock id
        ≡ Option.map (increment_reserved (demand items id)) (p.stock.row w.stock id)

  undone :
      (id : String) (items : List Item) (e : Exception) (w w' : World p)
      → OnlyOrder p id w w'
      → Ensures (λ _ _. ⊥) (λ _ w''. OnlyOrder p id w w'') (undo p items e w')
  undone id items e w w' only =
      Ensures-bind (Messaging.release_stock p items) (λ _. throw e) w'
        (Ensures-weaken _ (released p items w') (λ _ w2 h. h) (λ _ w2 h. absurd h))
        λ _ w2 (orders2, calls2, events2). record {
          holds = OnlyOrder-trans p id w w' w2 only (OnlyOrder-same p id w' w2 orders2 events2);
        }

  place_reserved-Placed :
      (drawn : Drawn) (d : CreateOrderData) (w : World p) (r : StockResponse)
      (stock : p.stock.Stock)
      → (r.success ≡ true → Reserved d.items w stock)
      → Ensures
          (λ o w'.
            (stock : p.stock.Stock) × Reserved d.items w stock
            × Placed drawn d (record w { stock = stock }) o w')
          (λ _ w'. OnlyOrder p drawn.order_id w w')
          (place_reserved p drawn d r (record w { stock = stock }))
  place_reserved-Placed drawn d w r stock promise =
      let w1 : World p = record w { stock = stock } in
      elim (Bool-cases r.success) [
        | inl accepted ↦ rw accepted (
            Ensures-try (place p drawn d) (undo p d.items) w1
              (Ensures-weaken _ (place-Placed drawn d w1)
                (λ o w2 placed. (stock, promise accepted, placed)) (λ _ w2 only. only))
              λ e w2 only.
                Ensures-weaken _ (undone drawn.order_id d.items e w1 w2 only) (λ _ w3 h. absurd h)
                  (λ _ w3 h. record { others = h.others; silent = h.silent }))
        | inr refused ↦
            rw refused (record { holds = record { others = λ j ne. refl; silent = refl } })
      ]

  pub create-Placed :
      (drawn : Drawn) (d : CreateOrderData) (w : World p)
      → Ensures
          (λ o w'.
            (stock : p.stock.Stock) × Reserved d.items w stock
            × Placed drawn d (record w { stock = stock }) o w')
          (λ _ w'. OnlyOrder p drawn.order_id w w')
          (create p drawn d w)
  unfolding create Messaging.reserve_stock
  create-Placed drawn d w =
      Ensures-bind (Messaging.reserve_stock p d.items) (place_reserved p drawn d) w
        (Ensures-weaken _
          (Ensures-answered p _ (p.stock.reserve d.items) w (p.stock.reserve_done d.items w.stock))
          (λ r w1 h. h) (λ _ w1 h. absurd h))
        λ r w1 (stock, same, promise). rw same (place_reserved-Placed drawn d w r stock promise)
