-- ===== src/Order/Cancel.antt =====
-- Cancelling an order: what it leaves on every branch, and over a run of requests.
use advanced_node.Common.{
  String, ◌≡◌, refl, sym, ap, ◌∙◌, true, Bool-cases, Option, none, some, inl, inr, List, [], ◌∷◌,
  ◌++◌, map, eq_iff, ◌==◌, if◌then◌else◌,
}
use advanced_node.Exec.{Exec, pure, ◌>>=◌}
use advanced_node.Exec.Ensures.{Ensures, Ensures-bind, Ensures-weaken}
use advanced_node.Prisma.Calls.{find_unique-Ensures, update-Ensures}
use advanced_node.Order.Repository
use advanced_node.Order.Repository.{Order, OrderStatus, OrderTable, Drawn, set_status}
use advanced_node.Order.World.{Event, order_cancelled, Parties, World, on_orders}
use advanced_node.Order.Messaging
use advanced_node.Order.Frames.{Ensures-on_orders}
use advanced_node.Order.Settle.{order_row, released}
use advanced_node.Order.Service.{is_cancellable, item_of, cancel_found, cancel_order, cancel}

module _ (p : Parties) where
  -- No order, no payment and no event differs.
  pub record NothingButStock (w w' : World p) : Type 0 where
    pub rows : (j : String) → order_row p w' j ≡ order_row p w j
    pub calls : w'.calls ≡ w.calls
    pub events : w'.events ≡ w.events

  abbrev pub withdrawn : String → String → Order → World p → List Event
  withdrawn id user_id o w =
      let e = order_cancelled id user_id (map item_of o.items) in
      if p.publishes e then w.events ++ e ∷ [] else w.events

  -- The order was the caller's and could be cancelled; it is now, alone, and announced; the
  -- provider is not called.
  abbrev pub Cancelled : String → String → World p → Order → World p → Type 0
  Cancelled id user_id w o w' =
      (old : Order) × (order_row p w id ≡ some old)
      × (old.user_id ≡ user_id)
      × (is_cancellable old.status ≡ true)
      × (o ≡ set_status OrderStatus.cancelled old)
      × ((j : String) → order_row p w' j ≡ (if id == j then some o else order_row p w j))
      × (w'.calls ≡ w.calls)
      × (w'.events ≡ withdrawn id user_id old w)

  -- What follows the message to the inventory.
  abbrev mark_cancelled : String → String → Order → Exec (World p) Order
  mark_cancelled id user_id old =
      on_orders (Repository.update_status p.orders id OrderStatus.cancelled) >>= λ o.
      Messaging.publish p (order_cancelled id user_id (map item_of old.items)) >>= λ _. pure o

  mark-Cancelled :
      (id user_id : String) (old : Order) (w w1 : World p)
      → order_row p w id ≡ some old
      → old.user_id ≡ user_id
      → is_cancellable old.status ≡ true
      → w1.orders ≡ w.orders
      → w1.calls ≡ w.calls
      → w1.events ≡ w.events
      → Ensures
          (Cancelled id user_id w)
          (λ _ w'. NothingButStock w w')
          (mark_cancelled id user_id old w1)
  unfolding Repository.update_status Messaging.publish
  mark-Cancelled id user_id old w w1 there own open_still orders1 calls1 events1 =
      Ensures-bind (on_orders (p.orders.update id (set_status OrderStatus.cancelled))) _ w1
        (Ensures-weaken _
          (Ensures-on_orders p (p.orders.update id (set_status OrderStatus.cancelled)) w1
            (update-Ensures p.orders id (set_status OrderStatus.cancelled) w1.orders))
          (λ o w2 h. h)
          (λ e w2 (s, same, failure). rw same (record {
            rows = λ j. failure.1 j ∙ ap (λ db. p.orders.row db j) orders1;
            calls = calls1;
            events = events1;
          })))
        λ o w2 (s, same, (found, at_id, made, rows)).
          let found_old : old ≡ found = cc (ap (λ db. p.orders.row db id) orders1) in
          let there' : order_row p w id ≡ some found = there ∙ ap some found_old in
          rw same (record {
            holds = (
              found,
              there',
              cc,
              cc,
              made,
              (λ j. rw made (rw orders1 at (rows j))),
              calls1,
              rw events1 (rw found_old refl),
            );
          })

  cancel_found-Cancelled :
      (id user_id : String) (old : Order) (w : World p)
      → order_row p w id ≡ some old
      → Ensures
          (Cancelled id user_id w)
          (λ _ w'. NothingButStock w w')
          (cancel_found p id user_id old w)
  unfolding Repository.update_status Messaging.publish
  cancel_found-Cancelled id user_id old w there = elim (Bool-cases (old.user_id == user_id)) [
    | inr other ↦ rw other (record { holds = same })
    | inl own ↦ rw own (elim (Bool-cases (is_cancellable old.status)) [
      | inr closed ↦ rw closed (record { holds = same })
      | inl still_open ↦ rw still_open (
          Ensures-bind (Messaging.release_stock p (map item_of old.items)) _ w
            (Ensures-weaken _ (released p (map item_of old.items) w) (λ _ w1 h. h)
              (λ _ w1 h. absurd h))
            λ _ w1 (orders1, calls1, events1).
              mark-Cancelled id user_id old w w1 there ((eq_iff old.user_id user_id).0 own)
                still_open orders1 calls1 events1)
    ])
  ]
    where
      same : NothingButStock w w
      same = record { rows = λ j. refl; calls = refl; events = refl }

  cancel_order-Cancelled :
      (id user_id : String) (r : Option Order) (w : World p)
      → order_row p w id ≡ r
      → Ensures
          (Cancelled id user_id w)
          (λ _ w'. NothingButStock w w')
          (cancel_order p id user_id r w)
  cancel_order-Cancelled id user_id none w there = record {
    holds = record { rows = λ j. refl; calls = refl; events = refl };
  }
  cancel_order-Cancelled id user_id (some o) w there = cancel_found-Cancelled id user_id o w there

  looked_up :
      (id : String) (w : World p)
      → Ensures
          (λ r w'. (r ≡ order_row p w id) × (w' ≡ w))
          (λ _ w'. NothingButStock w w')
          (on_orders (Repository.find_by_id p.orders id) w)
  unfolding Repository.find_by_id
  looked_up id w =
      Ensures-weaken _
        (Ensures-on_orders p (Repository.find_by_id p.orders id) w
          (find_unique-Ensures p.orders id w.orders))
        (λ r w1 (s, same, (found, unchanged)).
          (found, same ∙ ap (λ db. record w { orders = db }) unchanged))
        (λ e w1 (s, same, (foreign, unchanged)). rw same (record {
          rows = λ j. ap (λ db. p.orders.row db j) unchanged;
          calls = refl;
          events = refl;
        }))

  pub cancel-Cancelled :
      (id user_id : String) (w : World p)
      → Ensures (Cancelled id user_id w) (λ _ w'. NothingButStock w w') (cancel p id user_id w)
  unfolding cancel Repository.find_by_id
  cancel-Cancelled id user_id w =
      Ensures-bind (on_orders (Repository.find_by_id p.orders id)) (cancel_order p id user_id) w
        (looked_up id w)
        λ r w1 (found, untouched). rw untouched (cancel_order-Cancelled id user_id r w (sym found))
