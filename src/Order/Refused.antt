-- ===== src/Order/Refused.antt =====
-- An order whose payment is refused: the stock it had reserved is released twice.
use mathlib.Core.Option
use advanced_node.Common.{
  ℕ, String, ◌≡◌, refl, ap, ◌∙◌, true, false, Option, none, some, List, [], ◌∷◌, ◌++◌,
}
use advanced_node.Common.Int.{int_laws}
use advanced_node.Exec.{ok, thrown}
use advanced_node.Inventory.Repository.{Inventory, increment_reserved, decrement_reserved}
use advanced_node.Inventory.Changes.{demand}
use advanced_node.Inventory.Service.{Item, StockResponse}
use advanced_node.Order.Repository
use advanced_node.Order.Repository.{Order, Drawn}
use advanced_node.Order.Payment.{payment_result, process_payment}
use advanced_node.Order.World.{Parties, World}
use advanced_node.Order.StockQueue.{StockQueue}
use advanced_node.Order.Messaging
use advanced_node.Order.Settle.{charge}
use advanced_node.Order.Create.{totals_of, made}
use advanced_node.Order.Service.{
  CreateOrderData, payment_method, payment_failed, settle_payment, pay, place, create,
}

-- Reserving `n` and releasing `n` twice is one release.
twice :
    (n : ℕ) (i : Inventory)
    → decrement_reserved n (decrement_reserved n (increment_reserved n i)) ≡ decrement_reserved n i
twice n i = ap (λ r. record i { reserved_quantity = r }) (omega int_laws)

map_twice :
    (n : ℕ) (r : Option Inventory)
    → Option.map
        (decrement_reserved n)
        (Option.map (decrement_reserved n) (Option.map (increment_reserved n) r))
      ≡ Option.map (decrement_reserved n) r
map_twice n none = refl
map_twice n (some i) = ap some (twice n i)

module _ (q : StockQueue) where
  after_reserve :
      (items : List Item) (s s' : q.Stock) (r : StockResponse)
      → q.reserve items s ≡ (ok r, s')
      → r.success ≡ true
      → (id : String) → q.row s' id ≡ Option.map (increment_reserved (demand items id)) (q.row s id)
  after_reserve items s s' r e success = (rw e at (q.reserve_done items s)).holds success

  after_release :
      (items : List Item) (s s' : q.Stock) (r : StockResponse)
      → q.release items s ≡ (ok r, s')
      → r.success ≡ true
      → (id : String) → q.row s' id ≡ Option.map (decrement_reserved (demand items id)) (q.row s id)
  after_release items s s' r e success = (rw e at (q.release_done items s)).holds success

module _ (p : Parties) (drawn : Drawn) (d : CreateOrderData) (w : World p) where
  -- The calls that a refused payment leads to, each of which succeeds.
  pub record IsRefused : Type 0 where
    pub method : String
    pub given : payment_method d.payment_method_id ≡ some method
    pub refused :
        (payment_result (p.stripe (charge (made drawn d) method (totals_of d).total))).success
        ≡ false
    pub reservation : StockResponse
    pub stock1 : p.stock.Stock
    pub reserves : p.stock.reserve d.items w.stock ≡ (ok reservation, stock1)
    pub reserved : reservation.success ≡ true
    pub orders1 : p.orders.Db
    pub creates : p.orders.create (made drawn d) w.orders ≡ (ok (made drawn d), orders1)
    pub release1 : StockResponse
    pub stock2 : p.stock.Stock
    pub releases1 : p.stock.release d.items stock1 ≡ (ok release1, stock2)
    pub released1 : release1.success ≡ true
    pub release2 : StockResponse
    pub stock3 : p.stock.Stock
    pub releases2 : p.stock.release d.items stock2 ≡ (ok release2, stock3)
    pub released2 : release2.success ≡ true

  module _ (h : IsRefused) where
    refused_run : create p drawn d w ≡ (
      thrown payment_failed,
      record w {
        orders = h.orders1;
        stock = h.stock3;
        calls = w.calls ++ charge (made drawn d) h.method (totals_of d).total ∷ [];
      },
    )
    unfolding create place pay settle_payment Messaging.reserve_stock Messaging.release_stock
        process_payment Repository.create
    refused_run = rw h.reserves (
        rw h.reserved
          (rw h.creates (rw h.given (rw h.refused (rw h.releases1 (rw h.releases2 refl))))))

  -- When the provider refuses the payment and every call succeeds, `create` throws "Payment
  -- failed", the order stays in the table as it was made, and each product has its demand released
  -- twice: what is reserved of it ends one demand lower than before the call.
  pub create-releases_twice :
      (h : IsRefused)
      → ((create p drawn d w).0 ≡ thrown payment_failed)
        × ((create p drawn d w).1.orders ≡ h.orders1)
        × ((id : String)
            → p.stock.row (create p drawn d w).1.stock id
              ≡ Option.map (decrement_reserved (demand d.items id)) (p.stock.row w.stock id))
  create-releases_twice h = rw (refused_run h) (
    refl,
    refl,
    λ id.
        let n = demand d.items id in
        let row1 =
          after_reserve p.stock d.items w.stock h.stock1 h.reservation h.reserves h.reserved id in
        let row2 =
          after_release p.stock d.items h.stock1 h.stock2 h.release1 h.releases1 h.released1 id in
        let row3 =
          after_release p.stock d.items h.stock2 h.stock3 h.release2 h.releases2 h.released2 id in
        row3
        ∙ ap (Option.map (decrement_reserved n))
            (row2 ∙ ap (Option.map (decrement_reserved n)) row1)
        ∙ map_twice n (p.stock.row w.stock id),
  )
