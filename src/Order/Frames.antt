-- ===== src/Order/Frames.antt =====
-- A call on one part of the world leaves the other parts as they were.
use advanced_node.Common.{◌≡◌, refl, true}
use advanced_node.Exec.{Exec, Result, ok, thrown, pure, try_catch}
use advanced_node.Exec.Ensures.{Ensures, Outcome, Ensures-try}
use advanced_node.Shared.Errors.{Exception}
use advanced_node.Inventory.Service.{StockResponse}
use advanced_node.Order.World.{Parties, World, on_orders, on_stock}
use advanced_node.Order.Messaging.{no_answer}

module _ (p : Parties) {A : Type 0} where
  orders-Outcome :
      (P : A → p.orders.Db → Type 0) (E : Exception → p.orders.Db → Type 0) (w : World p)
      (r : Result A) (s : p.orders.Db)
      → Outcome P E r s
      → Outcome
          (λ a w'. (s : p.orders.Db) × (w' ≡ record w { orders = s }) × P a s)
          (λ e w'. (s : p.orders.Db) × (w' ≡ record w { orders = s }) × E e s)
          r
          (record w { orders = s })
  orders-Outcome P E w (ok a) s h = (s, refl, h)
  orders-Outcome P E w (thrown e) s h = (s, refl, h)

  pub Ensures-on_orders :
      {P : A → p.orders.Db → Type 0} {E : Exception → p.orders.Db → Type 0} (m : Exec p.orders.Db A)
      (w : World p)
      → Ensures P E (m w.orders)
      → Ensures
          (λ a w'. (s : p.orders.Db) × (w' ≡ record w { orders = s }) × P a s)
          (λ e w'. (s : p.orders.Db) × (w' ≡ record w { orders = s }) × E e s)
          (on_orders m w)
  Ensures-on_orders {P} {E} m w h = record {
    holds = orders-Outcome P E w (m w.orders).0 (m w.orders).1 h.holds;
  }

module _ (p : Parties) where
  -- An RPC call with its errors turned into an answer: it always returns, and success keeps its
  -- promise.
  answered-Outcome :
      (P : p.stock.Stock → Type 0) (w : World p) (r : Result StockResponse) (s : p.stock.Stock)
      → Outcome (λ a s'. a.success ≡ true → P s') (λ e s'. Unit {0}) r s
      → Outcome
          (λ a w'.
            (s' : p.stock.Stock) × (w' ≡ record w { stock = s' }) × (a.success ≡ true → P s'))
          (λ e w'. (s' : p.stock.Stock) × (w' ≡ record w { stock = s' }))
          r
          (record w { stock = s })
  answered-Outcome P w (ok a) s h = (s, refl, h)
  answered-Outcome P w (thrown e) s h = (s, refl)

  pub Ensures-answered :
      (P : p.stock.Stock → Type 0) (m : Exec p.stock.Stock StockResponse) (w : World p)
      → Ensures (λ a s'. a.success ≡ true → P s') (λ e s'. Unit {0}) (m w.stock)
      → Ensures
          (λ a w'.
            (s' : p.stock.Stock) × (w' ≡ record w { stock = s' }) × (a.success ≡ true → P s'))
          (λ e w'. ⊥)
          (try_catch (on_stock m) (λ e. pure (no_answer e)) w)
  Ensures-answered P m w h =
      Ensures-try (on_stock m) (λ e. pure (no_answer e)) w
        (record { holds = answered-Outcome P w (m w.stock).0 (m w.stock).1 h.holds })
        λ e w' (s', same). record { holds = (s', same, λ t. absurd (cc)) }
