-- ===== src/Order/StockQueue.antt =====
-- The inventory service as the order service reaches it: the three RPC queues. A call may time out,
-- whatever the other side did; an answer that reports success reports what was done.
use advanced_node.Common.{String, ◌≡◌, true, Option, List}
use mathlib.Core.Option
use advanced_node.Exec.{Exec}
use advanced_node.Exec.Ensures.{Ensures}
use advanced_node.Inventory.Repository.{
  Inventory, increment_reserved, decrement_reserved, decrement_both,
}
use advanced_node.Inventory.Service.{Item, StockResponse}
use advanced_node.Inventory.Changes.{demand}

pub record StockQueue : Type 1 where
  pub Stock : Type 0
  pub row : Stock → String → Option Inventory
  pub reserve : List Item → Exec Stock StockResponse
  pub release : List Item → Exec Stock StockResponse
  pub confirm : List Item → Exec Stock StockResponse
  pub reserve_done :
      (items : List Item) (s : Stock)
      → Ensures
          (λ r s'.
            r.success ≡ true
            → (p : String) → row s' p ≡ Option.map (increment_reserved (demand items p)) (row s p))
          (λ e s'. Unit {0})
          (reserve items s)
  pub release_done :
      (items : List Item) (s : Stock)
      → Ensures
          (λ r s'.
            r.success ≡ true
            → (p : String) → row s' p ≡ Option.map (decrement_reserved (demand items p)) (row s p))
          (λ e s'. Unit {0})
          (release items s)
  pub confirm_done :
      (items : List Item) (s : Stock)
      → Ensures
          (λ r s'.
            r.success ≡ true
            → (p : String) → row s' p ≡ Option.map (decrement_both (demand items p)) (row s p))
          (λ e s'. Unit {0})
          (confirm items s)
