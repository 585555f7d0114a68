-- ===== src/Inventory/Tests.antt =====
-- The theorems on the inventory at a stock of two products held in memory.
use mathlib.Core.Path.{subst}
use advanced_node.Common.{
  ℕ, String, ◌≡◌, refl, inl, inr, Bool, Bool-cases, true, none, some, List, [], ◌∷◌, arith, ◌==◌,
}
use advanced_node.Common.Int.{pos, ◌+ℤ◌, ◌-ℤ◌}
use advanced_node.Exec.{ok, ◌>>◌}
use advanced_node.Exec.Ensures.{Ensures}
use advanced_node.Shared.Errors.{IsForeign}
use advanced_node.Shared.AddErrorHelper.{App, ErrorEntry}
use advanced_node.Prisma.Memory.{Rows, memory}
use advanced_node.Inventory.Repository
use advanced_node.Inventory.Repository.{
  Inventory, InventoryTable, UpdateInventory, product_key, decrement_reserved, decrement_both,
}
use advanced_node.Inventory.Service.{
  Item, reserve_from, release_each, reserved, insufficient, done, reserve_stock, release_stock,
  confirm_reservation,
}
use advanced_node.Inventory.Changes.{demand, Changed}
use advanced_node.Inventory.Release.{confirmed_and_released, settlements-Changed}
use advanced_node.Inventory.Reserve.{AllOrNothing, reserve_stock-AllOrNothing}
use advanced_node.Inventory.Bounds
use advanced_node.Inventory.Bounds.{IsWithin, StockRequest, serve_all, serve_all-IsWithin}

abbrev pub table : InventoryTable
table = memory product_key

abbrev item : String → ℕ → Item
item p n = record { product_id = p; quantity = n }

abbrev row_of : String → ℕ → ℕ → Inventory
row_of p q r = record {
  id = p;
  product_id = p;
  quantity = pos q;
  reserved_quantity = pos r;
  low_stock_threshold = pos 10;
}

abbrev stock : Rows Inventory
stock = ("pen", row_of "pen" 10 3) ∷ ("ink", row_of "ink" 5 5) ∷ []

abbrev pens : List Item
pens = item "pen" 4 ∷ item "pen" 3 ∷ []

abbrev too_many : List Item
too_many = item "pen" 4 ∷ item "ink" 1 ∷ []

abbrev pub stores : ErrorEntry → Bool
stores e = true

abbrev pub app_state : App (Rows Inventory)
app_state = record { db = stock; errors = [] }

reserve_pens : (reserve_stock table pens stock).0 ≡ ok (reserved pens)
unfolding reserve_stock reserve_from Repository.reserve_stock ◌-ℤ◌ ◌+ℤ◌
reserve_pens = refl

reserve_too_many : reserve_stock table too_many stock ≡ (ok (insufficient (item "ink" 1)), stock)
unfolding reserve_stock reserve_from Repository.reserve_stock ◌-ℤ◌ ◌+ℤ◌ release_each
    Repository.release_stock
reserve_too_many = refl

reserve_stock-AllOrNothing_example :
    Ensures
      (AllOrNothing table too_many stock)
      (λ e db'. IsForeign e)
      (reserve_stock table too_many stock)
reserve_stock-AllOrNothing_example =
    reserve_stock-AllOrNothing table too_many stock (omega arith, (omega arith, tt))

settlements-Changed_example :
    Ensures
      (λ r db'. (r ≡ done) × Changed table (λ p. decrement_reserved (demand pens p)) stock db')
      (λ e _. IsForeign e)
      (release_stock table pens stock)
    × Ensures
        (λ r db'. (r ≡ done) × Changed table (λ p. decrement_both (demand pens p)) stock db')
        (λ e _. IsForeign e)
        (confirm_reservation table pens stock)
    × Ensures
        (λ r db'.
          (r ≡ done) × Changed table (λ p. confirmed_and_released (demand pens p)) stock db')
        (λ e _. IsForeign e)
        ((confirm_reservation table pens >> release_stock table pens) stock)
settlements-Changed_example = settlements-Changed table pens stock

abbrev shop : Rows Inventory
shop = ("pen", row_of "pen" 10 3) ∷ []

shop-IsWithin : IsWithin table shop
shop-IsWithin = record {
  at_key = λ k i there. elim (Bool-cases ("pen" == k)) [
    | inl same ↦
        let e : row_of "pen" 10 3 ≡ i = cc (rw same at there) in
        subst Bounds.IsCovered e (omega arith)
    | inr other ↦ absurd (cc (rw other at there))
  ];
}

abbrev busy_day : List StockRequest
busy_day =
    Bounds.reserve pens ∷ Bounds.reserve too_many ∷ Bounds.confirm pens ∷ Bounds.release pens ∷ []

serve_all-IsWithin_example : IsWithin table (serve_all table busy_day shop)
serve_all-IsWithin_example = serve_all-IsWithin table busy_day shop shop-IsWithin

abbrev no_change : UpdateInventory
no_change = record { quantity = some 7; low_stock_threshold = none }
