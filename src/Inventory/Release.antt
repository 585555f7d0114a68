-- ===== src/Inventory/Release.antt =====
-- What releasing and confirming a list of items does to the rows.
use advanced_node.Common.{ℕ, ◌+◌, String, ◌≡◌, refl, ap, List, [], ◌∷◌, arith, ◌==◌, if◌then◌else◌}
use advanced_node.Common.Int.{pos, ◌-ℤ◌, int_laws}
use advanced_node.Exec.{pure, ◌>>◌}
use advanced_node.Exec.Ensures.{Ensures, Ensures-bind, Ensures-weaken}
use advanced_node.Shared.Errors.{IsForeign}
use advanced_node.Inventory.Repository
use advanced_node.Inventory.Repository.{
  Inventory, InventoryTable, decrement_reserved, decrement_both,
}
use advanced_node.Inventory.Service.{
  Item, done, release_each, confirm_each, release_stock, confirm_reservation,
}
use advanced_node.Inventory.Changes.{
  demand, at, decrement_zero, decrement_both_zero, decrement_decrement, decrement_both_twice,
  Changed, Changed-of-Same, Changed-trans, update-Changed,
}

at-decrement :
    (k p : String) (q n : ℕ) (i : Inventory)
    → decrement_reserved n (at k (decrement_reserved q) p i)
      ≡ decrement_reserved ((if k == p then q else 0) + n) i
at-decrement k p q n i = ground (arith, decrement_decrement i q n)

at-decrement_both :
    (k p : String) (q n : ℕ) (i : Inventory)
    → decrement_both n (at k (decrement_both q) p i)
      ≡ decrement_both ((if k == p then q else 0) + n) i
at-decrement_both k p q n i = ground (arith, decrement_both_twice i q n)

-- What confirming an amount and then releasing it makes of a row.
abbrev pub confirmed_and_released : ℕ → Inventory → Inventory
confirmed_and_released n i = record i {
  quantity = i.quantity -ℤ pos n;
  reserved_quantity = i.reserved_quantity -ℤ pos (n + n);
}

released-confirmed :
    (n : ℕ) (i : Inventory) → decrement_reserved n (decrement_both n i) ≡ confirmed_and_released n i
released-confirmed n i =
    ap (λ z. record i { quantity = i.quantity -ℤ pos n; reserved_quantity = z }) (omega int_laws)

module _ (t : InventoryTable) where
  pub release_each-Changed :
      (items : List Item) (db : t.Db)
      → Ensures
          (λ _ db'. Changed t (λ p. decrement_reserved (demand items p)) db db')
          (λ e _. IsForeign e)
          (release_each t items db)
  unfolding release_each Repository.release_stock
  release_each-Changed [] db = record {
    holds = Changed-of-Same t _ db db (λ p. refl) (λ p i. decrement_zero i);
  }
  release_each-Changed (item ∷ items) db =
      Ensures-bind (Repository.release_stock t item.product_id item.quantity)
        (λ _. release_each t items) db
        (Ensures-weaken _ (update-Changed t item.product_id (decrement_reserved item.quantity) db)
          (λ _ db1 h. h.0) (λ e db1 h. h.0))
        λ _ db1 first.
          Ensures-weaken _ (release_each-Changed items db1)
            (λ _ db2 rest.
              Changed-trans t _ _ _ db db1 db2 first rest
                (λ p i. at-decrement item.product_id p item.quantity (demand items p) i))
            (λ e db2 h. h)

  -- Releasing a list of items succeeds only with each product's reservation lowered by what the
  -- list asks of that product, whatever it was before; what is thrown comes from the database.
  pub release_stock-Changed :
      (items : List Item) (db : t.Db)
      → Ensures
          (λ r db'. (r ≡ done) × Changed t (λ p. decrement_reserved (demand items p)) db db')
          (λ e _. IsForeign e)
          (release_stock t items db)
  unfolding release_stock
  release_stock-Changed items db =
      Ensures-bind (release_each t items) (λ _. pure done) db (release_each-Changed items db)
        λ _ db' h. record { holds = (refl, h) }

  pub confirm_each-Changed :
      (items : List Item) (db : t.Db)
      → Ensures
          (λ _ db'. Changed t (λ p. decrement_both (demand items p)) db db')
          (λ e _. IsForeign e)
          (confirm_each t items db)
  unfolding confirm_each Repository.confirm_reservation
  confirm_each-Changed [] db = record {
    holds = Changed-of-Same t _ db db (λ p. refl) (λ p i. decrement_both_zero i);
  }
  confirm_each-Changed (item ∷ items) db =
      Ensures-bind (Repository.confirm_reservation t item.product_id item.quantity)
        (λ _. confirm_each t items) db
        (Ensures-weaken _ (update-Changed t item.product_id (decrement_both item.quantity) db)
          (λ _ db1 h. h.0) (λ e db1 h. h.0))
        λ _ db1 first.
          Ensures-weaken _ (confirm_each-Changed items db1)
            (λ _ db2 rest.
              Changed-trans t _ _ _ db db1 db2 first rest
                (λ p i. at-decrement_both item.product_id p item.quantity (demand items p) i))
            (λ e db2 h. h)

  -- Confirming a list of items succeeds only with each product's quantity and reservation both
  -- lowered by what the list asks of it; what is thrown comes from the database.
  pub confirm_reservation-Changed :
      (items : List Item) (db : t.Db)
      → Ensures
          (λ r db'. (r ≡ done) × Changed t (λ p. decrement_both (demand items p)) db db')
          (λ e _. IsForeign e)
          (confirm_reservation t items db)
  unfolding confirm_reservation
  confirm_reservation-Changed items db =
      Ensures-bind (confirm_each t items) (λ _. pure done) db (confirm_each-Changed items db)
        λ _ db' h. record { holds = (refl, h) }

  pub confirm_release-Changed :
      (items : List Item) (db : t.Db)
      → Ensures
          (λ r db'. (r ≡ done) × Changed t (λ p. confirmed_and_released (demand items p)) db db')
          (λ e _. IsForeign e)
          ((confirm_reservation t items >> release_stock t items) db)
  confirm_release-Changed items db =
      Ensures-bind (confirm_reservation t items) (λ _. release_stock t items) db
        (confirm_reservation-Changed items db)
        λ _ db1 (_, confirmed).
          Ensures-weaken _ (release_stock-Changed items db1)
            (λ r db2 (same, released). (
              same,
              Changed-trans t _ _ _ db db1 db2 confirmed released
                  (λ p i. released-confirmed (demand items p) i),
            ))
            (λ e db2 h. h)

  -- Releasing a list of items succeeds only with each product's reservation lowered by what the list
  -- asks of that product, and confirming it only with the quantity and the reservation both lowered
  -- by that, whatever they were before. Confirming a list and then releasing it, as paying and then
  -- cancelling an order does, lowers the reservation twice and the quantity once. What is thrown
  -- comes from the database.
  pub settlements-Changed :
      (items : List Item) (db : t.Db)
      → Ensures
          (λ r db'. (r ≡ done) × Changed t (λ p. decrement_reserved (demand items p)) db db')
          (λ e _. IsForeign e)
          (release_stock t items db)
        × Ensures
            (λ r db'. (r ≡ done) × Changed t (λ p. decrement_both (demand items p)) db db')
            (λ e _. IsForeign e)
            (confirm_reservation t items db)
        × Ensures
            (λ r db'. (r ≡ done) × Changed t (λ p. confirmed_and_released (demand items p)) db db')
            (λ e _. IsForeign e)
            ((confirm_reservation t items >> release_stock t items) db)
  settlements-Changed items db = (
    release_stock-Changed items db,
    confirm_reservation-Changed items db,
    confirm_release-Changed items db,
  )
