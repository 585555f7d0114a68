-- ===== src/Inventory/Reserve.antt =====
-- Reserving a list of items: all of it or nothing, and exactly when the stock covers it.
use mathlib.Core.Option
use mathlib.Core.List.{append-nil, append_assoc}
use advanced_node.Common.{
  ℕ, ◌+◌, ◌<◌, String, ◌≡◌, refl, sym, ap, ◌∙◌, ◌⊎◌, inl, inr, true, false, Option, none, some,
  List, [], ◌∷◌, ◌++◌, All, arith, Bool-cases, ◌==◌, if◌then◌else◌,
}
use advanced_node.Common.Int.{pos, ◌+ℤ◌, ◌≤ℤ◌, +ℤ_parts, -ℤ_parts}
use advanced_node.Exec.{pure}
use advanced_node.Exec.Ensures.{Ensures, Ensures-bind, Ensures-weaken}
use advanced_node.Prisma.Calls.{find_unique-Ensures}
use advanced_node.Shared.Errors.{IsForeign}
use advanced_node.Inventory.Repository
use advanced_node.Inventory.Repository.{
  Inventory, InventoryTable, increment_reserved, decrement_reserved, has_stock, reserve_found,
  find_by_product_id,
}
use advanced_node.Inventory.Service.{
  Item, StockResponse, reserved, insufficient, release_each, reserve_from, reserve_stock,
}
use advanced_node.Inventory.Changes.{
  demand, demand-append, at, increment_zero, increment_increment, decrement_zero,
  decrement_increment, Changed, Same, Changed-of-Same, Same-of-Changed, Changed-trans,
  update-Changed,
}
use advanced_node.Inventory.Room.{HasRoom, Covers, Covers-cons, Covers-rest, Covers-first}
use advanced_node.Inventory.Release.{release_each-Changed}

-- What the schemas of the routes check of the items.
abbrev pub ArePositive : List Item → Type 0
ArePositive = All (λ item. 0 < item.quantity)

module _ (t : InventoryTable) where
  has_stock_true :
      (i : Inventory) (n : ℕ) → has_stock i n ≡ true → i.reserved_quantity +ℤ pos n ≤ℤ i.quantity
  has_stock_true i n h =
      ground (arith, -ℤ_parts i.quantity i.reserved_quantity, +ℤ_parts i.reserved_quantity (pos n))

  has_stock-false :
      (i : Inventory) (n : ℕ)
      → has_stock i n ≡ false
      → ¬ (i.reserved_quantity +ℤ pos n ≤ℤ i.quantity)
  has_stock-false i n h k =
      ground (arith, -ℤ_parts i.quantity i.reserved_quantity, +ℤ_parts i.reserved_quantity (pos n))

  -- What one reservation ensures.
  abbrev Reserves : String → ℕ → t.Db → Option Inventory → t.Db → Type 0
  Reserves k n db (some r) db' = Changed t (at k (increment_reserved n)) db db' × HasRoom t db k n
  Reserves k n db none db' = Same t db db' × ¬ HasRoom t db k n

  reserve_found-Reserves :
      (k : String) (n : ℕ) (db : t.Db) (found : Option Inventory)
      → found ≡ t.row db k
      → Ensures
          (Reserves k n db)
          (λ e db'. IsForeign e × Same t db db')
          (reserve_found t k n found db)
  reserve_found-Reserves k n db none e = record { holds = ((λ p. refl), λ (i, at_k, room). cc) }
  reserve_found-Reserves k n db (some i) e = elim (Bool-cases (has_stock i n)) [
    | inl enough ↦ rw enough (
        Ensures-bind (t.update k (increment_reserved n)) (λ r. pure (some r)) db
          (update-Changed t k (increment_reserved n) db)
          λ r db' h. record { holds = (h.0, (i, sym e, has_stock_true i n enough)) })
    | inr short ↦ rw short (record {
      holds = (
        (λ p. refl),
        λ (j, at_k, room). let same : i ≡ j = cc in has_stock-false i n short (rw (← same) at room),
      );
    })
  ]

  reserve_stock-Reserves :
      (k : String) (n : ℕ) (db : t.Db)
      → Ensures
          (Reserves k n db)
          (λ e db'. IsForeign e × Same t db db')
          (Repository.reserve_stock t k n db)
  unfolding Repository.reserve_stock
  reserve_stock-Reserves k n db =
      Ensures-bind (find_by_product_id t k) (reserve_found t k n) db
        (Ensures-weaken _ (find_unique-Ensures t k db) (λ r db' h. h)
          (λ e db' h. (h.0, λ p. ap (λ d. t.row d p) h.1)))
        λ found db' (found_row, same). rw same (reserve_found-Reserves k n db found found_row)

  -- The products of the items, one by one, make up the demand.
  at-increment :
      (k p : String) (q n : ℕ) (i : Inventory)
      → increment_reserved n (at k (increment_reserved q) p i)
        ≡ increment_reserved ((if k == p then q else 0) + n) i
  at-increment k p q n i = ground (arith, increment_increment i q n)

  at-undo :
      (k p : String) (q n : ℕ) (i : Inventory)
      → decrement_reserved (n + ((if k == p then q else 0) + 0)) (at k (increment_reserved q) p i)
        ≡ decrement_reserved n i
  at-undo k p q n i = ground (arith, decrement_increment i q n)

  -- The stock after the loop, by what it returned.
  abbrev ResultOf : List Item → List Item → t.Db → StockResponse → t.Db → Type 0
  ResultOf results items db r db' =
      ((r ≡ reserved (results ++ items))
        × Changed t (λ p. increment_reserved (demand items p)) db db'
        × (ArePositive items → Covers t items db))
      ⊎ ((item : Item) × (r ≡ insufficient item)
          × Changed t (λ p. decrement_reserved (demand results p)) db db'
          × (ArePositive items → ¬ Covers t items db))

  pub reserve_from-lem :
      (results items : List Item) (db : t.Db)
      → Ensures (ResultOf results items db) (λ e db'. IsForeign e) (reserve_from t results items db)
  unfolding reserve_from
  reserve_from-lem results [] db = record {
    holds = inl (
      ap reserved (sym (append-nil results)),
      Changed-of-Same t _ db db (λ p. refl) (λ p i. increment_zero i),
      λ positive p left. absurd (omega arith),
    );
  }
  reserve_from-lem results (item ∷ items) db =
      Ensures-bind (Repository.reserve_stock t item.product_id item.quantity) _ db
        (Ensures-weaken _ (reserve_stock-Reserves item.product_id item.quantity db) (λ r db1 h. h)
          (λ e db1 h. h.0))
        (elim [
          | none ↦ λ db1 (same, short).
              Ensures-bind (release_each t results) (λ _. pure (insufficient item)) db1
                (release_each-Changed t results db1)
                λ _ db2 undone. record {
                  holds = inr (
                    item,
                    refl,
                    (λ p. undone p ∙ ap (Option.map _) (same p)),
                    λ positive covers. short (Covers-first t item items db positive.0 covers),
                  );
                }
          | some r ↦ λ db1 (changed, room).
              Ensures-weaken _ (reserve_from-lem (results ++ item ∷ []) items db1)
                (λ r db2. elim [
                  | inl (e, rest, covers) ↦ inl (
                    rw append_assoc at e,
                    Changed-trans t _ _ _ db db1 db2 changed rest
                        (λ p i. at-increment item.product_id p item.quantity (demand items p) i),
                    λ positive. Covers-cons t item items db db1 changed room (covers positive.1),
                  )
                  | inr (other, e, undone, short) ↦ inr (
                    other,
                    e,
                    Changed-trans t _ _ _ db db1 db2 changed undone (λ p i.
                        rw demand-append
                          (at-undo item.product_id p item.quantity (demand results p) i)),
                    λ positive covers.
                        short positive.1 (Covers-rest t item items db db1 changed covers),
                  )
                ])
                (λ e db2 h. h)
        ])

  -- All of the list was reserved, which the stock covered; or one item's answer is that the stock
  -- is insufficient, the stock did not cover the list, and every row is as it was.
  abbrev pub AllOrNothing : List Item → t.Db → StockResponse → t.Db → Type 0
  AllOrNothing items db r db' =
      ((r ≡ reserved items)
        × Changed t (λ p. increment_reserved (demand items p)) db db'
        × Covers t items db)
      ⊎ ((item : Item) × (r ≡ insufficient item) × Same t db db' × ¬ Covers t items db)

  -- Reserving items of positive quantities either succeeds or fails for one of them. If it
  -- succeeds, the stock covered the whole list, counting repeated products together, and each
  -- product's reservation grew by what the list asks of it. If it fails, the stock did not cover the
  -- list, and every row is as it was before. What is thrown comes from the database.
  pub reserve_stock-AllOrNothing :
      (items : List Item) (db : t.Db)
      → ArePositive items
      → Ensures (AllOrNothing items db) (λ e db'. IsForeign e) (reserve_stock t items db)
  unfolding reserve_stock
  reserve_stock-AllOrNothing items db positive =
      Ensures-weaken _ (reserve_from-lem [] items db)
        (λ r db'. elim [
          | inl (e, changed, covers) ↦ inl (e, changed, covers positive)
          | inr (item, e, undone, short) ↦
              inr (
                item,
                e,
                Same-of-Changed t _ db db' undone (λ p i. decrement_zero i),
                short positive,
              )
        ])
        (λ e db' h. h)
