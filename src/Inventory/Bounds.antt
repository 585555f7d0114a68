-- ===== src/Inventory/Bounds.antt =====
-- Reservations never pass the stock, whatever requests are served one after another.
use mathlib.Core.Path.{subst}
use advanced_node.Common.{
  ℕ, String, ◌≡◌, sym, ◌∙◌, inl, inr, true, Option, none, some, List, [], ◌∷◌, ◌++◌, arith,
  Bool-cases, ◌==◌, if◌then◌else◌,
}
use advanced_node.Common.Int.{pos, ◌≤ℤ◌, +ℤ_parts, -ℤ_parts, int_laws}
use advanced_node.Exec.{pure, Exec}
use advanced_node.Exec.Ensures.{Leaves, Leaves_always, Ensures-bind, Ensures-weaken}
use advanced_node.Prisma.Calls.{find_unique-Ensures, update-Ensures}
use advanced_node.Inventory.Repository
use advanced_node.Inventory.Repository.{
  Inventory, InventoryTable, increment_reserved, decrement_reserved, decrement_both, has_stock,
  reserve_found, find_by_product_id,
}
use advanced_node.Inventory.Service
use advanced_node.Inventory.Service.{
  Item, StockResponse, reserved, done, insufficient, roll_back, release_each, confirm_each,
  reserve_from,
}

-- No more of the product is reserved than there is.
abbrev pub IsCovered : Inventory → Type 0
IsCovered i = i.reserved_quantity ≤ℤ i.quantity

-- A stock request, as the RPC servers and the HTTP routes receive it.
pub data StockRequest : Type 0 where
  reserve release confirm : List Item → StockRequest

module _ (t : InventoryTable) where
  pub record IsWithin (db : t.Db) : Type 0 where
    pub at_key : (k : String) (i : Inventory) → t.row db k ≡ some i → IsCovered i

  abbrev pub serve : StockRequest → Exec t.Db StockResponse
  serve (reserve items) = Service.reserve_stock t items
  serve (release items) = Service.release_stock t items
  serve (confirm items) = Service.confirm_reservation t items

  -- The requests one after another; one that throws leaves what it had written.
  unfoldable pub serve_all : List StockRequest → t.Db → t.Db
  serve_all [] db = db
  serve_all (r ∷ rs) db = serve_all rs (serve r db).1

  IsWithin-after :
      (k : String) (f : Inventory → Inventory) (db db' : t.Db) (old : Inventory)
      → IsWithin db
      → IsCovered (f old)
      → ((j : String) → t.row db' j ≡ (if k == j then some (f old) else t.row db j))
      → IsWithin db'
  IsWithin-after k f db db' old within covered rows = record {
    at_key = λ j i there. elim (Bool-cases (k == j)) [
      | inl same ↦ let new : f old ≡ i = cc (rw same at (rows j)) in subst IsCovered new covered
      | inr other ↦ within.at_key j i (sym (rw other at (rows j)) ∙ there)
    ];
  }

  update-IsWithin :
      (k : String) (f : Inventory → Inventory) (db : t.Db)
      → IsWithin db
      → ((old : Inventory) → t.row db k ≡ some old → IsCovered (f old))
      → Leaves IsWithin (t.update k f db)
  update-IsWithin k f db within covered =
      Ensures-weaken _ (update-Ensures t k f db)
        (λ r db' (old, there, same, rows).
          IsWithin-after k f db db' old within (covered old there) rows)
        (λ e db' (foreign, rows). record {
          at_key = λ j i there. within.at_key j i (sym (rows j) ∙ there);
        })

  decrement-IsCovered : (n : ℕ) (i : Inventory) → IsCovered i → IsCovered (decrement_reserved n i)
  decrement-IsCovered n i h = omega int_laws

  decrement_both-IsCovered : (n : ℕ) (i : Inventory) → IsCovered i → IsCovered (decrement_both n i)
  decrement_both-IsCovered n i h = omega int_laws

  increment-IsCovered :
      (n : ℕ) (i : Inventory) → has_stock i n ≡ true → IsCovered (increment_reserved n i)
  increment-IsCovered n i h =
      ground (arith, -ℤ_parts i.quantity i.reserved_quantity, +ℤ_parts i.reserved_quantity (pos n))

  reserve_found-IsWithin :
      (k : String) (n : ℕ) (db : t.Db) (found : Option Inventory)
      → IsWithin db
      → found ≡ t.row db k
      → Leaves IsWithin (reserve_found t k n found db)
  reserve_found-IsWithin k n db none within e = record { holds = within }
  reserve_found-IsWithin k n db (some i) within e = elim (Bool-cases (has_stock i n)) [
    | inr short ↦ rw short (record { holds = within })
    | inl enough ↦ rw enough (
        Ensures-bind (t.update k (increment_reserved n)) (λ r. pure (some r)) db
          (update-IsWithin k _ db within (λ old there.
            let same : i ≡ old = cc in
            subst (λ x. IsCovered (increment_reserved n x)) same (increment-IsCovered n i enough)))
          (λ r db' h. record { holds = h }))
  ]

  reserve_one-IsWithin :
      (k : String) (n : ℕ) (db : t.Db)
      → IsWithin db
      → Leaves IsWithin (Repository.reserve_stock t k n db)
  unfolding Repository.reserve_stock
  reserve_one-IsWithin k n db within =
      Ensures-bind (find_by_product_id t k) (reserve_found t k n) db
        (Ensures-weaken _ (find_unique-Ensures t k db) (λ r db' h. h) (λ e db' h. rw h.1 within))
        λ found db' (found_row, same).
          rw same (reserve_found-IsWithin k n db found within found_row)

  release_each-IsWithin :
      (items : List Item) (db : t.Db) → IsWithin db → Leaves IsWithin (release_each t items db)
  unfolding release_each Repository.release_stock
  release_each-IsWithin [] db within = record { holds = within }
  release_each-IsWithin (item ∷ items) db within =
      Ensures-bind (Repository.release_stock t item.product_id item.quantity)
        (λ _. release_each t items) db
        (update-IsWithin item.product_id _ db within
          (λ old there. decrement-IsCovered item.quantity old (within.at_key _ old there)))
        λ _ db1 h. release_each-IsWithin items db1 h

  confirm_each-IsWithin :
      (items : List Item) (db : t.Db) → IsWithin db → Leaves IsWithin (confirm_each t items db)
  unfolding confirm_each Repository.confirm_reservation
  confirm_each-IsWithin [] db within = record { holds = within }
  confirm_each-IsWithin (item ∷ items) db within =
      Ensures-bind (Repository.confirm_reservation t item.product_id item.quantity)
        (λ _. confirm_each t items) db
        (update-IsWithin item.product_id _ db within
          (λ old there. decrement_both-IsCovered item.quantity old (within.at_key _ old there)))
        λ _ db1 h. confirm_each-IsWithin items db1 h

  reserve_from-IsWithin :
      (results items : List Item) (db : t.Db)
      → IsWithin db
      → Leaves IsWithin (reserve_from t results items db)
  unfolding reserve_from
  reserve_from-IsWithin results [] db within = record { holds = within }
  reserve_from-IsWithin results (item ∷ items) db within =
      Ensures-bind (Repository.reserve_stock t item.product_id item.quantity) _ db
        (reserve_one-IsWithin item.product_id item.quantity db within)
        (elim [
          | none ↦ λ db1 h.
              Ensures-bind (release_each t results) (λ _. pure (insufficient item)) db1
                (release_each-IsWithin results db1 h) (λ _ db2 k. record { holds = k })
          | some r ↦ λ db1 h. reserve_from-IsWithin (results ++ item ∷ []) items db1 h
        ])

  serve-IsWithin : (r : StockRequest) (db : t.Db) → IsWithin db → Leaves IsWithin (serve r db)
  unfolding Service.reserve_stock Service.release_stock Service.confirm_reservation
  serve-IsWithin (reserve items) db within = reserve_from-IsWithin [] items db within
  serve-IsWithin (release items) db within =
      Ensures-bind (release_each t items) (λ _. pure done) db
        (release_each-IsWithin items db within) (λ _ db' h. record { holds = h })
  serve-IsWithin (confirm items) db within =
      Ensures-bind (confirm_each t items) (λ _. pure done) db
        (confirm_each-IsWithin items db within) (λ _ db' h. record { holds = h })

  -- If no product has more reserved than its quantity, then that holds after any sequence of reserve,
  -- release and confirm requests served one after another, those that fail or throw included.
  pub serve_all-IsWithin :
      (rs : List StockRequest) (db : t.Db) → IsWithin db → IsWithin (serve_all rs db)
  unfolding serve_all
  serve_all-IsWithin [] db within = within
  serve_all-IsWithin (r ∷ rs) db within =
      serve_all-IsWithin rs (serve r db).1 (Leaves_always IsWithin _ (serve-IsWithin r db within))
