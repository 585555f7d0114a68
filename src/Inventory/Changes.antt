-- ===== src/Inventory/Changes.antt =====
-- What a run of the inventory service makes of the rows: one function for each product.
use mathlib.Core.Option
use mathlib.Core.Path.{ap₂}
use advanced_node.Common.{
  ℕ, ◌+◌, String, ◌≡◌, refl, ap, ◌∙◌, sym, Option, none, some, List, [], ◌∷◌, ◌++◌, arith, eq_iff,
  ◌==◌, if◌then◌else◌,
}
use advanced_node.Common.Int.{int_laws}
use advanced_node.Exec.{Result, ok, thrown}
use advanced_node.Exec.Ensures.{Ensures, Outcome}
use advanced_node.Shared.Errors.{IsForeign}
use advanced_node.Inventory.Repository.{
  Inventory, InventoryTable, increment_reserved, decrement_reserved, decrement_both,
}
use advanced_node.Inventory.Service.{Item}

-- How much of a product a list of items asks for.
abbrev pub demand : List Item → String → ℕ
demand [] p = 0
demand (item ∷ items) p = (if item.product_id == p then item.quantity else 0) + demand items p

pub demand-append :
    (xs ys : List Item) (p : String) → demand (xs ++ ys) p ≡ demand xs p + demand ys p
demand-append [] ys p = omega arith
demand-append (x ∷ xs) ys p = ground (arith, demand-append xs ys p)

-- The change of one key.
abbrev pub at : String → (Inventory → Inventory) → String → Inventory → Inventory
at k f p i = if k == p then f i else i

-- Changes of one counter add up.
module _ (i : Inventory) where
  pub increment_zero : increment_reserved 0 i ≡ i
  increment_zero = ap (λ z. record i { reserved_quantity = z }) (omega int_laws)

  pub decrement_zero : decrement_reserved 0 i ≡ i
  decrement_zero = ap (λ z. record i { reserved_quantity = z }) (omega int_laws)

  pub decrement_both_zero : decrement_both 0 i ≡ i
  decrement_both_zero =
      ap₂ (λ y z. record i { quantity = y; reserved_quantity = z }) (omega int_laws)
        (omega int_laws)

  pub increment_increment :
      (m n : ℕ) → increment_reserved n (increment_reserved m i) ≡ increment_reserved (m + n) i
  increment_increment m n = ap (λ z. record i { reserved_quantity = z }) (omega int_laws)

  pub decrement_decrement :
      (m n : ℕ) → decrement_reserved n (decrement_reserved m i) ≡ decrement_reserved (m + n) i
  decrement_decrement m n = ap (λ z. record i { reserved_quantity = z }) (omega int_laws)

  pub decrement_increment :
      (m n : ℕ) → decrement_reserved (n + m) (increment_reserved m i) ≡ decrement_reserved n i
  decrement_increment m n = ap (λ z. record i { reserved_quantity = z }) (omega int_laws)

  pub decrement_both_twice :
      (m n : ℕ) → decrement_both n (decrement_both m i) ≡ decrement_both (m + n) i
  decrement_both_twice m n =
      ap₂ (λ y z. record i { quantity = y; reserved_quantity = z }) (omega int_laws)
        (omega int_laws)

map_id :
    (f : Inventory → Inventory) (o : Option Inventory)
    → ((i : Inventory) → f i ≡ i)
    → Option.map f o ≡ o
map_id f none e = refl
map_id f (some i) e = ap some (e i)

module _ (t : InventoryTable) where
  -- Every row is there as before, changed by `f` at its product; no row was made or lost.
  abbrev pub Changed : (String → Inventory → Inventory) → t.Db → t.Db → Type 0
  Changed f db db' = (p : String) → t.row db' p ≡ Option.map (f p) (t.row db p)

  abbrev pub Same : t.Db → t.Db → Type 0
  Same db db' = (p : String) → t.row db' p ≡ t.row db p

  pub Changed-of-Same :
      (f : String → Inventory → Inventory) (db db' : t.Db)
      → Same db db'
      → ((p : String) (i : Inventory) → f p i ≡ i)
      → Changed f db db'
  Changed-of-Same f db db' same e p = same p ∙ sym (map_id (f p) (t.row db p) (e p))

  pub Same-of-Changed :
      (f : String → Inventory → Inventory) (db db' : t.Db)
      → Changed f db db'
      → ((p : String) (i : Inventory) → f p i ≡ i)
      → Same db db'
  Same-of-Changed f db db' changed e p = changed p ∙ map_id (f p) (t.row db p) (e p)

  pub Changed-trans :
      (f g h : String → Inventory → Inventory) (a b c : t.Db)
      → Changed f a b
      → Changed g b c
      → ((p : String) (i : Inventory) → g p (f p i) ≡ h p i)
      → Changed h a c
  Changed-trans f g h a b c ab bc e p = bc p ∙ ap (Option.map (g p)) (ab p) ∙ go (t.row a p)
    where
      go : (o : Option Inventory) → Option.map (g p) (Option.map (f p) o) ≡ Option.map (h p) o
      go none = refl
      go (some i) = ap some (e p i)

  -- An update finds the row and changes it alone, or throws and changes nothing.
  pub update-Changed :
      (k : String) (f : Inventory → Inventory) (db : t.Db)
      → Ensures
          (λ r db'. Changed (at k f) db db' × ((old : Inventory) × (t.row db k ≡ some old)))
          (λ e db'. IsForeign e × Same db db')
          (t.update k f db)
  update-Changed k f db = record { holds = go (t.update k f db).0 (t.update k f db).1 refl }
    where
      go :
          (r : Result Inventory) (db' : t.Db)
          → t.update k f db ≡ (r, db')
          → Outcome
              (λ r db'. Changed (at k f) db db' × ((old : Inventory) × (t.row db k ≡ some old)))
              (λ e db'. IsForeign e × Same db db')
              r
              db'
      go (ok r) db' e =
          let (old, found, same, rows) = t.update_done k f db db' e in
          (λ p. ground (arith, rows p, eq_iff k p, found), (old, found))
      go (thrown e) db' h = t.update_failed k f db db' h
