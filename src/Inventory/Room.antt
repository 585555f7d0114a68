-- ===== src/Inventory/Room.antt =====
-- Whether the stock has room for what a list of items asks for, before and after a reservation.
use mathlib.Core.Path.{subst}
use native.Mathlib.Decide.{dec_lt}
use advanced_node.Common.{
  ℕ, ◌+◌, ◌<◌, String, ◌≡◌, refl, ◌↔◌, inl, inr, Bool, true, false, some, List, ◌∷◌, arith, eq_iff,
  eq_refl, Bool-cases, Option-cases, ◌==◌, if◌then◌else◌,
}
use advanced_node.Common.Int.{pos, ◌+ℤ◌, ◌≤ℤ◌, int_laws}
use advanced_node.Inventory.Repository.{Inventory, InventoryTable, increment_reserved}
use advanced_node.Inventory.Service.{Item}
use advanced_node.Inventory.Changes.{demand, at, Changed}

module _ (t : InventoryTable) where
  -- The product is in the inventory, and `n` of it can be reserved beside what is.
  abbrev pub HasRoom : t.Db → String → ℕ → Type 0
  HasRoom db p n =
      (i : Inventory) × (t.row db p ≡ some i) × (i.reserved_quantity +ℤ pos n ≤ℤ i.quantity)

  -- The stock covers what the list asks for.
  abbrev pub Covers : List Item → t.Db → Type 0
  Covers items db = (p : String) → 0 < demand items p → HasRoom db p (demand items p)

  -- Room after a reservation is more room before it.
  room_shift :
      (b : Bool) (q n : ℕ) (i : Inventory)
      → ((if b then increment_reserved q i else i).reserved_quantity +ℤ pos n
          ≤ℤ (if b then increment_reserved q i else i).quantity)
        ↔ (i.reserved_quantity +ℤ pos ((if b then q else 0) + n) ≤ℤ i.quantity)
  room_shift true q n i = (λ h. omega int_laws, λ h. omega int_laws)
  room_shift false q n i = (λ h. omega int_laws, λ h. omega int_laws)

  HasRoom-before :
      (k p : String) (q n : ℕ) (db db1 : t.Db)
      → Changed t (at k (increment_reserved q)) db db1
      → HasRoom db1 p n
      → HasRoom db p ((if k == p then q else 0) + n)
  HasRoom-before k p q n db db1 changed (j, found, room) = elim (Option-cases (t.row db p)) [
    | inl missing ↦ absurd (cc (rw missing at (changed p)))
    | inr (i, there) ↦
        let after : t.row db1 p ≡ some (at k (increment_reserved q) p i) =
          rw there at (changed p) in
        let same : j ≡ at k (increment_reserved q) p i = cc in
        (i, there, (room_shift (k == p) q n i).0 (rw same at room))
  ]

  HasRoom-after :
      (k p : String) (q n : ℕ) (db db1 : t.Db)
      → Changed t (at k (increment_reserved q)) db db1
      → HasRoom db p ((if k == p then q else 0) + n)
      → HasRoom db1 p n
  HasRoom-after k p q n db db1 changed (i, found, room) =
      (at k (increment_reserved q) p i, rw found at (changed p), (room_shift (k == p) q n i).1 room)

  HasRoom-last :
      (k p : String) (q n : ℕ) (db : t.Db)
      → HasRoom db k q
      → n ≡ 0
      → 0 < (if k == p then q else 0) + n
      → HasRoom db p ((if k == p then q else 0) + n)
  HasRoom-last k p q n db here none_left left = elim (Bool-cases (k == p)) [
    | inr other ↦ absurd (omega (arith, rw other at left))
    | inl same ↦
        let total : q ≡ (if k == p then q else 0) + n = rw same (omega arith) in
        subst (λ m. HasRoom db p m) total (subst (λ x. HasRoom db x q) ((eq_iff k p).0 same) here)
  ]

  -- After one reservation, room for the rest is room for all.
  pub Covers-cons :
      (item : Item) (items : List Item) (db db1 : t.Db)
      → Changed t (at item.product_id (increment_reserved item.quantity)) db db1
      → HasRoom db item.product_id item.quantity
      → Covers items db1
      → Covers (item ∷ items) db
  Covers-cons item items db db1 changed here rest p some_left = elim (dec_lt 0 (demand items p)) [
    | yes more ↦
        HasRoom-before item.product_id p item.quantity (demand items p) db db1 changed (rest p more)
    | no last ↦
        HasRoom-last item.product_id p item.quantity (demand items p) db here (omega arith)
          some_left
  ]

  pub Covers-rest :
      (item : Item) (items : List Item) (db db1 : t.Db)
      → Changed t (at item.product_id (increment_reserved item.quantity)) db db1
      → Covers (item ∷ items) db
      → Covers items db1
  Covers-rest item items db db1 changed covers p left =
      HasRoom-after item.product_id p item.quantity (demand items p) db db1 changed
        (covers p (omega arith))

  pub Covers-first :
      (item : Item) (items : List Item) (db : t.Db)
      → 0 < item.quantity
      → Covers (item ∷ items) db
      → HasRoom db item.product_id item.quantity
  Covers-first item items db positive covers =
      let mine : demand (item ∷ items) item.product_id
          ≡ item.quantity + demand items item.product_id =
        rw (eq_refl item.product_id) refl in
      let (i, found, room) = covers item.product_id (omega arith) in
      (i, found, omega (int_laws, rw mine at room))
