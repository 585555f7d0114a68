-- ===== src/Inventory/Repository.antt =====
-- src/services/inventory/repositories/inventory.repository.ts, over Prisma's table of inventory
-- rows (the model Inventory of prisma/schema.prisma, without its timestamp and its join with the
-- product). The counters are Prisma's `Int`; a value out of its range is one of the failures that
-- a call of the table may meet.
use advanced_node.Common.{ℕ, String, Bool, true, false, Option, none, some, List, if◌then◌else◌}
use advanced_node.Common.Int.{ℤ, pos, ◌+ℤ◌, ◌-ℤ◌, ltb_ℤ, leb_ℤ}
use advanced_node.Exec.{Exec, pure, query, ◌>>=◌}
use advanced_node.Prisma.{Table}

pub record Inventory : Type 0 where
  pub id : String
  pub product_id : String
  pub quantity : ℤ
  pub reserved_quantity : ℤ
  pub low_stock_threshold : ℤ

-- The key column, `productId`.
abbrev pub product_key : Inventory → String
product_key i = i.product_id

-- The body that the service's `update` passes on: each field may be absent.
pub record UpdateInventory : Type 0 where
  pub quantity : Option ℕ
  pub low_stock_threshold : Option ℕ

-- The `data` of `create`: the columns that are left out take the schema's defaults.
pub record NewInventory : Type 0 where
  pub product_id : String
  pub quantity : Option ℤ
  pub reserved_quantity : Option ℤ
  pub low_stock_threshold : Option ℤ

abbrev default_to : Option ℤ → ℤ → ℤ
default_to none d = d
default_to (some n) d = n

abbrev set_to : Option ℕ → ℤ → ℤ
set_to none old = old
set_to (some n) old = pos n

-- `data` with plain values
abbrev pub assign : UpdateInventory → Inventory → Inventory
assign u i = record i {
  quantity = set_to u.quantity i.quantity;
  low_stock_threshold = set_to u.low_stock_threshold i.low_stock_threshold;
}

-- `{ reservedQuantity: { increment: n } }`
abbrev pub increment_reserved : ℕ → Inventory → Inventory
increment_reserved n i = record i { reserved_quantity = i.reserved_quantity +ℤ pos n }

-- `{ reservedQuantity: { decrement: n } }`
abbrev pub decrement_reserved : ℕ → Inventory → Inventory
decrement_reserved n i = record i { reserved_quantity = i.reserved_quantity -ℤ pos n }

-- `{ quantity: { decrement: n }, reservedQuantity: { decrement: n } }`
abbrev pub decrement_both : ℕ → Inventory → Inventory
decrement_both n i = record i {
  quantity = i.quantity -ℤ pos n;
  reserved_quantity = i.reserved_quantity -ℤ pos n;
}

-- `quantity: { lte: fields.lowStockThreshold }`
abbrev pub is_low : Inventory → Bool
is_low i = leb_ℤ i.quantity i.low_stock_threshold

abbrev pub InventoryTable : Type 1
InventoryTable = Table Inventory product_key

-- The check of `reserveStock` on the row that it found.
abbrev pub has_stock : Inventory → ℕ → Bool
has_stock i n = if ltb_ℤ (i.quantity -ℤ i.reserved_quantity) (pos n) then false else true

module _ (t : InventoryTable) where
  unfoldable pub find_by_product_id : String → Exec t.Db (Option Inventory)
  find_by_product_id product_id = query (t.find_unique product_id)

  unfoldable pub find_all : Exec t.Db (List Inventory)
  find_all = query (t.find_many (λ _. true))

  unfoldable pub find_low_stock : Exec t.Db (List Inventory)
  find_low_stock = query (t.find_many is_low)

  -- `uuidv4()` is an argument.
  unfoldable pub create : String → NewInventory → Exec t.Db Inventory
  create uuid new = t.create (record {
    id = uuid;
    product_id = new.product_id;
    quantity = default_to new.quantity (pos 0);
    reserved_quantity = default_to new.reserved_quantity (pos 0);
    low_stock_threshold = default_to new.low_stock_threshold (pos 10);
  })

  unfoldable pub update : String → UpdateInventory → Exec t.Db Inventory
  update product_id u = t.update product_id (assign u)

  abbrev pub reserve_found : String → ℕ → Option Inventory → Exec t.Db (Option Inventory)
  reserve_found product_id n none = pure none
  reserve_found product_id n (some i) =
      if has_stock i n
      then (do r ← t.update product_id (increment_reserved n); pure (some r))
      else pure none

  unfoldable pub reserve_stock : String → ℕ → Exec t.Db (Option Inventory)
  unfolding find_by_product_id
  reserve_stock product_id n = do
    found ← find_by_product_id product_id
    reserve_found product_id n found

  unfoldable pub release_stock : String → ℕ → Exec t.Db Inventory
  release_stock product_id n = t.update product_id (decrement_reserved n)

  unfoldable pub confirm_reservation : String → ℕ → Exec t.Db Inventory
  confirm_reservation product_id n = t.update product_id (decrement_both n)
