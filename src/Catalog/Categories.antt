-- ===== src/Catalog/Categories.antt =====
-- src/services/product-catalog: category.repository.ts and category.service.ts over the table of
-- categories (the model Category of prisma/schema.prisma without timestamps and joins).
use advanced_node.Common.{String, ◌≡◌, Bool, true, false, Option, none, List, ◌==◌, if◌then◌else◌}
use advanced_node.Exec.{Exec, Result, ok, thrown, pure, throw, query, ◌>>=◌}
use advanced_node.Shared.Errors.{Exception, app, not_found}
use advanced_node.Prisma.{Table}

pub record Category : Type 0 where
  pub id : String
  pub name : String
  pub slug : String
  pub description : Option String
  pub parent_id : Option String
  pub is_active : Bool

abbrev pub category_id : Category → String
category_id c = c.id

pub record CategoryTable : Type 1 where
  pub table : Table Category category_id
  pub delete : String → table.Db → Result (Unit {0}) × table.Db
  pub delete_done :
      (k : String) (db db' : table.Db)
      → delete k db ≡ (ok tt, db')
      → (j : String) → table.row db' j ≡ (if k == j then none else table.row db j)
  pub delete_failed :
      (k : String) (db db' : table.Db) {e : Exception}
      → delete k db ≡ (thrown e, db')
      → (j : String) → table.row db' j ≡ table.row db j

abbrev pub category_missing : Exception
category_missing = app (not_found "Category not found")

-- `where: { isActive: true }`; the order is by name.
abbrev pub is_listed : Category → Bool
is_listed c = c.is_active

module _ (t : CategoryTable) where
  unfoldable pub find_all : Exec t.table.Db (List Category)
  find_all = query (t.table.find_many is_listed)

  unfoldable pub find_by_id : String → Exec t.table.Db (Option Category)
  find_by_id id = query (t.table.find_unique id)

  unfoldable pub create_row : Category → Exec t.table.Db Category
  create_row new = t.table.create new

  unfoldable pub update_row : String → (Category → Category) → Exec t.table.Db Category
  update_row id change = t.table.update id change

  abbrev pub deleted_of : Result (Unit {0}) → Bool
  deleted_of (ok tt) = true
  deleted_of (thrown e) = false

  -- Whatever is thrown is the answer `false`.
  unfoldable pub delete_row : String → Exec t.table.Db Bool
  delete_row id db = let (r, db') = t.delete id db in (ok (deleted_of r), db')

  unfoldable pub get_all : Exec t.table.Db (List Category)
  unfolding find_all
  get_all = find_all

  unfoldable pub get_by_id : String → Exec t.table.Db (Option Category)
  unfolding find_by_id
  get_by_id id = find_by_id id

  unfoldable pub create : Category → Exec t.table.Db Category
  unfolding create_row
  create new = create_row new

  -- The check `!category` never holds: the call returns a row or throws.
  unfoldable pub update : String → (Category → Category) → Exec t.table.Db Category
  unfolding update_row
  update id change = update_row id change

  abbrev pub deleted_or_missing : Bool → Exec t.table.Db Bool
  deleted_or_missing false = throw category_missing
  deleted_or_missing true = pure true

  unfoldable pub delete : String → Exec t.table.Db Bool
  unfolding delete_row
  delete id = do deleted ← delete_row id; deleted_or_missing deleted
