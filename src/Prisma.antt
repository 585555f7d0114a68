-- ===== src/Prisma.antt =====
-- A table behind the Prisma client, as the repositories use it. The client is a third-party
-- package: a table is a parameter, and the laws state the documented behaviour of its calls. Every
-- call may fail (a lost connection, a value out of the column's range); a call that fails has
-- changed nothing.
pub mod Memory
pub mod Calls
use advanced_node.Common.{
  String, ◌≡◌, Bool, true, Option, none, some, List, All, Has, ◌==◌, if◌then◌else◌,
}
use advanced_node.Exec.{Result, ok, thrown}
use advanced_node.Shared.Errors.{Exception, IsForeign}

-- `key` is the unique column that `where` names.
pub record Table (Row : Type 0) (key : Row → String) : Type 1 where
  pub Db : Type 0
  -- What the table holds at a key.
  pub row : Db → String → Option Row
  pub find_unique : String → Db → Result (Option Row)
  pub find_many : (Row → Bool) → Db → Result (List Row)
  pub create : Row → Db → Result Row × Db
  -- The function is what the call's `data` argument makes of a row.
  pub update : String → (Row → Row) → Db → Result Row × Db
  pub find_unique_done :
      (k : String) (db : Db) {r : Option Row} → find_unique k db ≡ ok r → r ≡ row db k
  pub find_unique_failed :
      (k : String) (db : Db) {e : Exception} → find_unique k db ≡ thrown e → IsForeign e
  pub find_many_failed :
      (p : Row → Bool) (db : Db) {e : Exception} → find_many p db ≡ thrown e → IsForeign e
  pub find_many_done :
      (p : Row → Bool) (db : Db) {rs : List Row}
      → find_many p db ≡ ok rs
      → All (λ r. p r ≡ true) rs
        × ((k : String) (r : Row) → row db k ≡ some r → p r ≡ true → Has r rs)
  pub create_done :
      (new : Row) (db db' : Db) {r : Row}
      → create new db ≡ (ok r, db')
      → (row db (key new) ≡ none)
        × (r ≡ new)
        × ((j : String) → row db' j ≡ (if key new == j then some new else row db j))
  pub create_failed :
      (new : Row) (db db' : Db) {e : Exception}
      → create new db ≡ (thrown e, db')
      → IsForeign e × ((j : String) → row db' j ≡ row db j)
  -- An update of a key that the table does not hold fails (Prisma's P2025).
  pub update_done :
      (k : String) (f : Row → Row) (db db' : Db) {r : Row}
      → update k f db ≡ (ok r, db')
      → (old : Row) × (row db k ≡ some old)
        × (r ≡ f old)
        × ((j : String) → row db' j ≡ (if k == j then some (f old) else row db j))
  pub update_failed :
      (k : String) (f : Row → Row) (db db' : Db) {e : Exception}
      → update k f db ≡ (thrown e, db')
      → IsForeign e × ((j : String) → row db' j ≡ row db j)

-- A table whose calls fail only where the documentation says so.
module _ {Row : Type 0} {key : Row → String} where
  pub record IsHealthy (t : Table Row key) : Type 0 where
    pub finds : (k : String) (db : t.Db) → t.find_unique k db ≡ ok (t.row db k)
    pub updates :
        (k : String) (f : Row → Row) (db : t.Db) (old : Row)
        → t.row db k ≡ some old
        → (t.update k f db).0 ≡ ok (f old)
