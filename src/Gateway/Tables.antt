-- ===== src/Gateway/Tables.antt =====
-- The tables User and RefreshToken of prisma/schema.prisma, with the calls of the client that only
-- the gateway makes, and the parties it trusts for tokens, passwords and Google's profiles.
use advanced_node.Common.{ℕ, String, ◌≡◌, Bool, Option, none, some, ◌==◌, if◌then◌else◌}
use advanced_node.Exec.{Result, ok, thrown}
use advanced_node.Shared.Errors.{Exception, IsForeign}
use advanced_node.Prisma.{Table}

pub data UserRole : Type 0 where
  admin user guest : UserRole

pub data AuthProvider : Type 0 where
  local google : AuthProvider

pub record User : Type 0 where
  pub id : String
  pub email : String
  pub password_hash : Option String
  pub first_name : Option String
  pub last_name : Option String
  pub role : UserRole
  pub provider : AuthProvider
  pub provider_id : Option String
  pub email_verified : Bool
  pub is_active : Bool

-- Times are milliseconds.
pub record RefreshToken : Type 0 where
  pub id : String
  pub token : String
  pub user_id : String
  pub expires_at : ℕ

abbrev pub user_key : User → String
user_key u = u.email

abbrev pub token_key : RefreshToken → String
token_key t = t.token

abbrev pub upserted : (User → User) → User → Option User → User
upserted f new none = new
upserted f new (some old) = f old

abbrev pub kept : (RefreshToken → Bool) → Option RefreshToken → Option RefreshToken
kept p none = none
kept p (some r) = if p r then none else some r

pub record Users : Type 1 where
  pub table : Table User user_key
  -- `findUnique` by the column `id`.
  pub find_by_id : String → table.Db → Result (Option User)
  pub find_by_id_done :
      (id : String) (db : table.Db) {u : User}
      → find_by_id id db ≡ ok (some u)
      → (u.id ≡ id) × (table.row db u.email ≡ some u)
  pub find_by_id_failed :
      (id : String) (db : table.Db) {e : Exception} → find_by_id id db ≡ thrown e → IsForeign e
  pub upsert : String → (User → User) → User → table.Db → Result User × table.Db
  pub upsert_done :
      (k : String) (f : User → User) (new : User) (db db' : table.Db) {u : User}
      → upsert k f new db ≡ (ok u, db')
      → (u ≡ upserted f new (table.row db k))
        × ((j : String) → table.row db' j ≡ (if k == j then some u else table.row db j))
  pub upsert_failed :
      (k : String) (f : User → User) (new : User) (db db' : table.Db) {e : Exception}
      → upsert k f new db ≡ (thrown e, db')
      → IsForeign e × ((j : String) → table.row db' j ≡ table.row db j)

pub record Tokens : Type 1 where
  pub table : Table RefreshToken token_key
  pub delete_many : (RefreshToken → Bool) → table.Db → Result (Unit {0}) × table.Db
  pub delete_many_done :
      (p : RefreshToken → Bool) (db db' : table.Db)
      → delete_many p db ≡ (ok tt, db')
      → (j : String) → table.row db' j ≡ kept p (table.row db j)
  pub delete_many_failed :
      (p : RefreshToken → Bool) (db db' : table.Db) {e : Exception}
      → delete_many p db ≡ (thrown e, db')
      → IsForeign e × ((j : String) → table.row db' j ≡ table.row db j)
