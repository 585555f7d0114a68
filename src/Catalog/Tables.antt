-- ===== src/Catalog/Tables.antt =====
-- The rows and pages of src/services/product-catalog, its table of products (the model Product of
-- prisma/schema.prisma without timestamps and joins; prices are whole numbers of the currency's
-- hundredth), and Redis as the cache uses it: third parties, with the laws of their documentation.
use advanced_node.Common.{
  ℕ, String, ◌≡◌, ◌≢◌, ◌⊎◌, Bool, Option, none, some, List, ◌==◌, if◌then◌else◌,
}
use advanced_node.Exec.{Result, ok, thrown}
use advanced_node.Shared.Errors.{Exception}
use advanced_node.Prisma.{Table}

pub record Product : Type 0 where
  pub id : String
  pub name : String
  pub sku : String
  pub description : Option String
  pub price : ℕ
  pub category_id : String
  pub is_active : Bool

abbrev pub product_id : Product → String
product_id p = p.id

pub record ProductQuery : Type 0 where
  pub page : ℕ
  pub limit : ℕ
  pub category_id : Option String
  pub min_price : Option ℕ
  pub max_price : Option ℕ
  pub search : Option String

-- The `where` of a list; `search` is to be contained in the name or the description.
pub record Filter : Type 0 where
  pub category_id : Option String
  pub price_gte : Option ℕ
  pub price_lte : Option ℕ
  pub contains : Option String

pub record Meta : Type 0 where
  pub page : ℕ
  pub limit : ℕ
  pub total : ℕ
  pub total_pages : ℕ
  pub has_next : Bool
  pub has_prev : Bool

pub record Page : Type 0 where
  pub products : List Product
  pub meta : Meta

pub record Shelf : Type 1 where
  pub table : Table Product product_id
  -- `findMany` with a filter, `skip` and `take`, of active products, the newest first.
  pub find_page : Filter → (skip take : ℕ) → table.Db → Result (List Product)
  pub count : Filter → table.Db → Result ℕ
  pub delete : String → table.Db → Result (Unit {0}) × table.Db
  pub delete_done :
      (k : String) (db db' : table.Db)
      → delete k db ≡ (ok tt, db')
      → (j : String) → table.row db' j ≡ (if k == j then none else table.row db j)
  pub delete_failed :
      (k : String) (db db' : table.Db) {e : Exception}
      → delete k db ≡ (thrown e, db')
      → (j : String) → table.row db' j ≡ table.row db j

-- The keys `products:` with the query's text, and `product:` with an identifier.
pub data Key : Type 0 where
  list_key : ProductQuery → Key
  product_key : String → Key

abbrev pub Value : Key → Type 0
Value (list_key q) = Page
Value (product_key id) = Product

-- A call that fails may have been carried out all the same; an entry may be gone at any time.
pub record Redis : Type 1 where
  pub Store : Type 0
  pub at : Store → (k : Key) → Option (Value k)
  pub get : (k : Key) → Store → Result (Option (Value k))
  pub setex : (k : Key) → ℕ → Value k → Store → Result (Unit {0}) × Store
  pub del : Key → Store → Result (Unit {0}) × Store
  -- `keys('products:*')` and `del` of what it found.
  pub del_lists : Store → Result (Unit {0}) × Store
  pub get_done : (k : Key) (s : Store) {v : Value k} → get k s ≡ ok (some v) → at s k ≡ some v
  pub setex_effect :
      (k : Key) (ttl : ℕ) (v : Value k) (s : Store)
      → (at (setex k ttl v s).1 k ≡ at s k) ⊎ (at (setex k ttl v s).1 k ≡ some v)
  pub setex_others :
      (k j : Key) (ttl : ℕ) (v : Value k) (s : Store) → k ≢ j → at (setex k ttl v s).1 j ≡ at s j
  pub del_effect : (k j : Key) (s : Store) → (at (del k s).1 j ≡ at s j) ⊎ (at (del k s).1 j ≡ none)
  pub del_done : (k : Key) (s s' : Store) → del k s ≡ (ok tt, s') → at s' k ≡ none
  pub del_lists_effect :
      (j : Key) (s : Store) → (at (del_lists s).1 j ≡ at s j) ⊎ (at (del_lists s).1 j ≡ none)
  pub del_lists_done :
      (q : ProductQuery) (s s' : Store) → del_lists s ≡ (ok tt, s') → at s' (list_key q) ≡ none

-- Redis answers every deletion.
pub record IsUp (r : Redis) : Type 0 where
  pub deletes : (k : Key) (s : r.Store) → (r.del k s).0 ≡ ok tt
  pub deletes_lists : (s : r.Store) → (r.del_lists s).0 ≡ ok tt
