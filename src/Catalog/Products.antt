-- ===== src/Catalog/Products.antt =====
-- src/services/product-catalog: product.repository.ts and product.service.ts. A product's data
-- comes as a function of the row that it changes.
use advanced_node.Common.{
  ℕ, ◌+◌, ◌-◌, ◌*◌, ◌/◌, String, Bool, true, false, Option, none, some, ltb, ◌==◌, if◌then◌else◌,
}
use advanced_node.Exec.{Exec, Result, ok, thrown, pure, throw, query, ◌>>=◌}
use advanced_node.Exec.Focus.{focus}
use advanced_node.Shared.Errors.{Exception, app, not_found}
use advanced_node.Catalog.Tables.{Product, ProductQuery, Filter, Meta, Page, list_key, product_key}
use advanced_node.Catalog.Cache
use advanced_node.Catalog.Cache.{Parties, Catalog}

-- `if (categoryId)`, `if (search)`: the empty text counts as absent.
abbrev pub given : Option String → Option String
given none = none
given (some s) = if s == "" then none else some s

abbrev pub where_of : ProductQuery → Filter
where_of q = record {
  category_id = given q.category_id;
  price_gte = q.min_price;
  price_lte = q.max_price;
  contains = given q.search;
}

-- `Math.ceil(total / limit)` of a positive limit.
abbrev pub ceil_div : ℕ → ℕ → ℕ
ceil_div total limit = (total + (limit - 1)) / limit

unfoldable pub meta_of : ProductQuery → ℕ → Meta
meta_of q total = record {
  page = q.page;
  limit = q.limit;
  total = total;
  total_pages = ceil_div total q.limit;
  has_next = ltb (q.page * q.limit) total;
  has_prev = ltb 1 q.page;
}

abbrev pub skip_of : ProductQuery → ℕ
skip_of q = (q.page - 1) * q.limit

-- The lifetime of a cached entry, in seconds.
abbrev pub ttl : ℕ
ttl = 300

abbrev pub product_missing : Exception
product_missing = app (not_found "Product not found")

module _ (p : Parties) where
  abbrev pub on_db : {A : Type 0} → Exec p.shelf.table.Db A → Exec (Catalog p) A
  on_db = focus (λ s. s.db) (λ db s. record s { db = db })

  unfoldable pub find_all : ProductQuery → Exec p.shelf.table.Db Page
  unfolding meta_of
  find_all q = do
    products ← query (p.shelf.find_page (where_of q) (skip_of q) q.limit)
    total ← query (p.shelf.count (where_of q))
    pure (record { products = products; meta = meta_of q total })

  abbrev pub deleted_of : Result (Unit {0}) → Bool
  deleted_of (ok tt) = true
  deleted_of (thrown e) = false

  -- The repository's `delete`: whatever is thrown is the answer `false`.
  unfoldable pub delete_row : String → Exec p.shelf.table.Db Bool
  delete_row id db = let (r, db') = p.shelf.delete id db in (ok (deleted_of r), db')

  abbrev pub list_unless_cached : ProductQuery → Option Page → Exec (Catalog p) Page
  list_unless_cached q (some page) = pure page
  list_unless_cached q none = do
    result ← on_db (find_all q)
    _ ← Cache.set p (list_key q) result ttl
    pure result

  unfoldable pub get_all : ProductQuery → Exec (Catalog p) Page
  unfolding find_all Cache.get Cache.set
  get_all q = do cached ← Cache.get p (list_key q); list_unless_cached q cached

  abbrev pub search : ProductQuery → Exec (Catalog p) Page
  search q = get_all q

  abbrev pub keep_found : String → Option Product → Exec (Catalog p) (Unit {0})
  keep_found id none = pure tt
  keep_found id (some product) = Cache.set p (product_key id) product ttl

  abbrev pub find_unless_cached : String → Option Product → Exec (Catalog p) (Option Product)
  find_unless_cached id (some product) = pure (some product)
  find_unless_cached id none = do
    product ← on_db (query (p.shelf.table.find_unique id))
    _ ← keep_found id product
    pure product

  unfoldable pub get_by_id : String → Exec (Catalog p) (Option Product)
  unfolding Cache.get Cache.set
  get_by_id id = do cached ← Cache.get p (product_key id); find_unless_cached id cached

  unfoldable pub create : Product → Exec (Catalog p) Product
  unfolding Cache.delete_lists
  create new = do product ← on_db (p.shelf.table.create new); _ ← Cache.delete_lists p; pure product

  -- The check `!product` never holds: the call returns a row or throws.
  unfoldable pub update : String → (Product → Product) → Exec (Catalog p) Product
  unfolding Cache.delete Cache.delete_lists
  update id change = do
    product ← on_db (p.shelf.table.update id change)
    _ ← Cache.delete p (product_key id)
    _ ← Cache.delete_lists p
    pure product

  abbrev pub forget_deleted : String → Bool → Exec (Catalog p) Bool
  forget_deleted id false = throw product_missing
  forget_deleted id true = do
    _ ← Cache.delete p (product_key id)
    _ ← Cache.delete_lists p
    pure true

  unfoldable pub delete : String → Exec (Catalog p) Bool
  unfolding delete_row Cache.delete Cache.delete_lists
  delete id = do deleted ← on_db (delete_row id); forget_deleted id deleted
