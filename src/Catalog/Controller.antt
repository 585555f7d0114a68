-- ===== src/Catalog/Controller.antt =====
-- src/services/product-catalog/controllers/product.controller.ts. What a schema's `parse` makes of a
-- query or a body, or what it throws, is an argument; of a new product it is the row, with the
-- identifier that is drawn for it. The rows of errors that the controller stores are a list beside
-- those that the cache stores.
use advanced_node.Common.{String, Bool, false, Option, none, some}
use advanced_node.Exec.{Exec, Result, pure, throw, query, ◌>>=◌}
use advanced_node.Shared.Errors.{Exception, is_not_found}
use advanced_node.Shared.Reply.{Reply, ReplyMethod, decorate_reply, send_ok, send_created}
use advanced_node.Shared.AddErrorHelper.{ErrorEntry, App, lift}
use advanced_node.Shared.Catch.{success, guarded}
use advanced_node.Catalog.Tables.{Product, ProductQuery, Page}
use advanced_node.Catalog.Cache.{Parties, Catalog}
use advanced_node.Catalog.Products
use advanced_node.Catalog.Products.{product_missing}

pub data Content : Type 0 where
  page : Page → Content
  product : Product → Content

-- A request to one of the routes of routes/product.routes.ts.
pub data Request : Type 0 where
  list search : Result ProductQuery → Request
  show remove : String → Request
  post : Result Product → Request
  put : String → Result (Product → Product) → Request

abbrev never : Exception → Bool
never e = false

abbrev pub reply_with : ReplyMethod → String → Content → Reply Content
reply_with m message content = decorate_reply m (success message content)

-- `data: {}`
abbrev pub gone_reply : Bool → Reply Content
gone_reply deleted =
    decorate_reply send_ok
      (record { message = some "Product deleted successfully"; content = none; error = some "" })

module _ (p : Parties) where
  -- `if (!product) throw new NotFoundError(…)`
  abbrev pub required : {S : Type 0} → Option Product → Exec S Product
  required none = throw product_missing
  required (some x) = pure x

  module _ (stores : ErrorEntry → Bool) where
    unfoldable pub get_all : Result ProductQuery → Exec (App (Catalog p)) (Reply Content)
    get_all parsed = guarded stores "ProductController.getAll" "Failed to fetch products" never do
      q ← query (λ _. parsed)
      result ← lift (Products.get_all p q)
      pure (reply_with send_ok "Products fetched successfully" (page result))

    unfoldable pub get_by_id : String → Exec (App (Catalog p)) (Reply Content)
    get_by_id id =
        guarded stores "ProductController.getById" "Failed to fetch product" is_not_found do
          x ← lift (do found ← Products.get_by_id p id; required found)
          pure (reply_with send_ok "Product fetched successfully" (product x))

    unfoldable pub create : Result Product → Exec (App (Catalog p)) (Reply Content)
    create parsed = guarded stores "ProductController.create" "Failed to create product" never do
      new ← query (λ _. parsed)
      x ← lift (Products.create p new)
      pure (reply_with send_created "Product created successfully" (product x))

    unfoldable pub update :
        String → Result (Product → Product) → Exec (App (Catalog p)) (Reply Content)
    update id parsed =
        guarded stores "ProductController.update" "Failed to update product" is_not_found do
          change ← query (λ _. parsed)
          x ← lift (Products.update p id change)
          pure (reply_with send_ok "Product updated successfully" (product x))

    unfoldable pub delete : String → Exec (App (Catalog p)) (Reply Content)
    delete id =
        guarded stores "ProductController.delete" "Failed to delete product" is_not_found
          do deleted ← lift (Products.delete p id); pure (gone_reply deleted)

    unfoldable pub search_all : Result ProductQuery → Exec (App (Catalog p)) (Reply Content)
    search_all parsed = guarded stores "ProductController.search" "Search failed" never do
      q ← query (λ _. parsed)
      result ← lift (Products.search p q)
      pure (reply_with send_ok "Search completed successfully" (page result))

    unfoldable pub handle : Request → Exec (App (Catalog p)) (Reply Content)
    handle (list q) = get_all q
    handle (search q) = search_all q
    handle (show id) = get_by_id id
    handle (remove id) = delete id
    handle (post new) = create new
    handle (put id change) = update id change
