-- ===== src/Catalog/Messaging.antt =====
-- src/services/product-catalog/services/messaging.service.ts: the handlers of its RPC queues and the
-- events of products. A request's object comes as the values that the handler takes from it; of a
-- new row it is the row, with the identifier drawn for it. The handlers' rows of errors are a list
-- beside those that the cache stores.
use mathlib.Core.Option
use advanced_node.Common.{String, Bool, true, false, Option, none, some, List, [], ◌∷◌, ◌++◌, ℕ}
use advanced_node.Exec.{Exec, Result, ok, thrown, pure, try_catch, ◌>>=◌}
use advanced_node.Exec.Focus.{focus}
use advanced_node.Rpc.Wire.{Response}
use advanced_node.Shared.Errors.{Exception, message_of}
use advanced_node.Shared.Reply.{or_text}
use advanced_node.Shared.AddErrorHelper.{ErrorEntry, App, lift, add_error_helper}
use advanced_node.Catalog.Tables.{Product, ProductQuery, Page}
use advanced_node.Catalog.Cache.{Parties, Catalog}
use advanced_node.Catalog.Products
use advanced_node.Catalog.Categories
use advanced_node.Catalog.Categories.{Category, CategoryTable}

-- What an answer's `data` holds.
pub data Content : Type 0 where
  page : Page → Content
  product : Product → Content
  category : Category → Content
  categories : List Category → Content

-- The change is what the event's field `changes` makes of a row.
pub data Event : Type 0 where
  product_created : (id name sku : String) → (price : ℕ) → (category_id : String) → Event
  product_updated : String → (Product → Product) → Event
  product_deleted : String → Event

abbrev pub created_event : Product → Event
created_event x = product_created x.id x.name x.sku x.price x.category_id

-- Who the service calls; `publishes` is what the broker's client answers to an event.
pub record Site : Type 1 where
  pub parties : Parties
  pub categories : CategoryTable
  pub publishes : Event → Result (Unit {0})

pub record Shop (s : Site) : Type 0 where
  pub catalog : Catalog s.parties
  pub categories : s.categories.table.Db
  -- The events that reached the exchange of products.
  pub events : List Event

abbrev pub done : Option Content → Response Content
done c = record { success = true; content = c; error = none }

abbrev pub failed : String → Response Content
failed m = record { success = false; content = none; error = some m }

-- `error.message || 'Unknown error'`
abbrev pub message_or_unknown : Exception → String
message_or_unknown e = or_text (message_of e) "Unknown error"

module _ (s : Site) where
  abbrev pub on_catalog : {A : Type 0} → Exec (Catalog s.parties) A → Exec (App (Shop s)) A
  on_catalog m = lift (focus (λ x. x.catalog) (λ c x. record x { catalog = c }) m)

  abbrev pub on_categories : {A : Type 0} → Exec s.categories.table.Db A → Exec (App (Shop s)) A
  on_categories m = lift (focus (λ x. x.categories) (λ c x. record x { categories = c }) m)

  module _ (stores : ErrorEntry → Bool) where
    abbrev pub published : String → Event → Result (Unit {0}) → Exec (App (Shop s)) (Unit {0})
    published api e (ok tt) x =
        (ok tt, record x { db = record x.db { events = x.db.events ++ e ∷ [] } })
    published api e (thrown err) x = let (r, x') = add_error_helper stores api err x in (ok tt, x')

    -- The three `publish…` methods: a failure is stored and dropped.
    unfoldable pub publish : String → Event → Exec (App (Shop s)) (Unit {0})
    unfolding add_error_helper
    publish api e = published api e (s.publishes e)

    abbrev pub answer_error :
        String → (Exception → String) → Exception → Exec (App (Shop s)) (Response Content)
    answer_error api text e = do _ ← add_error_helper stores api e; pure (failed (text e))

    -- `try { … } catch (error) { … return { success: false, error } }`
    unfoldable pub serving :
        String
        → (Exception → String)
        → Exec (App (Shop s)) (Response Content)
        → Exec (App (Shop s)) (Response Content)
    unfolding add_error_helper
    serving api text m = try_catch m (answer_error api text)

    unfoldable pub list_products : ProductQuery → Exec (App (Shop s)) (Response Content)
    list_products q =
        serving "MessagingService.getProductsRPC" message_of do
          products ← on_catalog (Products.get_all s.parties q)
          pure (done (some (page products)))

    unfoldable pub get_product : String → Exec (App (Shop s)) (Response Content)
    get_product id =
        serving "MessagingService.getProductRPC" message_of
          do x ← on_catalog (Products.get_by_id s.parties id); pure (done (Option.map product x))

    unfoldable pub create_product : Product → Exec (App (Shop s)) (Response Content)
    create_product new = serving "MessagingService.createProductRPC" message_or_unknown do
      x ← on_catalog (Products.create s.parties new)
      _ ← publish "MessagingService.publishProductCreated" (created_event x)
      pure (done (some (product x)))

    unfoldable pub update_product :
        String → (Product → Product) → Exec (App (Shop s)) (Response Content)
    update_product id change = serving "MessagingService.updateProductRPC" message_of do
      x ← on_catalog (Products.update s.parties id change)
      _ ← publish "MessagingService.publishProductUpdated" (product_updated id change)
      pure (done (some (product x)))

    unfoldable pub delete_product : String → Exec (App (Shop s)) (Response Content)
    delete_product id = serving "MessagingService.deleteProductRPC" message_of do
      _ ← on_catalog (Products.delete s.parties id)
      _ ← publish "MessagingService.publishProductDeleted" (product_deleted id)
      pure (done none)

    unfoldable pub list_categories : Exec (App (Shop s)) (Response Content)
    list_categories =
        serving "MessagingService.getCategoriesRPC" message_of do
          cs ← on_categories (Categories.get_all s.categories)
          pure (done (some (categories cs)))

    unfoldable pub get_category : String → Exec (App (Shop s)) (Response Content)
    get_category id = serving "MessagingService.getCategoryRPC" message_of do
      c ← on_categories (Categories.get_by_id s.categories id)
      pure (done (Option.map category c))

    unfoldable pub create_category : Category → Exec (App (Shop s)) (Response Content)
    create_category new =
        serving "MessagingService.createCategoryRPC" message_or_unknown
          do c ← on_categories (Categories.create s.categories new); pure (done (some (category c)))

    unfoldable pub update_category :
        String → (Category → Category) → Exec (App (Shop s)) (Response Content)
    update_category id change = serving "MessagingService.updateCategoryRPC" message_of do
      c ← on_categories (Categories.update s.categories id change)
      pure (done (some (category c)))

    unfoldable pub delete_category : String → Exec (App (Shop s)) (Response Content)
    delete_category id =
        serving "MessagingService.deleteCategoryRPC" message_of
          do _ ← on_categories (Categories.delete s.categories id); pure (done none)
