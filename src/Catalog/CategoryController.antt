-- ===== src/Catalog/CategoryController.antt =====
-- src/services/product-catalog/controllers/category.controller.ts. What a schema's `parse` makes of a
-- body, or what it throws, is an argument; of a new category it is the row, with the identifier that
-- is drawn for it.
use advanced_node.Common.{String, Bool, false, Option, none, some, List}
use advanced_node.Exec.{Exec, Result, pure, throw, query, ◌>>=◌}
use advanced_node.Shared.Errors.{Exception, is_not_found}
use advanced_node.Shared.Reply.{Reply, ReplyMethod, decorate_reply, send_ok, send_created}
use advanced_node.Shared.AddErrorHelper.{ErrorEntry, App, lift}
use advanced_node.Shared.Catch.{success, guarded}
use advanced_node.Catalog.Categories
use advanced_node.Catalog.Categories.{Category, CategoryTable, category_missing}

pub data Content : Type 0 where
  categories : List Category → Content
  category : Category → Content

-- A request to one of the routes of routes/category.routes.ts.
pub data Request : Type 0 where
  list : Request
  show remove : String → Request
  post : Result Category → Request
  put : String → Result (Category → Category) → Request

abbrev never : Exception → Bool
never e = false

abbrev pub reply_with : ReplyMethod → String → Content → Reply Content
reply_with m message content = decorate_reply m (success message content)

-- `data: {}`
abbrev pub gone_reply : Bool → Reply Content
gone_reply deleted =
    decorate_reply send_ok
      (record { message = some "Category deleted successfully"; content = none; error = some "" })

-- `if (!category) throw new NotFoundError(…)`
abbrev pub required : {S : Type 0} → Option Category → Exec S Category
required none = throw category_missing
required (some c) = pure c

module _ (t : CategoryTable) (stores : ErrorEntry → Bool) where
  unfoldable pub get_all : Exec (App t.table.Db) (Reply Content)
  get_all = guarded stores "CategoryController.getAll" "Failed to fetch categories" never do
    cs ← lift (Categories.get_all t)
    pure (reply_with send_ok "Categories fetched successfully" (categories cs))

  unfoldable pub get_by_id : String → Exec (App t.table.Db) (Reply Content)
  get_by_id id =
      guarded stores "CategoryController.getById" "Failed to fetch category" is_not_found do
        c ← lift (do found ← Categories.get_by_id t id; required found)
        pure (reply_with send_ok "Category fetched successfully" (category c))

  unfoldable pub create : Result Category → Exec (App t.table.Db) (Reply Content)
  create parsed = guarded stores "CategoryController.create" "Failed to create category" never do
    new ← query (λ _. parsed)
    c ← lift (Categories.create t new)
    pure (reply_with send_created "Category created successfully" (category c))

  unfoldable pub update :
      String → Result (Category → Category) → Exec (App t.table.Db) (Reply Content)
  update id parsed =
      guarded stores "CategoryController.update" "Failed to update category" is_not_found do
        change ← query (λ _. parsed)
        c ← lift (Categories.update t id change)
        pure (reply_with send_ok "Category updated successfully" (category c))

  unfoldable pub delete : String → Exec (App t.table.Db) (Reply Content)
  delete id =
      guarded stores "CategoryController.delete" "Failed to delete category" is_not_found
        do deleted ← lift (Categories.delete t id); pure (gone_reply deleted)

  unfoldable pub handle : Request → Exec (App t.table.Db) (Reply Content)
  handle list = get_all
  handle (show id) = get_by_id id
  handle (remove id) = delete id
  handle (post new) = create new
  handle (put id change) = update id change
