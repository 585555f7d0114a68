-- ===== src/Catalog/CategoryReplies.antt =====
-- What the HTTP routes of the catalogue's categories answer.
use advanced_node.Common.{String, ◌≡◌, refl, inl, inr, ◌⊎◌, Bool, none, ◌==◌, if◌then◌else◌}
use advanced_node.Exec.{Result, ok, thrown, ◌>>=◌}
use advanced_node.Shared.Reply.{Reply, handle_error, send_ok, send_created}
use advanced_node.Shared.AddErrorHelper.{ErrorEntry, App, lift}
use advanced_node.Shared.Catch.{respond, guarded}
use advanced_node.Shared.Consistent.{
  IsConsistent, decorate_reply-IsConsistent, respond-IsConsistent, sent, sent_parsed,
}
use advanced_node.Catalog.Categories
use advanced_node.Catalog.Categories.{Category, CategoryTable}
use advanced_node.Catalog.CategoryController
use advanced_node.Catalog.CategoryController.{
  Content, Request, reply_with, gone_reply, required, category, categories, handle,
}

module _ (t : CategoryTable) (stores : ErrorEntry → Bool) where
  pub handle_categories-IsConsistent :
      (r : Request) (s : App t.table.Db) → IsConsistent (respond (handle t stores r) s).0
  unfolding handle CategoryController.get_all CategoryController.get_by_id CategoryController.create
      CategoryController.update CategoryController.delete
  handle_categories-IsConsistent CategoryController.list s = respond-IsConsistent stores _ _ _ _ s (
      sent (lift (Categories.get_all t))
        (λ x. reply_with send_ok "Categories fetched successfully" (categories x)) s
        (λ x. decorate_reply-IsConsistent send_ok _))
  handle_categories-IsConsistent (CategoryController.show id) s =
      respond-IsConsistent stores _ _ _ _ s (
        sent (lift (Categories.get_by_id t id >>= required))
          (λ x. reply_with send_ok "Category fetched successfully" (category x)) s
          (λ x. decorate_reply-IsConsistent send_ok _))
  handle_categories-IsConsistent (CategoryController.remove id) s =
      respond-IsConsistent stores _ _ _ _ s (
        sent (lift (Categories.delete t id)) gone_reply s
          (λ x. decorate_reply-IsConsistent send_ok _))
  handle_categories-IsConsistent (CategoryController.post new) s =
      respond-IsConsistent stores _ _ _ _ s (
        sent_parsed new (λ x. lift (Categories.create t x))
          (λ x. reply_with send_created "Category created successfully" (category x)) s
          (λ x. decorate_reply-IsConsistent send_created _))
  handle_categories-IsConsistent (CategoryController.put id d) s =
      respond-IsConsistent stores _ _ _ _ s (
        sent_parsed d (λ x. lift (Categories.update t id x))
          (λ x. reply_with send_ok "Category updated successfully" (category x)) s
          (λ x. decorate_reply-IsConsistent send_ok _))

  -- What a deletion is answered with, and what the table then holds: no row at the identifier and no
  -- other change, or "not found" and no change.
  abbrev pub Removed : String → App t.table.Db → Reply Content → App t.table.Db → Type 0
  Removed id s r s' =
      ((r.status_code ≡ 200)
        × ((j : String) → t.table.row s'.db j ≡ (if id == j then none else t.table.row s.db j)))
      ⊎ ((r.status_code ≡ 404) × ((j : String) → t.table.row s'.db j ≡ t.table.row s.db j))

  Removed-case :
      (id : String) (s : App t.table.Db) (r : Result (Unit {0})) (db : t.table.Db)
      → t.delete id s.db ≡ (r, db)
      → Removed id s
          (respond (CategoryController.delete t stores id) s).0
          (respond (CategoryController.delete t stores id) s).1
  unfolding CategoryController.delete respond guarded handle_error Categories.delete
  Removed-case id s (ok tt) db e = rw e (inl (refl, t.delete_done id s.db db e))
  Removed-case id s (thrown x) db e = rw e (inr (refl, t.delete_failed id s.db db e))

  -- The answer to a deletion says whether the row is gone.
  pub delete-Removed :
      (id : String) (s : App t.table.Db)
      → Removed id s
          (respond (CategoryController.delete t stores id) s).0
          (respond (CategoryController.delete t stores id) s).1
  delete-Removed id s = Removed-case id s (t.delete id s.db).0 (t.delete id s.db).1 refl
