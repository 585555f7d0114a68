-- ===== src/Catalog/Replies.antt =====
-- What the HTTP routes of the catalogue's products answer.
use advanced_node.Common.{String, Bool, ◌≡◌, refl, sym, ap, Option, none, some}
use advanced_node.Exec.{Exec, Result, ok, thrown, pure, ◌>>=◌}
use advanced_node.Shared.Errors.{is_not_found}
use advanced_node.Shared.Reply.{Reply, handle_error, send_ok, send_created}
use advanced_node.Shared.AddErrorHelper.{ErrorEntry, App, lift}
use advanced_node.Shared.Catch.{respond, guarded}
use advanced_node.Shared.Consistent.{
  IsConsistent, decorate_reply-IsConsistent, respond-IsConsistent, sent, sent_parsed,
}
use advanced_node.Catalog.Tables.{Product, product_key}
use advanced_node.Catalog.Cache
use advanced_node.Catalog.Cache.{Parties, Catalog, got}
use advanced_node.Catalog.Coherence.{product_row, IsCoherent}
use advanced_node.Catalog.Products
use advanced_node.Catalog.Products.{find_unless_cached, keep_found, on_db}
use advanced_node.Catalog.Controller
use advanced_node.Catalog.Controller.{
  Content, Request, reply_with, gone_reply, required, page, product, handle,
}

module _ (p : Parties) (stores : ErrorEntry → Bool) where
  -- Whatever the request and whatever fails, each route of the catalogue's products answers with a
  -- body that repeats the status of the reply and has a message.
  pub handle_products-IsConsistent :
      (r : Request) (s : App (Catalog p)) → IsConsistent (respond (handle p stores r) s).0
  unfolding handle Controller.get_all Controller.get_by_id Controller.create Controller.update
      Controller.delete Controller.search_all
  handle_products-IsConsistent (Controller.list q) s = respond-IsConsistent stores _ _ _ _ s (
      sent_parsed q (λ x. lift (Products.get_all p x))
        (λ x. reply_with send_ok "Products fetched successfully" (page x)) s
        (λ x. decorate_reply-IsConsistent send_ok _))
  handle_products-IsConsistent (Controller.search q) s = respond-IsConsistent stores _ _ _ _ s (
      sent_parsed q (λ x. lift (Products.search p x))
        (λ x. reply_with send_ok "Search completed successfully" (page x)) s
        (λ x. decorate_reply-IsConsistent send_ok _))
  handle_products-IsConsistent (Controller.show id) s = respond-IsConsistent stores _ _ _ _ s (
      sent (lift (Products.get_by_id p id >>= required p))
        (λ x. reply_with send_ok "Product fetched successfully" (product x)) s
        (λ x. decorate_reply-IsConsistent send_ok _))
  handle_products-IsConsistent (Controller.remove id) s =
      respond-IsConsistent stores _ _ _ _ s (
        sent (lift (Products.delete p id)) gone_reply s
          (λ x. decorate_reply-IsConsistent send_ok _))
  handle_products-IsConsistent (Controller.post new) s = respond-IsConsistent stores _ _ _ _ s (
      sent_parsed new (λ x. lift (Products.create p x))
        (λ x. reply_with send_created "Product created successfully" (product x)) s
        (λ x. decorate_reply-IsConsistent send_created _))
  handle_products-IsConsistent (Controller.put id d) s = respond-IsConsistent stores _ _ _ _ s (
      sent_parsed d (λ x. lift (Products.update p id x))
        (λ x. reply_with send_ok "Product updated successfully" (product x)) s
        (λ x. decorate_reply-IsConsistent send_ok _))

  -- The product in the reply, or "not found".
  abbrev pub Shown : Option Product → Reply Content → Type 0
  Shown (some x) r = r ≡ reply_with send_ok "Product fetched successfully" (product x)
  Shown none r = r.status_code ≡ 404

  missed_one :
      (id : String) (s : Catalog p)
      → p.shelf.table.find_unique id s.db ≡ ok (product_row p s id)
      → (find_unless_cached p id none s).0 ≡ ok (product_row p s id)
  unfolding Cache.set
  missed_one id s up = rw up (kept_answer (product_row p s id) s)
    where
      kept_answer :
          (o : Option Product) (s1 : Catalog p)
          → (◌>>=◌ (keep_found p id o) (λ _. pure o) s1).0 ≡ ok o
      kept_answer none s1 = refl
      kept_answer (some x) s1 = refl

  pub get_by_id-found :
      (id : String) (s : Catalog p)
      → p.shelf.table.find_unique id s.db ≡ ok (product_row p s id)
      → IsCoherent p s
      → (Products.get_by_id p id s).0 ≡ ok (product_row p s id)
  unfolding Products.get_by_id Cache.get
  get_by_id-found id s up h = go (p.redis.get (product_key id) s.cache) refl
    where
      go :
          (r : Result (Option Product))
          → p.redis.get (product_key id) s.cache ≡ r
          → ((got p r >>= find_unless_cached p id) s).0 ≡ ok (product_row p s id)
      go (ok (some v)) e = ap ok (sym (h.agrees id v (p.redis.get_done (product_key id) s.cache e)))
      go (ok none) e = missed_one id (got p {A = Product} (ok none) s).1 up
      go (thrown x) e = missed_one id (got p {A = Product} (thrown x) s).1 up

  -- When the cached products agree with the table and the database answers the read, a request for
  -- one product is answered with the table's row if there is one and with 404 if there is none,
  -- whatever Redis does.
  pub get_by_id-Shown :
      (id : String) (s : App (Catalog p))
      → p.shelf.table.find_unique id s.db.db ≡ ok (product_row p s.db id)
      → IsCoherent p s.db
      → Shown (product_row p s.db id) (respond (Controller.get_by_id p stores id) s).0
  unfolding Controller.get_by_id respond guarded handle_error
  get_by_id-Shown id s up h =
      go (product_row p s.db id) (Products.get_by_id p id) (get_by_id-found id s.db up h)
    where
      go :
          (o : Option Product) (m : Exec (Catalog p) (Option Product))
          → (m s.db).0 ≡ ok o
          → Shown o
              (respond
                (guarded stores "ProductController.getById" "Failed to fetch product" is_not_found
                  (do
                    x ← lift (m >>= required p)
                    pure (reply_with send_ok "Product fetched successfully" (product x))))
                s).0
      go (some x) m found = rw found refl
      go none m found = rw found refl
