-- ===== src/Inventory/Replies.antt =====
-- What the HTTP routes of the inventory service answer.
use advanced_node.Common.{String, ◌≡◌, refl, Bool, true, false, none, if◌then◌else◌}
use advanced_node.Exec.{Result, ok, thrown}
use advanced_node.Shared.Errors.{app, error}
use advanced_node.Shared.Reply.{Reply, decorate_reply, send_ok, send_bad_request}
use advanced_node.Shared.AddErrorHelper.{ErrorEntry, App, lift}
use advanced_node.Shared.Catch.{respond, guarded, success, failure}
use advanced_node.Shared.Consistent.{
  IsConsistent, decorate_reply-IsConsistent, respond-IsConsistent, sent, sent_parsed,
}
use advanced_node.Inventory.Repository.{Inventory, UpdateInventory, InventoryTable, assign}
use advanced_node.Inventory.Service
use advanced_node.Inventory.Service.{Item, StockResponse}
use advanced_node.Inventory.Controller
use advanced_node.Inventory.Controller.{
  Content, Request, ok_reply, reserve_reply, or_message, inventory, inventories, stock, handle,
}

fetched : (m : String) (c : Content) → IsConsistent (ok_reply m c)
fetched m c = decorate_reply-IsConsistent send_ok (success m c)

choice-IsConsistent :
    (b : Bool) (x y : Reply Content)
    → IsConsistent x
    → IsConsistent y
    → IsConsistent (if b then x else y)
choice-IsConsistent true x y h k = h
choice-IsConsistent false x y h k = k

reserve_reply-IsConsistent : (r : StockResponse) → IsConsistent (reserve_reply r)
reserve_reply-IsConsistent r =
    choice-IsConsistent r.success _ _ (fetched "Stock reserved successfully" (stock r)) (
      decorate_reply-IsConsistent send_bad_request
        (failure (or_message r.message "Failed to reserve stock")))

module _ (t : InventoryTable) (stores : ErrorEntry → Bool) where
  -- Whatever the request and whatever fails, each route of the inventory service answers with a body
  -- that repeats the status of the reply and has a message.
  pub handle-IsConsistent :
      (r : Request) (s : App t.Db) → IsConsistent (respond (handle t stores r) s).0
  unfolding handle Controller.get_all Controller.get_low_stock Controller.get_by_product_id
      Controller.update Controller.reserve_stock Controller.release_stock
  handle-IsConsistent Controller.list s = respond-IsConsistent stores _ _ _ _ s (
      sent (lift (Service.get_all t))
        (λ is. ok_reply "Inventory fetched successfully" (inventories is)) s
        (λ is. fetched "Inventory fetched successfully" (inventories is)))
  handle-IsConsistent Controller.low_stock s = respond-IsConsistent stores _ _ _ _ s (
      sent (lift (Service.get_low_stock t))
        (λ is. ok_reply "Low stock items fetched successfully" (inventories is)) s
        (λ is. fetched "Low stock items fetched successfully" (inventories is)))
  handle-IsConsistent (Controller.show k) s = respond-IsConsistent stores _ _ _ _ s (
      sent (lift (Service.get_by_product_id t k))
        (λ i. ok_reply "Inventory fetched successfully" (inventory i)) s
        (λ i. fetched "Inventory fetched successfully" (inventory i)))
  handle-IsConsistent (Controller.put k body) s = respond-IsConsistent stores _ _ _ _ s (
      sent_parsed body (λ u. lift (Service.update t k u))
        (λ i. ok_reply "Inventory updated successfully" (inventory i)) s
        (λ i. fetched "Inventory updated successfully" (inventory i)))
  handle-IsConsistent (Controller.reserve items) s = respond-IsConsistent stores _ _ _ _ s (
      sent_parsed items (λ is. lift (Service.reserve_stock t is)) reserve_reply s
        reserve_reply-IsConsistent)
  handle-IsConsistent (Controller.release items) s = respond-IsConsistent stores _ _ _ _ s (
      sent_parsed items (λ is. lift (Service.release_stock t is))
        (λ r. ok_reply "Stock released successfully" (stock r)) s
        (λ r. fetched "Stock released successfully" (stock r)))

  -- An update of a product that the inventory does not hold is answered with a server error, not
  -- with "not found".
  pub update-missing :
      (k : String) (body : UpdateInventory) (s : App t.Db)
      → t.row s.db k ≡ none
      → (respond (Controller.update t stores k (ok body)) s).0.status_code ≡ 500
  unfolding respond Controller.update guarded decorate_reply
  update-missing k body s missing =
      go (t.update k (assign body) s.db).0 (t.update k (assign body) s.db).1 refl
    where
      go :
          (r : Result Inventory) (db' : t.Db)
          → t.update k (assign body) s.db ≡ (r, db')
          → (respond (Controller.update t stores k (ok body)) s).0.status_code ≡ 500
      go (ok i) db' e =
          let (old, there, same, rows) = t.update_done k (assign body) s.db db' e in
          absurd (cc there)
      go (thrown (app x)) db' e = absurd ((t.update_failed k (assign body) s.db db' e).0)
      go (thrown (error m)) db' e = rw e refl
