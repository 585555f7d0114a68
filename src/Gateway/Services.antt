-- ===== src/Gateway/Services.antt =====
-- The class MessagingService of src/services/api-gateway/services/messaging.service.ts: what the
-- gateway asks the other services, and what it makes of their answers. What awaiting a call of
-- `rpcCall` comes to depends on the broker and the service asked, so it is a field of `Bus`, as is
-- what happens while the gateway waits.
use advanced_node.Common.{
  ℕ, zero, suc, String, ◌≡◌, Option, none, some, List, [], ◌∷◌, ◌++◌, ◌==◌, if◌then◌else◌,
}
use advanced_node.Exec.{Exec, pure, throw, try_catch, ◌>>=◌}
use advanced_node.Rpc.Wire.{Response}
use advanced_node.Shared.Errors.{Exception, error, message_of}

-- An object; of two fields with one name the later counts, as where `...data` is spread.
abbrev pub Object : Type 0 → Type 0
Object V = List (String × V)

pub record Call (V : Type 0) : Type 0 where
  pub queue : String
  pub payload : Object V
  pub timeout : ℕ

pub record Bus (V D : Type 0) : Type 1 where
  pub Net : Type 0
  pub rpc_call : Call V → Exec Net (Response D)
  pub pause : ℕ → Net → Net
  -- The calls that the method at hand has made.
  pub calls : Net → List (Call V)
  pub called : (c : Call V) (n : Net) → calls (rpc_call c n).1 ≡ calls n ++ c ∷ []
  pub paused : (ms : ℕ) (n : Net) → calls (pause ms n) ≡ calls n

-- `response.error || otherwise`
abbrev pub text_or : Option String → String → String
text_or none otherwise = otherwise
text_or (some e) otherwise = if e == "" then otherwise else e

abbrev pub product_unavailable : Exception
product_unavailable = error "Product service unavailable"

abbrev pub order_unavailable : Exception
order_unavailable = error "Order service unavailable"

abbrev pub inventory_unavailable : Exception
inventory_unavailable = error "Inventory service unavailable"

abbrev pub unless_timeout : Exception → Exception
unless_timeout e = if message_of e == "RPC timeout" then product_unavailable else e

module _ {V D : Type 0} (b : Bus V D) where
  unfoldable pub rpc_with_retry : Call V → ℕ → Exec b.Net (Response D)
  rpc_with_retry c zero = try_catch (b.rpc_call c) throw
  rpc_with_retry c (suc retries) =
      try_catch (b.rpc_call c) λ e n. rpc_with_retry c retries (b.pause 1000 n)

  abbrev pub content_of : String → Response D → Exec b.Net (Option D)
  content_of failure response =
      if response.success
      then pure response.content
      else throw (error (text_or response.error failure))

  abbrev pub answered : {R : Type 0} → Exec b.Net R → (Exception → Exception) → Exec b.Net R
  answered m report = try_catch m λ e. throw (report e)

  -- The body that the methods share: the call, the test of `success` and the `catch` block.
  unfoldable pub ask : Call V → String → (Exception → Exception) → Exec b.Net (Option D)
  ask c failure report = answered (rpc_with_retry c 1 >>= content_of failure) report

  abbrev call : String → Object V → Call V
  call queue payload = record { queue = queue; payload = payload; timeout = 10000 }

  abbrev pub get_products : Object V → Exec b.Net (Option D)
  get_products query =
      ask (call "product.list.rpc" query) "Failed to get products" λ e. product_unavailable

  abbrev pub get_product_by_id : V → Exec b.Net (Option D)
  get_product_by_id id =
      ask (call "product.get.rpc" (("productId", id) ∷ [])) "Failed to get product"
        λ e. product_unavailable

  abbrev pub create_product : Object V → Exec b.Net (Option D)
  create_product d = ask (call "product.create.rpc" d) "Failed to create product" unless_timeout

  abbrev pub update_product : V → Object V → Exec b.Net (Option D)
  update_product id d =
      ask (call "product.update.rpc" (("productId", id) ∷ d)) "Failed to update product"
        λ e. product_unavailable

  -- The only one of its kind that returns the whole answer, whether or not it is a success.
  abbrev pub delete_product : V → Exec b.Net (Response D)
  delete_product id =
      answered (rpc_with_retry (call "product.delete.rpc" (("productId", id) ∷ [])) 1)
        λ e. product_unavailable

  abbrev pub get_categories : Exec b.Net (Option D)
  get_categories =
      ask (call "category.list.rpc" []) "Failed to get categories" λ e. product_unavailable

  abbrev pub get_category_by_id : V → Exec b.Net (Option D)
  get_category_by_id id =
      ask (call "category.get.rpc" (("categoryId", id) ∷ [])) "Failed to get category"
        λ e. product_unavailable

  abbrev pub create_category : Object V → Exec b.Net (Option D)
  create_category d = ask (call "category.create.rpc" d) "Failed to create category" unless_timeout

  abbrev pub update_category : V → Object V → Exec b.Net (Option D)
  update_category id d =
      ask (call "category.update.rpc" (("categoryId", id) ∷ d)) "Failed to update category"
        λ e. product_unavailable

  abbrev pub delete_category : V → Exec b.Net (Option D)
  delete_category id =
      ask (call "category.delete.rpc" (("categoryId", id) ∷ [])) "Failed to delete category"
        λ e. product_unavailable

  abbrev pub get_user_orders : V → Object V → Exec b.Net (Option D)
  get_user_orders user query =
      ask (call "order.list.rpc" (("userId", user) ∷ query)) "Failed to get orders"
        λ e. order_unavailable

  abbrev pub get_order_by_id : V → V → Exec b.Net (Option D)
  get_order_by_id id user =
      ask (call "order.get.rpc" (("orderId", id) ∷ ("userId", user) ∷ [])) "Failed to get order"
        λ e. order_unavailable

  abbrev pub create_order : Object V → Exec b.Net (Option D)
  create_order d =
      ask (record { queue = "order.create.rpc"; payload = d; timeout = 30000 })
        "Failed to create order" λ e. order_unavailable

  abbrev pub cancel_order : V → V → Exec b.Net (Option D)
  cancel_order id user =
      ask (call "order.cancel.rpc" (("orderId", id) ∷ ("userId", user) ∷ []))
        "Failed to cancel order" λ e. order_unavailable

  abbrev pub get_inventory : V → Exec b.Net (Response D)
  get_inventory id =
      answered (b.rpc_call (call "inventory.get.rpc" (("productId", id) ∷ [])))
        λ e. inventory_unavailable

  abbrev pub update_inventory : V → Object V → Exec b.Net (Response D)
  update_inventory id d =
      answered (b.rpc_call (call "inventory.update.rpc" (("productId", id) ∷ d)))
        λ e. inventory_unavailable
