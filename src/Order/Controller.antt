-- ===== src/Order/Controller.antt =====
-- src/services/order/controllers/order.controller.ts, with the routes of
-- src/services/order/routes/order.routes.ts. What the schema makes of a body is a parameter; an
-- absent `userId` is the empty text, which no user has.
use advanced_node.Common.{String, Bool, ◌||◌, if◌then◌else◌, Option, none, some, List, ◌==◌}
use advanced_node.Exec.{Exec, Result, pure, query, throw, ◌>>=◌}
use advanced_node.Shared.Errors.{
  Exception, app, bad_request, not_found, is_bad_request, is_not_found,
}
use advanced_node.Shared.Reply.{Reply, decorate_reply, send_ok, send_created}
use advanced_node.Shared.AddErrorHelper.{ErrorEntry, App, lift}
use advanced_node.Shared.Catch.{success, guarded}
use advanced_node.Order.Repository.{Order, Drawn}
use advanced_node.Order.World.{Parties, World}
use advanced_node.Order.Service
use advanced_node.Order.Service.{CreateOrderData}

pub data Content : Type 0 where
  order : Order → Content
  orders : List Order → Content

-- The two classes that `cancel` throws again.
abbrev pub is_refusal : Exception → Bool
is_refusal e = is_not_found e || is_bad_request e

pub data Request : Type 0 where
  list : (user_id : String) → Request
  show withdraw : (id user_id : String) → Request
  place : Drawn → Result CreateOrderData → Request

abbrev pub fetched_reply : Order → Reply Content
fetched_reply o = decorate_reply send_ok (success "Order fetched successfully" (order o))

abbrev pub created_reply : Order → Reply Content
created_reply o = decorate_reply send_created (success "Order created successfully" (order o))

abbrev pub cancelled_reply : Order → Reply Content
cancelled_reply o = decorate_reply send_ok (success "Order cancelled successfully" (order o))

abbrev pub listed_reply : List Order → Reply Content
listed_reply os = decorate_reply send_ok (success "Orders fetched successfully" (orders os))

module _ (p : Parties) (stores : ErrorEntry → Bool) where
  abbrev pub list_of : String → Exec (App (World p)) (Reply Content)
  list_of user_id =
      if user_id == ""
      then throw (app (bad_request "userId is required"))
      else (do os ← lift (Service.get_user_orders p user_id); pure (listed_reply os))

  unfoldable pub get_user_orders : String → Exec (App (World p)) (Reply Content)
  unfolding Service.get_user_orders
  get_user_orders user_id =
      guarded stores "OrderController.getUserOrders" "Failed to fetch orders" is_bad_request
        (list_of user_id)

  abbrev pub show_found : Option Order → Exec (App (World p)) (Reply Content)
  show_found none = throw (app (not_found "Order not found"))
  show_found (some o) = pure (fetched_reply o)

  unfoldable pub get_by_id : String → String → Exec (App (World p)) (Reply Content)
  unfolding Service.get_by_id
  get_by_id id user_id =
      guarded stores "OrderController.getById" "Failed to fetch order" is_not_found
        do found ← lift (Service.get_by_id p id user_id); show_found found

  unfoldable pub create : Drawn → Result CreateOrderData → Exec (App (World p)) (Reply Content)
  unfolding Service.create
  create drawn parsed =
      guarded stores "OrderController.create" "Failed to create order" is_bad_request do
        body ← query (λ _. parsed)
        o ← lift (Service.create p drawn body)
        pure (created_reply o)

  unfoldable pub cancel : String → String → Exec (App (World p)) (Reply Content)
  unfolding Service.cancel
  cancel id user_id =
      guarded stores "OrderController.cancel" "Failed to cancel order" is_refusal
        do o ← lift (Service.cancel p id user_id); pure (cancelled_reply o)

  unfoldable pub handle : Request → Exec (App (World p)) (Reply Content)
  handle (list user_id) = get_user_orders user_id
  handle (show id user_id) = get_by_id id user_id
  handle (withdraw id user_id) = cancel id user_id
  handle (place drawn body) = create drawn body
