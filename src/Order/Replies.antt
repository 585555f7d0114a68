-- ===== src/Order/Replies.antt =====
-- What the HTTP routes of the order service answer.
use advanced_node.Common.{String, Bool, Bool-cases, inl, inr, Option, none, some, ◌==◌}
use advanced_node.Exec.Ensures.{Ensures, Ensures-bind, Ensures-any}
use advanced_node.Shared.Reply.{send_ok, send_created}
use advanced_node.Shared.AddErrorHelper.{ErrorEntry, App, lift}
use advanced_node.Shared.Catch.{respond, success}
use advanced_node.Shared.Consistent.{
  IsConsistent, decorate_reply-IsConsistent, respond-IsConsistent, sent, sent_parsed,
}
use advanced_node.Order.Repository.{Order}
use advanced_node.Order.World.{Parties, World}
use advanced_node.Order.Service
use advanced_node.Order.Service.{CreateOrderData}
use advanced_node.Order.Controller
use advanced_node.Order.Controller.{
  Content, Request, handle, list_of, show_found, fetched_reply, created_reply, cancelled_reply,
  listed_reply, order, orders,
}

module _ (p : Parties) (stores : ErrorEntry → Bool) where
  list_of-IsConsistent :
      (user_id : String) (s : App (World p))
      → Ensures (λ r _. IsConsistent r) (λ _ _. Unit {0}) (list_of p stores user_id s)
  list_of-IsConsistent user_id s = elim (Bool-cases (user_id == "")) [
    | inl absent ↦ rw absent (record { holds = tt })
    | inr present ↦ rw present (
        sent (lift (Service.get_user_orders p user_id)) listed_reply s (λ os.
          decorate_reply-IsConsistent send_ok (success "Orders fetched successfully" (orders os))))
  ]

  show_found-IsConsistent :
      (r : Option Order) (s : App (World p))
      → Ensures (λ r _. IsConsistent r) (λ _ _. Unit {0}) (show_found p stores r s)
  show_found-IsConsistent none s = record { holds = tt }
  show_found-IsConsistent (some o) s = record {
    holds = decorate_reply-IsConsistent send_ok (success "Order fetched successfully" (order o));
  }

  -- Whatever the request and whatever fails, each route of the order service answers with a body
  -- that repeats the status of the reply and has a message.
  pub handle_orders-IsConsistent :
      (r : Request) (s : App (World p)) → IsConsistent (respond (handle p stores r) s).0
  unfolding handle Controller.get_user_orders Controller.get_by_id Controller.create
      Controller.cancel
  handle_orders-IsConsistent (Controller.list user_id) s =
      respond-IsConsistent stores _ _ _ _ s (list_of-IsConsistent user_id s)
  handle_orders-IsConsistent (Controller.show id user_id) s =
      respond-IsConsistent stores _ _ _ _ s (
        Ensures-bind (lift (Service.get_by_id p id user_id)) (show_found p stores) s
          (Ensures-any (lift (Service.get_by_id p id user_id) s))
          (λ r s' _. show_found-IsConsistent r s'))
  handle_orders-IsConsistent (Controller.withdraw id user_id) s =
      respond-IsConsistent stores _ _ _ _ s (
        sent (lift (Service.cancel p id user_id)) cancelled_reply s (λ o.
          decorate_reply-IsConsistent send_ok (success "Order cancelled successfully" (order o))))
  handle_orders-IsConsistent (Controller.place drawn body) s =
      respond-IsConsistent stores _ _ _ _ s (
        sent_parsed body (λ d. lift (Service.create p drawn d)) created_reply s
          (λ o.
            decorate_reply-IsConsistent send_created
              (success "Order created successfully" (order o))))
