-- ===== src/Order/Runs.antt =====
-- The order service over a run of requests, one after another, each of which may return or throw.
use advanced_node.Common.{
  String, ◌≡◌, sym, ap, ◌∙◌, true, false, Bool-cases, some, inl, inr, List, [], ◌∷◌, eq_iff, ◌==◌,
  All,
}
use advanced_node.Exec.Ensures.{Ensures-weaken, Leaves_always}
use advanced_node.Order.Repository.{Order, Drawn}
use advanced_node.Order.World.{Parties, World}
use advanced_node.Order.Settle.{order_row}
use advanced_node.Order.Create.{create-Placed}
use advanced_node.Order.Cancel.{Cancelled, cancel-Cancelled}
use advanced_node.Order.Service.{CreateOrderData, is_cancellable, cancel, create}

pub data OrderRequest : Type 0 where
  place : Drawn → CreateOrderData → OrderRequest
  withdraw : (id user_id : String) → OrderRequest

-- The request does not draw the identifier `id`, which is `uuidv4`'s promise for an order that is
-- there.
abbrev pub DrawsAnother : String → OrderRequest → Type 0
DrawsAnother id (place drawn d) = (drawn.order_id == id) ≡ false
DrawsAnother id (withdraw j user_id) = Unit {0}

module _ (p : Parties) where
  unfoldable pub serve : OrderRequest → World p → World p
  unfolding create cancel
  serve (place drawn d) w = (create p drawn d w).1
  serve (withdraw id user_id) w = (cancel p id user_id w).1

  unfoldable pub serve_all : List OrderRequest → World p → World p
  unfolding serve
  serve_all [] w = w
  serve_all (r ∷ rs) w = serve_all rs (serve r w)

  Cancelled-other :
      (id j user_id : String) (w w' : World p) (o r : Order)
      → order_row p w id ≡ some o
      → is_cancellable o.status ≡ false
      → Cancelled p j user_id w r w'
      → order_row p w' id ≡ some o
  Cancelled-other id j user_id w w' o r there closed
        (old, at_j, own, still_open, made, rows, calls, events) =
      elim (Bool-cases (j == id)) [
        | inr other ↦ (rw other at (rows id)) ∙ there
        | inl same ↦
            let e : j ≡ id = (eq_iff j id).0 same in
            let both : some old ≡ some o = sym at_j ∙ ap (order_row p w) e ∙ there in
            let one : old ≡ o = cc both in
            let opened : is_cancellable o.status ≡ true =
              sym (ap (λ x. is_cancellable x.status) one) ∙ still_open in
            absurd (cc)
      ]

  serve_keeps :
      (r : OrderRequest) (w : World p) (id : String) (o : Order)
      → DrawsAnother id r
      → order_row p w id ≡ some o
      → is_cancellable o.status ≡ false
      → order_row p (serve r w) id ≡ some o
  unfolding serve
  serve_keeps (place drawn d) w id o another there closed =
      Leaves_always (λ w'. order_row p w' id ≡ some o) _
        (Ensures-weaken _ (create-Placed p drawn d w)
          (λ a w' (stock, reserved, (same, fresh, charged, others, events)).
            others id another ∙ there)
          (λ e w' only. only.others id another ∙ there))
  serve_keeps (withdraw j user_id) w id o another there closed =
      Leaves_always (λ w'. order_row p w' id ≡ some o) _
        (Ensures-weaken _ (cancel-Cancelled p j user_id w)
          (λ a w' h. Cancelled-other id j user_id w w' o a there closed h)
          (λ e w' kept. kept.rows id ∙ there))

  -- An order that is neither pending nor confirmed keeps its row, status and all, through any run
  -- of requests that draw no identifier of an order that is there.
  pub serve_all-keeps_closed :
      (rs : List OrderRequest) (w : World p) (id : String) (o : Order)
      → All (DrawsAnother id) rs
      → order_row p w id ≡ some o
      → is_cancellable o.status ≡ false
      → order_row p (serve_all rs w) id ≡ some o
  unfolding serve_all
  serve_all-keeps_closed [] w id o another there closed = there
  serve_all-keeps_closed (r ∷ rs) w id o another there closed =
      serve_all-keeps_closed rs (serve r w) id o another.1
        (serve_keeps r w id o another.0 there closed) closed
