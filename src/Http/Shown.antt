-- ===== src/Http/Shown.antt =====
-- What a client of the gateway sees of the catalogue's products.
use mathlib.Core.Option
use advanced_node.Common.{String, ◌≡◌, ◌≢◌, refl, ap, ◌∙◌, Bool, Option, none, some}
use advanced_node.Exec.{Exec, Result, ok, thrown, pure, throw, ◌>>=◌}
use advanced_node.Exec.Ensures.{Ensures, Ensures-bind, Ensures-try, Ensures-weaken, Outcome}
use advanced_node.Rpc.Wire.{Response}
use advanced_node.Shared.AddErrorHelper.{ErrorEntry, App}
use advanced_node.Shared.Catch.{respond, answer as answer_of}
use advanced_node.Shared.Errors.{Exception}
use advanced_node.Shared.Reply.{Reply}
use advanced_node.Catalog.Coherence.{KeepsCoherent}
use advanced_node.Catalog.Messaging.{Site, Shop, Content, product}
use advanced_node.Gateway.Services.{Bus, Call, content_of, rpc_with_retry, ask, product_unavailable}
use advanced_node.Gateway.Parties.{JwtPayload}
use advanced_node.Gateway.Uuid.Groups.{IsUuid, is_valid_uuid_iff}
use advanced_node.Gateway.Hooks.{send_reply, failed_reply}
use advanced_node.Gateway.Products as Route
use advanced_node.Gateway.Products.{answer, Content as RouteContent}
use advanced_node.Http.Link.{in_time, Link, arrives, bus}
use advanced_node.Http.Arrives.{row, found, product_call, Ready, arrives-found, Ready-later}

module _ (s : Site) (stores : ErrorEntry → Bool)
    (others : Call String → Exec (App (Shop s)) (Response Content)) where
  abbrev pub gateway_bus : Bus String Content
  gateway_bus = bus s stores others

  abbrev pub Unreached : Link s → Type 0
  Unreached n = (n.fates 0 ≢ in_time) × (n.fates 1 ≢ in_time)

  abbrev pub Keeps : Link s → Link s → Type 0
  Keeps n n' = KeepsCoherent s.parties n.shop.db.catalog n'.shop.db.catalog

  twice-found :
      (id : String) (n : Link s)
      → Ready s stores others id n
      → Ensures
          (λ r n'. (r ≡ found s stores others (row s stores others n id)) × Keeps n n')
          (λ e n'. Unreached n × Keeps n n')
          (rpc_with_retry gateway_bus (product_call s stores others id) 1 n)
  unfolding rpc_with_retry
  twice-found id n ready =
      Ensures-try (arrives s stores others (n.fates 0) (product_call s stores others id)) _ n
        (Ensures-weaken _ (arrives-found s stores others (n.fates 0) id n ready)
          (λ r n1 (same, later). (same, later.kept)) (λ e n1 k. k))
        λ e n1 (unreached, later).
          let again : Ready s stores others id n1 =
            Ready-later s stores others id n n1 ready later in
          let keeps : (n2 : Link s) → Keeps n1 n2 → Keeps n n2 =
            λ n2 k. record { db = k.db ∙ later.kept.db; coherent = k.coherent } in
          Ensures-try (arrives s stores others (n1.fates 0) (product_call s stores others id)) throw
            n1
            (Ensures-weaken _ (arrives-found s stores others (n1.fates 0) id n1 again)
              (λ r n2 (same, k). (
                same
                    ∙ ap (λ d. found s stores others (s.parties.shelf.table.row d id))
                        later.kept.db,
                keeps n2 k.kept,
              ))
              (λ e n2 (missed, k). (
                (unreached, λ in_time_then. missed (later.fates 0 ∙ in_time_then)),
                keeps n2 k.kept,
              )))
            λ e n2 k. record { holds = k }

  -- The reply with what the table holds, or the one that says that the service did not answer.
  pub data Seen (id : String) (n : Link s) (r : Reply (RouteContent Content)) (n' : Link s)
      : Type 0 where
    seen :
        r
          ≡ send_reply 200 "Product fetched successfully"
              (some (answer (Option.map product (row s stores others n id))))
              ""
        → Keeps n n'
        → Seen id n r n'
    unavailable :
        r ≡ send_reply 500 "Product service unavailable" none "Product service unavailable"
        → Unreached n
        → Keeps n n'
        → Seen id n r n'

  responded :
      (id : String) (n : Link s) (r : Result (Reply (RouteContent Content))) (n' : Link s)
      → Outcome (Seen id n) (λ _ _. ⊥) r n'
      → Seen id n (answer_of r) n'
  responded id n (ok r) n' h = h
  responded id n (thrown e) n' h = absurd h

  ask-found :
      (id : String) (n : Link s)
      → Ready s stores others id n
      → Ensures
          (λ o n'. (o ≡ Option.map product (row s stores others n id)) × Keeps n n')
          (λ e n'. (e ≡ product_unavailable) × Unreached n × Keeps n n')
          (ask gateway_bus
            (product_call s stores others id)
            "Failed to get product"
            (λ e. product_unavailable)
            n)
  unfolding ask
  ask-found id n ready =
      Ensures-try
        (rpc_with_retry gateway_bus (product_call s stores others id) 1
          >>= content_of gateway_bus "Failed to get product")
        (λ e. throw product_unavailable) n
        (Ensures-bind (rpc_with_retry gateway_bus (product_call s stores others id) 1)
          (content_of gateway_bus "Failed to get product") n (twice-found id n ready)
          λ r n' (same, keeps). rw same (record { holds = (refl, keeps) }))
        λ e n' (missed, keeps). record { holds = (refl, missed, keeps) }

  showing-Seen :
      (verify_access : String → Result JwtPayload) (id : String) (n : Link s)
      → Ready s stores others id n
      → Ensures (Seen id n) (λ _ _. ⊥) (Route.showing gateway_bus (λ t. t) verify_access id n)
  showing-Seen verify_access id n ready =
      let asked : Exec (Link s) (Option Content) =
        ask gateway_bus (product_call s stores others id) "Failed to get product"
          (λ e. product_unavailable) in
      let fetched : Option Content → Reply (RouteContent Content) =
        λ o. send_reply 200 "Product fetched successfully" (some (answer o)) "" in
      let failed : Exception → Reply (RouteContent Content) =
        failed_reply "Failed to fetch product" in
      Ensures-try (asked >>= λ o. pure (fetched o)) (λ e. pure (failed e)) n
        (Ensures-bind asked (λ o. pure (fetched o)) n (ask-found id n ready)
          λ o n' (same, keeps). record { holds = seen (ap fetched same) keeps })
        λ e n' (same, missed, keeps). record { holds = unavailable (ap failed same) missed keeps }

  -- `GET /products/:id` at the gateway, for an identifier of the right form, when the catalogue's
  -- database can read the row s stores others and its cached products agree with the table. If one of the gateway's
  -- two calls is answered in time, the reply has the status 200 and what the table holds, which is
  -- no data if there is no such product; it has the status 500 only if neither is. A first call that
  -- was served too late changes nothing of this. The table is left as it is and the cache agrees
  -- with it afterwards.
  pub get_product-Seen :
      (verify_access : String → Result JwtPayload) (id : String) (n : Link s)
      → IsUuid id
      → Ready s stores others id n
      → Seen id n
          (respond (Route.get_by_id gateway_bus (λ t. t) verify_access id) n).0
          (respond (Route.get_by_id gateway_bus (λ t. t) verify_access id) n).1
  unfolding respond Route.get_by_id
  get_product-Seen verify_access id n uuid ready =
      rw ((is_valid_uuid_iff id).1 uuid)
        (responded id n _ _ (showing-Seen verify_access id n ready).holds)
