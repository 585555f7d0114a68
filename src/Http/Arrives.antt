-- ===== src/Http/Arrives.antt =====
-- What one call of the gateway for a product comes to.
use mathlib.Core.Option
use mathlib.Core.Path.{subst}
use advanced_node.Common.{ℕ, suc, String, ◌≡◌, ◌≢◌, refl, sym, Bool, Option, [], ◌∷◌}
use advanced_node.Exec.{Exec, Result, ok, thrown, pure, ◌>>=◌}
use advanced_node.Exec.Ensures.{Ensures, Outcome}
use advanced_node.Rpc.Wire.{Response, settled}
use advanced_node.Shared.AddErrorHelper.{ErrorEntry, App}
use advanced_node.Shared.Errors.{Exception, message_of}
use advanced_node.Catalog.Tables.{Product}
use advanced_node.Catalog.Cache.{Catalog}
use advanced_node.Catalog.Coherence.{product_row, IsCoherent, KeepsCoherent, get_by_id-IsCoherent}
use advanced_node.Catalog.Products
use advanced_node.Catalog.Replies.{get_by_id-found}
use advanced_node.Catalog.Messaging.{
  Site, Shop, Content, product, done, on_catalog, get_product, serving,
}
use advanced_node.Gateway.Services.{Call}
use advanced_node.Http.Link.{Fate, in_time, late, lost, Link, serving_queue, replied, arrives}

module _ (s : Site) (stores : ErrorEntry → Bool)
    (others : Call String → Exec (App (Shop s)) (Response Content)) where
  abbrev pub row : Link s → String → Option Product
  row n id = product_row s.parties n.shop.db.catalog id

  -- The database answers the read of the product.
  abbrev pub CanRead : String → Catalog s.parties → Type 0
  CanRead id c = s.parties.shelf.table.find_unique id c.db ≡ ok (product_row s.parties c id)

  abbrev pub found : Option Product → Response Content
  found o = done (Option.map product o)

  -- The handler's answer, and the catalogue it leaves.
  record Answers (id : String) (x : App (Shop s)) (out : Result (Response Content) × App (Shop s))
      : Type 0 where
    answers : out.0 ≡ ok (found (product_row s.parties x.db.catalog id))
    kept : KeepsCoherent s.parties x.db.catalog out.1.db.catalog

  kept_always :
      (id : String) (c : Catalog s.parties) (r : Result (Option Product)) (c' : Catalog s.parties)
      → Outcome
          (λ r c'. (r ≡ product_row s.parties c id) × KeepsCoherent s.parties c c')
          (λ _ c'. KeepsCoherent s.parties c c')
          r
          c'
      → KeepsCoherent s.parties c c'
  kept_always id c (ok a) c' h = h.1
  kept_always id c (thrown e) c' h = h

  serving-Answers :
      (api : String) (text : Exception → String) (m : Exec (Catalog s.parties) (Option Product))
      (x : App (Shop s)) (o : Option Product)
      → (m x.db.catalog).0 ≡ ok o
      → ((serving s stores api text (do a ← on_catalog s m; pure (found a)) x).0 ≡ ok (found o))
        × ((serving s stores api text (do a ← on_catalog s m; pure (found a)) x).1.db.catalog
            ≡ (m x.db.catalog).1)
  unfolding serving
  serving-Answers api text m x o e = (rw e refl, rw e refl)

  get_product-Answers :
      (id : String) (x : App (Shop s))
      → CanRead id x.db.catalog
      → IsCoherent s.parties x.db.catalog
      → Answers id x (get_product s stores id x)
  unfolding get_product
  get_product-Answers id x up h =
      let read : Result (Option Product) × Catalog s.parties =
        Products.get_by_id s.parties id x.db.catalog in
      let (same, left) =
        serving-Answers "MessagingService.getProductRPC" message_of
          (Products.get_by_id s.parties id) x (product_row s.parties x.db.catalog id)
          (get_by_id-found s.parties stores id x.db.catalog up h) in
      let kept : KeepsCoherent s.parties x.db.catalog read.1 =
        kept_always id x.db.catalog read.0 read.1
          (get_by_id-IsCoherent s.parties id x.db.catalog h).holds in
      record { answers = same; kept = subst (KeepsCoherent s.parties x.db.catalog) (sym left) kept }

  abbrev pub product_call : String → Call String
  product_call id = record {
    queue = "product.get.rpc";
    payload = ("productId", id) ∷ [];
    timeout = 10000;
  }

  serving_product :
      (id : String) → serving_queue s stores others (product_call id) ≡ get_product s stores id
  unfolding serving_queue
  serving_product id = refl

  -- One call later.
  pub record Later (n n' : Link s) : Type 0 where
    pub kept : KeepsCoherent s.parties n.shop.db.catalog n'.shop.db.catalog
    pub fates : (k : ℕ) → n'.fates k ≡ n.fates (suc k)

  pub record Ready (id : String) (n : Link s) : Type 0 where
    pub readable : CanRead id n.shop.db.catalog
    pub coherent : IsCoherent s.parties n.shop.db.catalog

  replied-found :
      (id : String) (n n' : Link s) (r : Result (Response Content))
      → r ≡ ok (found (row n id))
      → Later n n'
      → Outcome
          (λ r n'. (r ≡ found (row n id)) × Later n n')
          (λ e n'. (in_time ≢ in_time) × Later n n')
          (replied s stores others r)
          n'
  unfolding settled
  replied-found id n n' r e later = rw e (refl, later)

  pub arrives-found :
      (f : Fate) (id : String) (n : Link s)
      → Ready id n
      → Ensures
          (λ r n'. (r ≡ found (row n id)) × Later n n')
          (λ e n'. (f ≢ in_time) × Later n n')
          (arrives s stores others f (product_call id) n)
  unfolding serving_queue
  arrives-found in_time id n ready =
      let served = get_product-Answers id n.shop ready.readable ready.coherent in
      record {
        holds =
            replied-found id n _ _ served.answers
              (record { kept = served.kept; fates = λ k. refl });
      }
  arrives-found late id n ready =
      let served = get_product-Answers id n.shop ready.readable ready.coherent in
      record { holds = (λ e. absurd (cc e), record { kept = served.kept; fates = λ k. refl }) }
  arrives-found lost id n ready = record {
    holds = (
      λ e. absurd (cc e),
      record { kept = record { db = refl; coherent = ready.coherent }; fates = λ k. refl },
    );
  }

  pub Ready-later : (id : String) (n n' : Link s) → Ready id n → Later n n' → Ready id n'
  Ready-later id n n' ready later = record {
    readable =
        subst (λ d. s.parties.shelf.table.find_unique id d ≡ ok (s.parties.shelf.table.row d id))
          (sym later.kept.db) ready.readable;
    coherent = later.kept.coherent;
  }
