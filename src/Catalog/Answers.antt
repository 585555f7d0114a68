-- ===== src/Catalog/Answers.antt =====
-- What the RPC handlers of products answer, store and announce.
use mathlib.Core.Path.{subst}
use mathlib.Core.List.{append-nil}
use advanced_node.Common.{String, ◌≡◌, refl, sym, ap, ◌∙◌, Bool, none, some, List, [], ◌∷◌, ◌++◌}
use advanced_node.Exec.{Exec, Result, ok, thrown, pure, ◌>>=◌}
use advanced_node.Exec.Ensures.{Ensures, Ensures-bind, Ensures-try, Ensures-weaken, Outcome}
use advanced_node.Rpc.Wire.{Response}
use advanced_node.Shared.Errors.{Exception, message_of}
use advanced_node.Shared.AddErrorHelper.{ErrorEntry, App, add_error_helper}
use advanced_node.Catalog.Tables.{Product, IsUp}
use advanced_node.Catalog.Cache.{Catalog}
use advanced_node.Catalog.Coherence.{IsCoherent}
use advanced_node.Catalog.Products
use advanced_node.Catalog.Rows.{Made, Gone, NoRowDiffers, create_delete-IsCoherent}
use advanced_node.Catalog.Writes.{Changed, update-Changed}
use advanced_node.Catalog.Messaging.{
  Content, Event, Site, Shop, product, product_updated, product_deleted, created_event, done,
  failed, message_or_unknown, on_catalog, publish, published, serving, answer_error, create_product,
  update_product, delete_product,
}

module _ (s : Site) (stores : ErrorEntry → Bool) where
  -- The events that come of one, when the broker takes it and when it does not.
  abbrev pub taken : Event → Result (Unit {0}) → List Event
  taken e (ok tt) = e ∷ []
  taken e (thrown x) = []

  -- Where the handler was when it began: the events and the categories.
  record Keeps (x x' : App (Shop s)) : Type 0 where
    events : x'.db.events ≡ x.db.events
    categories : x'.db.categories ≡ x.db.categories

  -- The write was done, which the answer says and one event announces, unless the broker refused it;
  -- or it failed, which the answer says, and no event is sent. `P` and `E` are what the service says
  -- of the catalogue after either. No category differs.
  pub data Served {A : Type 0} (P : A → Catalog s.parties → Type 0)
      (E : Exception → Catalog s.parties → Type 0) (event : A → Event)
      (answer : A → Response Content) (text : Exception → String) (x : App (Shop s))
      (r : Response Content) (x' : App (Shop s)) : Type 0 where
    was_done :
        (a : A)
        → P a x'.db.catalog
        → r ≡ answer a
        → x'.db.events ≡ x.db.events ++ taken (event a) (s.publishes (event a))
        → x'.db.categories ≡ x.db.categories
        → Served P E event answer text x r x'
    was_refused :
        (e : Exception)
        → E e x'.db.catalog
        → r ≡ failed (text e)
        → x'.db.events ≡ x.db.events
        → x'.db.categories ≡ x.db.categories
        → Served P E event answer text x r x'

  published_lem :
      (api : String) (e : Event) (res : Result (Unit {0})) (x : App (Shop s))
      → Ensures
          (λ _ x'.
            (x'.db.catalog ≡ x.db.catalog)
            × (x'.db.events ≡ x.db.events ++ taken e res)
            × (x'.db.categories ≡ x.db.categories))
          (λ _ _. ⊥)
          (published s stores api e res x)
  unfolding add_error_helper
  published_lem api e (ok tt) x = record { holds = (refl, refl, refl) }
  published_lem api e (thrown err) x = record { holds = (refl, sym (append-nil x.db.events), refl) }

  module _ {A : Type 0} (P : A → Catalog s.parties → Type 0)
      (E : Exception → Catalog s.parties → Type 0) where
    on_catalog-Keeps :
        (x : App (Shop s)) (out : Result A) (c : Catalog s.parties)
        → Outcome P E out c
        → Outcome
            (λ a x'. P a x'.db.catalog × Keeps x x')
            (λ e x'. E e x'.db.catalog × Keeps x x')
            out
            (record x { db = record x.db { catalog = c } })
    on_catalog-Keeps x (ok a) c h = (h, record { events = refl; categories = refl })
    on_catalog-Keeps x (thrown e) c h = (h, record { events = refl; categories = refl })

  module _ {A : Type 0} {P : A → Catalog s.parties → Type 0}
      {E : Exception → Catalog s.parties → Type 0} where
    serving-Served :
        (m : Exec (Catalog s.parties) A) (event : A → Event) (answer : A → Response Content)
        (text : Exception → String) (api published_by : String) (x : App (Shop s))
        → Ensures P E (m x.db.catalog)
        → Ensures
            (Served P E event answer text x)
            (λ _ _. ⊥)
            (serving s stores api text
              (do a ← on_catalog s m; _ ← publish s stores published_by (event a); pure (answer a))
              x)
    unfolding serving publish add_error_helper
    serving-Served m event answer text api published_by x h =
        let body : Exec (App (Shop s)) (Response Content) = (do
          a ← on_catalog s m
          _ ← publish s stores published_by (event a)
          pure (answer a)) in
        Ensures-try body (answer_error s stores api text) x
          (Ensures-bind (on_catalog s m) _ x
            (record {
              holds = on_catalog-Keeps P E x (m x.db.catalog).0 (m x.db.catalog).1 h.holds;
            })
            λ a x1 (p, kept).
              Ensures-bind (publish s stores published_by (event a)) (λ _. pure (answer a)) x1
                (Ensures-weaken _ (published_lem published_by (event a) (s.publishes (event a)) x1)
                  (λ _ x2 k. k) (λ _ x2 k. absurd k))
                λ _ x2 (same, events, categories). record {
                  holds =
                      was_done a (subst (P a) (sym same) p) refl
                        (events
                          ∙ ap (λ l. l ++ taken (event a) (s.publishes (event a))) kept.events)
                        (categories ∙ kept.categories);
                })
          λ e x1 (q, kept). record { holds = was_refused e q refl kept.events kept.categories }

  module _ (up : IsUp s.parties.redis) where
    abbrev pub AsBefore : App (Shop s) → Exception → Catalog s.parties → Type 0
    AsBefore x e c = NoRowDiffers s.parties x.db.catalog c

    abbrev pub ServedProduct :
        (Product → Catalog s.parties → Type 0)
        → (Product → Event)
        → (Exception → String)
        → App (Shop s)
        → Response Content
        → App (Shop s)
        → Type 0
    ServedProduct P event text x = Served P (AsBefore x) event (λ a. done (some (product a))) text x

    -- When Redis answers and the cached products agree with the table, the three RPC handlers that
    -- write a product never throw. Either the answer says success and the table has the new row, the
    -- changed row, or no row any more at the identifier, with no other row different, and the event
    -- of that write is the only one sent, unless the broker refuses it; or the answer has the error's
    -- text, no row differs and no event is sent. In both cases the cache agrees with the table
    -- afterwards and no category differs.
    pub write_handlers-Served :
        (new : Product) (id : String) (change : Product → Product) (x : App (Shop s))
        → IsCoherent s.parties x.db.catalog
        → Ensures
            (ServedProduct (Made s.parties new x.db.catalog) created_event message_or_unknown x)
            (λ _ _. ⊥)
            (create_product s stores new x)
          × Ensures
              (ServedProduct
                (Changed s.parties up id change x.db.catalog)
                (λ _. product_updated id change)
                message_of
                x)
              (λ _ _. ⊥)
              (update_product s stores id change x)
          × Ensures
              (Served
                (Gone s.parties id x.db.catalog)
                (AsBefore x)
                (λ _. product_deleted id)
                (λ _. done none)
                message_of
                x)
              (λ _ _. ⊥)
              (delete_product s stores id x)
    unfolding create_product update_product delete_product
    write_handlers-Served new id change x h =
        let (created, deleted) = create_delete-IsCoherent s.parties up new id x.db.catalog h in
        (
          serving-Served (Products.create s.parties new) created_event _ message_or_unknown _ _ x
              created,
          serving-Served (Products.update s.parties id change) (λ _. product_updated id change) _
              message_of _ _ x
              (Ensures-weaken _ (update-Changed s.parties up id change x.db.catalog h) (λ _ c k. k)
                (λ _ c k. record { rows = k.0; coherent = k.1 })),
          serving-Served (Products.delete s.parties id) (λ _. product_deleted id) (λ _. done none)
              message_of _ _ x deleted,
        )
