-- ===== src/Catalog/Coherence.antt =====
-- What the cache holds of single products agrees with the table, and what `get_by_id` then returns.
use advanced_node.Common.{
  String, ◌≡◌, ◌≢◌, refl, sym, ap, ◌∙◌, true, false, Bool-cases, Option, none, some, inl, inr,
  eq_iff, ◌==◌,
}
use advanced_node.Exec.{Result, ok, thrown, pure, query, ◌>>=◌}
use advanced_node.Exec.Ensures.{Ensures, Ensures-bind, Ensures-weaken}
use advanced_node.Exec.Focus.{Ensures-focus}
use advanced_node.Prisma.Calls.{find_unique-Ensures}
use advanced_node.Catalog.Tables.{Product, Key, product_key, list_key}
use advanced_node.Catalog.Cache
use advanced_node.Catalog.Cache.{Parties, Catalog, noted, got}
use advanced_node.Catalog.Products.{on_db, find_unless_cached, keep_found, get_by_id, ttl}

module _ (p : Parties) where
  abbrev pub product_row : Catalog p → String → Option Product
  product_row s id = p.shelf.table.row s.db id

  abbrev pub cached : Catalog p → String → Option Product
  cached s id = p.redis.at s.cache (product_key id)

  -- Each cached product is the table's row.
  pub record IsCoherent (s : Catalog p) : Type 0 where
    pub agrees : (id : String) (v : Product) → cached s id ≡ some v → product_row s id ≡ some v

  -- The table is the same, and the cache still agrees with it.
  pub record KeepsCoherent (s s' : Catalog p) : Type 0 where
    pub db : s'.db ≡ s.db
    pub coherent : IsCoherent s'

  pub noted-IsCoherent :
      (api : String) (r : Result (Unit {0})) (s : Catalog p)
      → IsCoherent s
      → IsCoherent (noted p api r s)
  noted-IsCoherent api (ok tt) s h = h
  noted-IsCoherent api (thrown e) s h = record { agrees = h.agrees }

  pub noted-db :
      (api : String) (r : Result (Unit {0})) (s : Catalog p) → (noted p api r s).db ≡ s.db
  noted-db api (ok tt) s = refl
  noted-db api (thrown e) s = refl

  key_text : Key → String
  key_text (list_key q) = ""
  key_text (product_key id) = id

  key-ne : (id j : String) → (id == j) ≡ false → product_key id ≢ product_key j
  unfolding key_text
  key-ne id j ne same =
      let e : id ≡ j = ap key_text same in
      let t : (id == j) ≡ true = (eq_iff id j).1 e in
      let clash : true ≡ false = sym t ∙ ne in absurd (cc)

  set-IsCoherent :
      (id : String) (v : Product) (s : Catalog p)
      → product_row s id ≡ some v
      → IsCoherent s
      → IsCoherent (record s { cache = (p.redis.setex (product_key id) ttl v s.cache).1 })
  set-IsCoherent id v s there h = record {
    agrees = λ j w at_j. elim (Bool-cases (id == j)) [
      | inr other ↦ h.agrees j w (
          sym (
            p.redis.setex_others (product_key id) (product_key j) ttl v s.cache (key-ne id j other))
          ∙ at_j)
      | inl same ↦
          let e : id ≡ j = (eq_iff id j).0 same in
          let at_id : p.redis.at (p.redis.setex (product_key id) ttl v s.cache).1 (product_key id)
              ≡ some w =
            ap (λ k. p.redis.at (p.redis.setex (product_key id) ttl v s.cache).1 (product_key k)) e
            ∙ at_j in
          ap (product_row s) (sym e) ∙ (elim (p.redis.setex_effect (product_key id) ttl v s.cache) [
            | inl old ↦ h.agrees id w (sym old ∙ at_id)
            | inr new ↦ there ∙ sym new ∙ at_id
          ])
    ];
  }

  keep_found-KeepsCoherent :
      (id : String) (r : Option Product) (s : Catalog p)
      → r ≡ product_row s id
      → IsCoherent s
      → Ensures (λ _ s'. KeepsCoherent s s') (λ _ s'. KeepsCoherent s s') (keep_found p id r s)
  unfolding Cache.set
  keep_found-KeepsCoherent id none s found h = record { holds = record { db = refl; coherent = h } }
  keep_found-KeepsCoherent id (some v) s found h = record {
    holds = record {
      db = noted-db "CacheService.set" _ _;
      coherent = noted-IsCoherent "CacheService.set" _ _ (set-IsCoherent id v s (sym found) h);
    };
  }

  pub looked_up :
      (id : String) (s : Catalog p)
      → IsCoherent s
      → Ensures
          (λ r s'. (r ≡ product_row s id) × (s' ≡ s))
          (λ _ s'. KeepsCoherent s s')
          (on_db p (query (p.shelf.table.find_unique id)) s)
  looked_up id s h =
      Ensures-weaken _
        (Ensures-focus (λ s. s.db) (λ db s. record s { db = db })
          (query (p.shelf.table.find_unique id)) s (find_unique-Ensures p.shelf.table id s.db))
        (λ r s1 (db, same, (found, kept)). (found, same ∙ ap (λ db. record s { db = db }) kept))
        (λ _ s1 (db, same, (foreign, kept)). rw same (record {
          db = kept;
          coherent = record {
            agrees = λ j v c. ap (λ d. p.shelf.table.row d j) kept ∙ h.agrees j v c;
          };
        }))

  missed :
      (id : String) (s : Catalog p)
      → IsCoherent s
      → Ensures
          (λ r s'. (r ≡ product_row s id) × KeepsCoherent s s')
          (λ _ s'. KeepsCoherent s s')
          (find_unless_cached p id none s)
  missed id s h =
      Ensures-bind (on_db p (query (p.shelf.table.find_unique id))) _ s (looked_up id s h)
        λ r s1 (found, untouched). rw untouched (
          Ensures-bind (keep_found p id r) (λ _. pure r) s (keep_found-KeepsCoherent id r s found h)
            λ _ s2 kept. record { holds = (found, kept) })

  -- When the cached products agree with the table, `get_by_id` returns what the table holds, from the
  -- cache or not, and whatever Redis does; the table is left as it is and the cache agrees with it
  -- afterwards, also when the call throws.
  pub get_by_id-IsCoherent :
      (id : String) (s : Catalog p)
      → IsCoherent s
      → Ensures
          (λ r s'. (r ≡ product_row s id) × KeepsCoherent s s')
          (λ _ s'. KeepsCoherent s s')
          (get_by_id p id s)
  unfolding get_by_id Cache.get
  get_by_id-IsCoherent id s h = go (p.redis.get (product_key id) s.cache) refl
    where
      go :
          (r : Result (Option Product))
          → p.redis.get (product_key id) s.cache ≡ r
          → Ensures
              (λ r s'. (r ≡ product_row s id) × KeepsCoherent s s')
              (λ _ s'. KeepsCoherent s s')
              ((got p r >>= find_unless_cached p id) s)
      go (ok (some v)) e = record {
        holds = (
          sym (h.agrees id v (p.redis.get_done (product_key id) s.cache e)),
          record { db = refl; coherent = record { agrees = h.agrees } },
        );
      }
      go (ok none) e =
          let s1 : Catalog p = (got p {A = Product} (ok none) s).1 in
          Ensures-weaken _ (missed id s1 (record { agrees = h.agrees }))
            (λ r s2 (found, kept). (found, record { db = kept.db; coherent = kept.coherent }))
            (λ _ s2 kept. record { db = kept.db; coherent = kept.coherent })
      go (thrown x) e =
          let s1 : Catalog p = (got p {A = Product} (thrown x) s).1 in
          Ensures-weaken _ (missed id s1 (record { agrees = h.agrees }))
            (λ r s2 (found, kept). (found, record { db = kept.db; coherent = kept.coherent }))
            (λ _ s2 kept. record { db = kept.db; coherent = kept.coherent })
