-- ===== src/Catalog/Writes.antt =====
-- A write of the product service keeps the cache in agreement with the table, if Redis answers.
use advanced_node.Common.{
  String, ◌≡◌, refl, sym, ap, ◌∙◌, false, Bool-cases, none, some, inl, inr, eq_iff, ◌==◌,
  if◌then◌else◌,
}
use advanced_node.Exec.{Result, ok, pure, ◌>>=◌}
use advanced_node.Exec.Ensures.{Ensures, Ensures-bind, Ensures-weaken}
use advanced_node.Exec.Focus.{Ensures-focus}
use advanced_node.Prisma.Calls.{update-Ensures}
use advanced_node.Catalog.Tables.{Product, product_key, IsUp}
use advanced_node.Catalog.Cache
use advanced_node.Catalog.Cache.{Parties, Catalog, noted}
use advanced_node.Catalog.Products.{on_db, update}
use advanced_node.Catalog.Coherence.{
  product_row, cached, IsCoherent, KeepsCoherent, noted-IsCoherent, noted-db,
}

module _ (p : Parties) (up : IsUp p.redis) where
  -- All cached products but the one at `id` agree with the table.
  pub record AgreesBut (id : String) (s : Catalog p) : Type 0 where
    pub others :
        (j : String) (v : Product)
        → (id == j) ≡ false
        → cached p s j ≡ some v
        → product_row p s j ≡ some v

  forgotten :
      (id : String) (s : Catalog p) (r : Result (Unit {0})) (cache : p.redis.Store)
      → p.redis.del (product_key id) s.cache ≡ (r, cache)
      → AgreesBut id s
      → IsCoherent p (record s { cache = cache })
  forgotten id s r cache e h = record {
    agrees = λ j v at_j. elim (Bool-cases (id == j)) [
      | inl same ↦
          let answered : r ≡ ok tt = sym (ap (λ x. x.0) e) ∙ up.deletes (product_key id) s.cache in
          let gone : p.redis.at cache (product_key id) ≡ none =
            p.redis.del_done (product_key id) s.cache cache (e ∙ ap (λ x. (x, cache)) answered) in
          let gone_j : p.redis.at cache (product_key j) ≡ none =
            ap (λ k. p.redis.at cache (product_key k)) (sym ((eq_iff id j).0 same)) ∙ gone in
          let clash : none ≡ some v = sym gone_j ∙ at_j in absurd (cc)
      | inr other ↦
          let cache_is : (p.redis.del (product_key id) s.cache).1 ≡ cache = ap (λ x. x.1) e in
          elim (p.redis.del_effect (product_key id) (product_key j) s.cache) [
            | inl old ↦
                h.others j v other
                  (sym old ∙ ap (λ c. p.redis.at c (product_key j)) cache_is ∙ at_j)
            | inr gone ↦
                let clash : none ≡ some v =
                  sym gone ∙ ap (λ c. p.redis.at c (product_key j)) cache_is ∙ at_j in
                absurd (cc)
          ]
    ];
  }

  pub delete-IsCoherent :
      (id : String) (s : Catalog p)
      → AgreesBut id s
      → Ensures (λ _ s'. KeepsCoherent p s s') (λ _ _. ⊥) (Cache.delete p (product_key id) s)
  unfolding Cache.delete
  delete-IsCoherent id s h = record {
    holds = record {
      db = noted-db p "CacheService.delete" _ _;
      coherent = noted-IsCoherent p "CacheService.delete" _ _ (
          forgotten id s (p.redis.del (product_key id) s.cache).0
            (p.redis.del (product_key id) s.cache).1 refl h);
    };
  }

  pub delete_lists-IsCoherent :
      (s : Catalog p)
      → IsCoherent p s
      → Ensures (λ _ s'. KeepsCoherent p s s') (λ _ _. ⊥) (Cache.delete_lists p s)
  unfolding Cache.delete_lists
  delete_lists-IsCoherent s h = record {
    holds = record {
      db = noted-db p "CacheService.deletePattern" _ _;
      coherent = noted-IsCoherent p "CacheService.deletePattern" _ _ (record {
        agrees = λ j v at_j. elim (p.redis.del_lists_effect (product_key j) s.cache) [
          | inl old ↦ h.agrees j v (sym old ∙ at_j)
          | inr gone ↦ let clash : none ≡ some v = sym gone ∙ at_j in absurd (cc)
        ];
      });
    };
  }

  -- The row is changed, no other is, and the cache agrees with the table.
  abbrev pub Changed : String → (Product → Product) → Catalog p → Product → Catalog p → Type 0
  Changed id change s r s' =
      (old : Product) × (product_row p s id ≡ some old)
      × (r ≡ change old)
      × ((j : String)
          → product_row p s' j ≡ (if id == j then some (change old) else product_row p s j))
      × IsCoherent p s'

  row_changed :
      (id : String) (change : Product → Product) (s : Catalog p)
      → IsCoherent p s
      → Ensures
          (λ r s'.
            (old : Product) × (product_row p s id ≡ some old)
            × (r ≡ change old)
            × ((j : String)
                → product_row p s' j ≡ (if id == j then some (change old) else product_row p s j))
            × AgreesBut id s')
          (λ _ s'. ((j : String) → product_row p s' j ≡ product_row p s j) × IsCoherent p s')
          (on_db p (p.shelf.table.update id change) s)
  row_changed id change s h =
      Ensures-weaken _
        (Ensures-focus (λ s. s.db) (λ db s. record s { db = db }) (p.shelf.table.update id change) s
          (update-Ensures p.shelf.table id change s.db))
        (λ r s1 (db, same, (old, there, made, rows)). rw same (
          old,
          there,
          made,
          rows,
          record { others = λ j v ne at_j. (rw ne at (rows j)) ∙ h.agrees j v at_j },
        ))
        (λ _ s1 (db, same, failure).
          rw same (failure.1, record { agrees = λ j v at_j. failure.1 j ∙ h.agrees j v at_j }))

  -- When Redis answers and the cached products agree with the table, `update` changes the row, and no
  -- other, and the cache agrees with the table again, so that a `get_by_id` of any product returns
  -- what the table then holds. When it throws, no row differs and the cache still agrees.
  pub update-Changed :
      (id : String) (change : Product → Product) (s : Catalog p)
      → IsCoherent p s
      → Ensures
          (Changed id change s)
          (λ _ s'. ((j : String) → product_row p s' j ≡ product_row p s j) × IsCoherent p s')
          (update p id change s)
  unfolding update
  update-Changed id change s h =
      Ensures-bind (on_db p (p.shelf.table.update id change)) _ s (row_changed id change s h)
        λ r s1 (old, there, made, rows, but).
          Ensures-bind (Cache.delete p (product_key id)) _ s1
            (Ensures-weaken _ (delete-IsCoherent id s1 but) (λ _ s2 k. k) (λ _ s2 k. absurd k))
            λ _ s2 kept2.
              Ensures-bind (Cache.delete_lists p) (λ _. pure r) s2
                (Ensures-weaken _ (delete_lists-IsCoherent s2 kept2.coherent) (λ _ s3 k. k)
                  (λ _ s3 k. absurd k))
                λ _ s3 kept3. record {
                  holds = (
                    old,
                    there,
                    made,
                    (λ j. ap (λ d. p.shelf.table.row d j) (kept3.db ∙ kept2.db) ∙ rows j),
                    kept3.coherent,
                  );
                }
