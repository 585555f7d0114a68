-- ===== src/Catalog/Rows.antt =====
-- Products made and deleted: the table, and the cache in agreement with it.
use advanced_node.Common.{
  String, ◌≡◌, refl, sym, ap, ◌∙◌, Bool, true, Bool-cases, none, some, inl, inr, eq_iff, ◌==◌,
  if◌then◌else◌,
}
use advanced_node.Exec.{Result, ok, thrown, pure}
use advanced_node.Exec.Ensures.{Ensures, Ensures-bind, Ensures-weaken}
use advanced_node.Exec.Focus.{Ensures-focus}
use advanced_node.Prisma.Calls.{create-Ensures}
use advanced_node.Catalog.Tables.{Product, product_key, IsUp}
use advanced_node.Catalog.Cache
use advanced_node.Catalog.Cache.{Parties, Catalog}
use advanced_node.Catalog.Products.{on_db, create, delete, delete_row, deleted_of, forget_deleted}
use advanced_node.Catalog.Coherence.{product_row, IsCoherent}
use advanced_node.Catalog.Writes.{delete-IsCoherent, delete_lists-IsCoherent}

module _ (p : Parties) where
  -- No row differs, and the cache agrees with the table.
  pub record NoRowDiffers (s s' : Catalog p) : Type 0 where
    pub rows : (j : String) → product_row p s' j ≡ product_row p s j
    pub coherent : IsCoherent p s'

  abbrev pub Made : Product → Catalog p → Product → Catalog p → Type 0
  Made new s r s' =
      (r ≡ new)
      × (product_row p s new.id ≡ none)
      × ((j : String) → product_row p s' j ≡ (if new.id == j then some new else product_row p s j))
      × IsCoherent p s'

  row-Made :
      (new : Product) (s : Catalog p)
      → IsCoherent p s
      → Ensures (Made new s) (λ _ s'. NoRowDiffers s s') (on_db p (p.shelf.table.create new) s)
  row-Made new s h =
      Ensures-weaken _
        (Ensures-focus (λ s. s.db) (λ db s. record s { db = db }) (p.shelf.table.create new) s
          (create-Ensures p.shelf.table new s.db))
        (λ r s1 (db, same, (fresh, made, rows)). rw same (
          made,
          fresh,
          rows,
          record {
            agrees = λ j v at_j. elim (Bool-cases (new.id == j)) [
              | inr other ↦ (rw other at (rows j)) ∙ h.agrees j v at_j
              | inl taken ↦
                  let there : product_row p s new.id ≡ some v =
                    ap (product_row p s) ((eq_iff new.id j).0 taken) ∙ h.agrees j v at_j in
                  let clash : none ≡ some v = sym fresh ∙ there in absurd (cc)
            ];
          },
        ))
        (λ _ s1 (db, same, failure). rw same (record {
          rows = failure.1;
          coherent = record { agrees = λ j v at_j. failure.1 j ∙ h.agrees j v at_j };
        }))

  abbrev pub Gone : String → Catalog p → Bool → Catalog p → Type 0
  Gone id s r s' =
      (r ≡ true)
      × ((j : String) → product_row p s' j ≡ (if id == j then none else product_row p s j))
      × IsCoherent p s'

module _ (p : Parties) (up : IsUp p.redis) where
  create-Made :
      (new : Product) (s : Catalog p)
      → IsCoherent p s
      → Ensures (Made p new s) (λ _ s'. NoRowDiffers p s s') (create p new s)
  unfolding create
  create-Made new s h =
      Ensures-bind (on_db p (p.shelf.table.create new)) _ s (row-Made p new s h)
        λ r s1 (made, fresh, rows, coherent).
          Ensures-bind (Cache.delete_lists p) (λ _. pure r) s1
            (Ensures-weaken _ (delete_lists-IsCoherent p up s1 coherent) (λ _ s2 k. k)
              (λ _ s2 k. absurd k))
            λ _ s2 kept. record {
              holds = (
                made,
                fresh,
                (λ j. ap (λ d. p.shelf.table.row d j) kept.db ∙ rows j),
                kept.coherent,
              );
            }

  forget_deleted-Gone :
      (id : String) (s : Catalog p) (r : Result (Unit {0})) (db : p.shelf.table.Db)
      → p.shelf.delete id s.db ≡ (r, db)
      → IsCoherent p s
      → Ensures
          (Gone p id s)
          (λ _ s'. NoRowDiffers p s s')
          (forget_deleted p id (deleted_of p r) (record s { db = db }))
  forget_deleted-Gone id s (thrown x) db e h = record {
    holds = record {
      rows = p.shelf.delete_failed id s.db db e;
      coherent = record {
        agrees = λ j v at_j. p.shelf.delete_failed id s.db db e j ∙ h.agrees j v at_j;
      };
    };
  }
  forget_deleted-Gone id s (ok tt) db e h =
      let s1 : Catalog p = record s { db = db } in
      let rows = p.shelf.delete_done id s.db db e in
      Ensures-bind (Cache.delete p (product_key id)) _ s1
        (Ensures-weaken _
          (delete-IsCoherent p up id s1
            (record { others = λ j v ne at_j. (rw ne at (rows j)) ∙ h.agrees j v at_j }))
          (λ _ s2 k. k) (λ _ s2 k. absurd k))
        λ _ s2 kept2.
          Ensures-bind (Cache.delete_lists p) (λ _. pure true) s2
            (Ensures-weaken _ (delete_lists-IsCoherent p up s2 kept2.coherent) (λ _ s3 k. k)
              (λ _ s3 k. absurd k))
            λ _ s3 kept3. record {
              holds = (
                refl,
                (λ j. ap (λ d. p.shelf.table.row d j) (kept3.db ∙ kept2.db) ∙ rows j),
                kept3.coherent,
              );
            }

  -- When Redis answers and the cached products agree with the table, `create` returns only for an
  -- identifier that had no row, and then the table has the new row and no other change; `delete`
  -- returns only with the row gone and no other change. When either throws, no row differs. The cache
  -- agrees with the table in every case.
  pub create_delete-IsCoherent :
      (new : Product) (id : String) (s : Catalog p)
      → IsCoherent p s
      → Ensures (Made p new s) (λ _ s'. NoRowDiffers p s s') (create p new s)
        × Ensures (Gone p id s) (λ _ s'. NoRowDiffers p s s') (delete p id s)
  unfolding delete delete_row
  create_delete-IsCoherent new id s h = (
    create-Made new s h,
    forget_deleted-Gone id s (p.shelf.delete id s.db).0 (p.shelf.delete id s.db).1 refl h,
  )
