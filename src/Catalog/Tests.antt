-- ===== src/Catalog/Tests.antt =====
-- The theorems on the catalogue, with products in memory.
use advanced_node.Common.{◌≤◌, ◌<◌, ◌+◌, ◌*◌, ◌≡◌, ◌↔◌, true, none, [], arith}
use advanced_node.Exec.{◌>>=◌}
use advanced_node.Exec.Ensures.{Ensures}
use advanced_node.Shared.AddErrorHelper.{App}
use advanced_node.Shared.Errors.{message_of}
use advanced_node.Catalog.Tables.{Product, ProductQuery}
use advanced_node.Catalog.Cache.{Catalog}
use advanced_node.Catalog.Products.{create, delete, get_by_id, meta_of, skip_of}
use advanced_node.Catalog.Messaging.{
  created_event, product_updated, product_deleted, done, message_or_unknown, create_product,
  update_product, delete_product,
}
use advanced_node.Catalog.Answers.{Served, ServedProduct, AsBefore, write_handlers-Served}
use advanced_node.Catalog.Pages.{meta_of-pages}
use advanced_node.Catalog.Coherence.{product_row, KeepsCoherent, get_by_id-IsCoherent}
use advanced_node.Catalog.Rows.{Made, Gone, NoRowDiffers, create_delete-IsCoherent}
use advanced_node.Catalog.Writes.{Changed}
use advanced_node.Catalog.Memory.{
  site, open_shop, redis-IsUp, parties, pen, start, start-IsCoherent,
}

abbrev dearer : Product → Product
dearer p = record p { price = 300 }

get_by_id-IsCoherent_example :
    Ensures
      (λ r s'. (r ≡ product_row parties start "p1") × KeepsCoherent parties start s')
      (λ _ s'. KeepsCoherent parties start s')
      (get_by_id parties "p1" start)
get_by_id-IsCoherent_example = get_by_id-IsCoherent parties "p1" start start-IsCoherent

abbrev third_page : ProductQuery
third_page = record {
  page = 3;
  limit = 10;
  category_id = none;
  min_price = none;
  max_price = none;
  search = none;
}

meta_of-pages_example :
    (31 ≤ (meta_of third_page 31).total_pages * 10)
    × ((meta_of third_page 31).total_pages * 10 < 31 + 10)
    × (((meta_of third_page 31).has_next ≡ true) ↔ (3 < (meta_of third_page 31).total_pages))
    × (skip_of third_page + 10 ≡ 3 * 10)
meta_of-pages_example = meta_of-pages third_page 31 (omega arith) (omega arith)

abbrev ink : Product
ink = record (pen 90) { id = "p2"; name = "Ink" }

create_delete-IsCoherent_example :
    Ensures
      (Made parties ink start)
      (λ _ s'. NoRowDiffers parties start s')
      (create parties ink start)
    × Ensures
        (Gone parties "p1" start)
        (λ _ s'. NoRowDiffers parties start s')
        (delete parties "p1" start)
create_delete-IsCoherent_example =
    create_delete-IsCoherent parties redis-IsUp ink "p1" start start-IsCoherent

abbrev pub shop : App (Catalog parties)
shop = record { db = start; errors = [] }

write_handlers-Served_example :
    Ensures
      (ServedProduct site parties.stores redis-IsUp
        (Made parties ink start)
        created_event
        message_or_unknown
        open_shop)
      (λ _ _. ⊥)
      (create_product site parties.stores ink open_shop)
    × Ensures
        (ServedProduct site parties.stores redis-IsUp
          (Changed parties redis-IsUp "p1" dearer start)
          (λ _. product_updated "p1" dearer)
          message_of
          open_shop)
        (λ _ _. ⊥)
        (update_product site parties.stores "p1" dearer open_shop)
    × Ensures
        (Served site parties.stores
          (Gone parties "p1" start)
          (AsBefore site parties.stores redis-IsUp open_shop)
          (λ _. product_deleted "p1")
          (λ _. done none)
          message_of
          open_shop)
        (λ _ _. ⊥)
        (delete_product site parties.stores "p1" open_shop)
write_handlers-Served_example =
    write_handlers-Served site parties.stores redis-IsUp ink "p1" dearer open_shop start-IsCoherent
