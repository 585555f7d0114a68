-- ===== src/Catalog/Lists.antt =====
-- The cached lists of src/services/product-catalog/services/product.service.ts and the table.
use advanced_node.Common.{◌≡◌, some}
use advanced_node.Exec.{Exec, Result, ok}
use advanced_node.Exec.Ensures.{Ensures}
use advanced_node.Catalog.Tables.{ProductQuery, Page, list_key, IsUp}
use advanced_node.Catalog.Cache
use advanced_node.Catalog.Cache.{Parties, Catalog, note}
use advanced_node.Catalog.Products.{find_all}

module _ (p : Parties) where
  -- The page that the database gives now.
  abbrev pub listed : ProductQuery → Catalog p → Result Page
  listed q s = (find_all p q s.db).0

  -- What is cached for the query is what the database gives.
  pub record IsListed (q : ProductQuery) (s : Catalog p) : Type 0 where
    pub agrees : (v : Page) → p.redis.at s.cache (list_key q) ≡ some v → listed q s ≡ ok v

  pub record KeepsListed (q : ProductQuery) (s s' : Catalog p) : Type 0 where
    pub db : s'.db ≡ s.db
    pub listed : IsListed q s'

  module _ (up : IsUp p.redis) where
    -- A write that ends with the deletion of the cached lists.
    abbrev LeavesListed : {A : Type 0} → ProductQuery → Result A × Catalog p → Type 0
    LeavesListed q = Ensures (λ _. IsListed q) (λ _ _. Unit {0})
