-- ===== src/Http/Routes.antt =====
-- What all the routes answer that reply by the shared plugin and catch their errors by the shared
-- block: stock, orders, products, categories and accounts.
use advanced_node.Common.{Bool}
use advanced_node.Shared.AddErrorHelper.{ErrorEntry, App}
use advanced_node.Shared.Catch.{respond}
use advanced_node.Shared.Consistent.{IsConsistent}
use advanced_node.Inventory.Repository.{InventoryTable}
use advanced_node.Inventory.Controller.{Request as StockRequest, handle as handle_stock}
use advanced_node.Order.World.{World, Parties as OrderParties}
use advanced_node.Order.Controller.{Request as OrderRequest, handle as handle_order}
use advanced_node.Catalog.Cache.{Catalog, Parties as CatalogParties}
use advanced_node.Catalog.Controller.{Request as ProductRequest, handle as handle_product}
use advanced_node.Catalog.Categories.{CategoryTable}
use advanced_node.Catalog.CategoryController.{Request as CategoryRequest, handle as handle_category}
use advanced_node.Gateway.Parties.{State, Parties as GatewayParties}
use advanced_node.Gateway.Routes.{Request as AccountRequest, handle as handle_account}

-- The databases and other services behind the routes.
pub record Behind : Type 1 where
  pub stock : InventoryTable
  pub orders : OrderParties
  pub products : CatalogParties
  pub categories : CategoryTable
  pub accounts : GatewayParties
  pub stores : ErrorEntry → Bool

module _ (b : Behind) where
  -- A request to one of the services, with the state that the service is in.
  pub data Request : Type 0 where
    of_stock : StockRequest → App b.stock.Db → Request
    of_orders : OrderRequest → App (World b.orders) → Request
    of_products : ProductRequest → App (Catalog b.products) → Request
    of_categories : CategoryRequest → App b.categories.table.Db → Request
    of_accounts : AccountRequest → App (State b.accounts) → Request

  abbrev pub IsConsistentReply : Request → Type 0
  IsConsistentReply (of_stock r s) = IsConsistent (respond (handle_stock b.stock b.stores r) s).0
  IsConsistentReply (of_orders r s) = IsConsistent (respond (handle_order b.orders b.stores r) s).0
  IsConsistentReply (of_products r s) =
      IsConsistent (respond (handle_product b.products b.stores r) s).0
  IsConsistentReply (of_categories r s) =
      IsConsistent (respond (handle_category b.categories b.stores r) s).0
  IsConsistentReply (of_accounts r s) =
      IsConsistent (respond (handle_account b.accounts b.stores r) s).0
