-- ===== src/Http/Tests.antt =====
-- The theorem on all routes, with every service in memory.
use advanced_node.Common.{Bool, ℕ, zero, suc, String, refl, true, List, [], ◌∷◌}
use advanced_node.Exec.{Exec, throw}
use advanced_node.Exec.Ensures.{Ensures}
use advanced_node.Rpc.Wire.{Response}
use advanced_node.Shared.AddErrorHelper.{ErrorEntry, App}
use advanced_node.Rpc.Server.{Action}
use advanced_node.Notification.Email.{Desk}
use advanced_node.Notification.Consumers.{Event}
use advanced_node.Shared.Errors.{error}
use advanced_node.Shared.Catch.{respond}
use advanced_node.Catalog.Memory.{parties as products, category_table, site, pen}
use advanced_node.Catalog.Messaging.{Shop, Content}
use advanced_node.Catalog.CategoryController
use advanced_node.Gateway.Tests.{parties as accounts, verify}
use advanced_node.Gateway.Services.{Call}
use advanced_node.Gateway.Uuid.{is_valid_uuid}
use advanced_node.Gateway.Uuid.Groups.{IsUuid, is_valid_uuid_iff}
use advanced_node.Gateway.Products
use advanced_node.Http.Link.{Link, Fate, late, in_time}
use advanced_node.Http.Arrives.{Ready}
use advanced_node.Http.Shown.{Seen, gateway_bus, get_product-Seen}
use advanced_node.Inventory.Tests.{table}
use advanced_node.Order.Tests.{parties as orders}
use advanced_node.Order.Repository.{Order}
use advanced_node.Order.World
use advanced_node.Notification.Tests.{parties as notifying}
use advanced_node.Notification.Bindings.{Published}
use advanced_node.Http.Routes.{Behind}

abbrev behind : Behind
behind = record {
  stock = table;
  orders = orders;
  products = products;
  categories = category_table;
  accounts = accounts;
  stores = λ e. true;
}

abbrev uuid : String
uuid = "123e4567-e89b-12d3-a456-426614174000"

abbrev first_late : ℕ → Fate
first_late zero = late
first_late (suc k) = in_time

-- The product is there; the first call is served too late.
abbrev link : Link site
link = record {
  shop = record {
    db = record {
      catalog = record {
        db = (uuid, pen 250) ∷ [];
        cache = [];
        metrics = record { hits = 0; misses = 0 };
        errors = [];
      };
      categories = [];
      events = [];
    };
    errors = [];
  };
  calls = [];
  fates = first_late;
}

abbrev no_others : Call String → Exec (App (Shop site)) (Response Content)
no_others c = throw (error "no handler")

uuid-IsUuid : IsUuid uuid
unfolding is_valid_uuid
uuid-IsUuid = (is_valid_uuid_iff uuid).0 refl

link-Ready : Ready site (λ e. true) no_others uuid link
link-Ready = record { readable = refl; coherent = record { agrees = λ id v c. absurd (cc c) } }

get_product-Seen_example :
    Seen site
      (λ e. true)
      no_others
      uuid
      link
      (respond
        (Products.get_by_id (gateway_bus site (λ e. true) no_others) (λ t. t) verify uuid)
        link).0
      (respond
        (Products.get_by_id (gateway_bus site (λ e. true) no_others) (λ t. t) verify uuid)
        link).1
get_product-Seen_example =
    get_product-Seen site (λ e. true) no_others verify uuid link uuid-IsUuid link-Ready

abbrev stores : ErrorEntry → Bool
stores e = true

abbrev stray :
    String → Published → App (Desk notifying) → List (Action Event) × App (Desk notifying)
stray queue m s = ([], s)
