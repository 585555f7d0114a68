-- ===== src/Gateway/RouteTests.antt =====
-- The theorems on the gateway's routes and its proxy, with a broker that answers from a list, a
-- registry with two instances and an order service that always answers.
use advanced_node.Common.{ℕ, suc, String, ◌≡◌, ◌↔◌, refl, true, Option, none, some, [], ◌∷◌}
use advanced_node.Common.Int.{pos, ◌+ℤ◌}
use advanced_node.Exec.{ok}
use advanced_node.Shared.Text.{parse_int, is_space}
use advanced_node.Gateway.Tests.{verify}
use advanced_node.Gateway.ServiceTests.{broker, late}
use advanced_node.Gateway.Services.{Object}
use advanced_node.Gateway.Uuid.{is_valid_uuid}
use advanced_node.Gateway.Uuid.Groups.{IsUuid, is_valid_uuid_iff}
use advanced_node.Gateway.Hooks.{Validated, valid}
use advanced_node.Gateway.Products
use advanced_node.Gateway.Categories
use advanced_node.Gateway.Writes.{GuardedWrites, writes-Guarded}
use advanced_node.Gateway.Proxy.{Target, Network, Config, Proxy, answered, ttl_of}
use advanced_node.Gateway.Discovery.{
  Ask, IsBefore, IsUrlOf, resolve, resolve_all, resolve-remembered,
}
use advanced_node.Gateway.Orders
use advanced_node.Gateway.Orders.{Payload, Settings}

abbrev good_id : String
good_id = "123e4567-e89b-12d3-A456-426614174000"

is_valid_uuid_iff_example : (is_valid_uuid good_id ≡ true) ↔ IsUuid good_id
is_valid_uuid_iff_example = is_valid_uuid_iff good_id

good : is_valid_uuid good_id ≡ true
unfolding is_valid_uuid
good = refl

abbrev cheaper : Validated (Object String)
cheaper = valid (("price", "2") ∷ [])

abbrev as_text : String → String
as_text s = s

abbrev header : Option String
header = some "Bearer t"

writes-Guarded_example :
    GuardedWrites broker as_text verify header good_id cheaper late
      (Products.create broker as_text verify)
      (Products.update broker as_text verify)
      (Products.delete broker as_text verify)
      (Products.creating broker as_text verify)
      (Products.updating broker as_text verify)
      (Products.deleting broker as_text verify)
    × GuardedWrites broker as_text verify header good_id cheaper late
        (Categories.create broker as_text verify)
        (Categories.update broker as_text verify)
        (Categories.delete broker as_text verify)
        (Categories.creating broker as_text verify)
        (Categories.updating broker as_text verify)
        (Categories.deleting broker as_text verify)
writes-Guarded_example = writes-Guarded broker as_text verify header good_id cheaper late

abbrev first : Target
first = record { address = "10.0.0.1"; port = 3002 }

abbrev second : Target
second = record { address = "10.0.0.2"; port = 3002 }

-- The world counts the requests.
abbrev network : Network Payload String
network = record {
  World = ℕ;
  health = λ service w. (ok (first ∷ second ∷ []), suc w);
  axios = λ r w. (answered "done", suc w);
}

abbrev config : Config
config = record { consul = true; discovery_ttl_ms = none }

abbrev empty : Proxy network config
empty = record { cache = []; world = 0 }

abbrev ask_at : String → ℕ → Ask network config
ask_at service now = record {
  service = service;
  fallback = "http://localhost";
  now = now;
  random = 7;
}

soon : IsBefore network config (pos 100 +ℤ ttl_of config) (ask_at "stock" 400)
unfolding parse_int is_space ◌+ℤ◌
soon = refl

still : IsBefore network config (pos 100 +ℤ ttl_of config) (ask_at "order" 900)
unfolding parse_int is_space ◌+ℤ◌
still = refl

resolve-remembered_example :
    IsUrlOf network config
      (first ∷ second ∷ [])
      (resolve network config (ask_at "order" 100) empty).0
    × IsUrlOf network config
        (first ∷ second ∷ [])
        (resolve network config (ask_at "order" 900) (
          resolve_all network config
            (ask_at "stock" 400 ∷ [])
            (resolve network config (ask_at "order" 100) empty).1)).0
    × ((resolve network config (ask_at "order" 900) (
          resolve_all network config
            (ask_at "stock" 400 ∷ [])
            (resolve network config (ask_at "order" 100) empty).1)).1
        ≡ resolve_all network config
            (ask_at "stock" 400 ∷ [])
            (resolve network config (ask_at "order" 100) empty).1)
resolve-remembered_example =
    resolve-remembered network config (ask_at "order" 100) (ask_at "order" 900) empty first
      (second ∷ []) 1 (ask_at "stock" 400 ∷ []) (refl, refl) refl (soon, tt) still

abbrev settings : Settings String
settings = record {
  service_name = "ecommerce-order";
  service_url = "http://localhost:3002";
  member = λ field d. none;
}
