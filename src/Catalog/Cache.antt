-- ===== src/Catalog/Cache.antt =====
-- src/services/product-catalog/services/cache.service.ts over Redis: each call catches what Redis
-- throws, stores it in the table of errors and goes on.
use advanced_node.Common.{
  ℕ, suc, String, Bool, Option, none, some, List, [], ◌∷◌, ◌++◌, if◌then◌else◌,
}
use advanced_node.Exec.{Exec, Result, ok, thrown}
use advanced_node.Shared.Errors.{Exception}
use advanced_node.Shared.AddErrorHelper.{ErrorEntry, entry}
use advanced_node.Catalog.Tables.{Shelf, Redis, Key, Value}

-- Who the service calls.
pub record Parties : Type 1 where
  pub shelf : Shelf
  pub redis : Redis
  pub stores : ErrorEntry → Bool

-- `hitRate` is a quotient of the two counters, worked out when they change.
pub record Metrics : Type 0 where
  pub hits : ℕ
  pub misses : ℕ

pub record Catalog (p : Parties) : Type 0 where
  pub db : p.shelf.table.Db
  pub cache : p.redis.Store
  pub metrics : Metrics
  pub errors : List ErrorEntry

module _ (p : Parties) where
  abbrev pub note : String → Exception → Catalog p → Catalog p
  note api e s = record s {
    errors = if p.stores (entry api e) then s.errors ++ entry api e ∷ [] else s.errors;
  }

  abbrev pub noted : String → Result (Unit {0}) → Catalog p → Catalog p
  noted api (ok tt) s = s
  noted api (thrown e) s = note api e s

  abbrev pub counted : {A : Type 0} → Option A → Metrics → Metrics
  counted none m = record m { misses = suc m.misses }
  counted (some v) m = record m { hits = suc m.hits }

  abbrev pub got : {A : Type 0} → Result (Option A) → Catalog p → Result (Option A) × Catalog p
  got (ok value) s = (ok value, record s { metrics = counted value s.metrics })
  got (thrown e) s = (ok none, note "CacheService.get" e s)

  unfoldable pub get : (k : Key) → Exec (Catalog p) (Option (Value k))
  get k s = got (p.redis.get k s.cache) s

  unfoldable pub set : (k : Key) → Value k → ℕ → Exec (Catalog p) (Unit {0})
  set k value ttl s =
      let (r, cache) = p.redis.setex k ttl value s.cache in
      (ok tt, noted "CacheService.set" r (record s { cache = cache }))

  unfoldable pub delete : Key → Exec (Catalog p) (Unit {0})
  delete k s =
      let (r, cache) = p.redis.del k s.cache in
      (ok tt, noted "CacheService.delete" r (record s { cache = cache }))

  -- At the pattern 'products:*', the only one that the program uses.
  unfoldable pub delete_lists : Exec (Catalog p) (Unit {0})
  delete_lists s =
      let (r, cache) = p.redis.del_lists s.cache in
      (ok tt, noted "CacheService.deletePattern" r (record s { cache = cache }))

  abbrev pub get_metrics : Catalog p → Metrics
  get_metrics s = s.metrics

  abbrev pub reset_metrics : Exec (Catalog p) (Unit {0})
  reset_metrics s = (ok tt, record s { metrics = record { hits = 0; misses = 0 } })
