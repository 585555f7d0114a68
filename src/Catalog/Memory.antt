-- ===== src/Catalog/Memory.antt =====
-- Products in memory and a cache that keeps single products: the laws of both can be met.
use advanced_node.Common.{
  ℕ, ◌≡◌, ◌≢◌, ◌⊎◌, refl, sym, ap, ◌∙◌, true, Bool-cases, Option, none, some, [], ◌∷◌, inl, inr,
  eq_iff, eq_refl, length, ◌==◌,
}
use advanced_node.Exec.{Result, ok, thrown}
use advanced_node.Shared.AddErrorHelper.{App}
use advanced_node.Shared.Errors.{Exception}
use advanced_node.Prisma.Memory.{Rows, lookup, select, memory, remove_row, lookup-remove_row}
use advanced_node.Catalog.Tables.{
  Product, Key, Value, Shelf, Redis, IsUp, product_id, list_key, product_key,
}
use advanced_node.Catalog.Cache.{Parties, Catalog}
use advanced_node.Catalog.Coherence.{IsCoherent}
use advanced_node.Catalog.Categories.{CategoryTable, category_id}
use advanced_node.Catalog.Messaging.{Site, Shop}

abbrev at_key : Rows Product → (k : Key) → Option (Value k)
at_key s (list_key q) = none
at_key s (product_key id) = lookup s id

abbrev set_key : (k : Key) → Value k → Rows Product → Rows Product
set_key (list_key q) v s = s
set_key (product_key id) v s = (id, v) ∷ s

abbrev del_key : Key → Rows Product → Rows Product
del_key (list_key q) s = s
del_key (product_key id) s = remove_row id s

pub set_effect :
    (k : Key) (v : Value k) (s : Rows Product)
    → (at_key (set_key k v s) k ≡ at_key s k) ⊎ (at_key (set_key k v s) k ≡ some v)
set_effect (list_key q) v s = inl refl
set_effect (product_key id) v s = inr (rw eq_refl refl)

pub set_others :
    (k j : Key) (v : Value k) (s : Rows Product) → k ≢ j → at_key (set_key k v s) j ≡ at_key s j
set_others k (list_key q) v s ne = refl
set_others (list_key q) (product_key j) v s ne = refl
set_others (product_key id) (product_key j) v s ne = elim (Bool-cases (id == j)) [
  | inl same ↦ absurd (ne (ap product_key ((eq_iff id j).0 same)))
  | inr other ↦ rw other refl
]

pub del_effect :
    (k j : Key) (s : Rows Product)
    → (at_key (del_key k s) j ≡ at_key s j) ⊎ (at_key (del_key k s) j ≡ none)
del_effect k (list_key q) s = inl refl
del_effect (list_key q) (product_key j) s = inl refl
del_effect (product_key id) (product_key j) s = elim (Bool-cases (id == j)) [
  | inl same ↦ inr (rw same at (lookup-remove_row id j s))
  | inr other ↦ inl (rw other at (lookup-remove_row id j s))
]

pub del_gone : (k : Key) (s : Rows Product) → at_key (del_key k s) k ≡ none
del_gone (list_key q) s = refl
del_gone (product_key id) s = rw eq_refl at (lookup-remove_row id id s)

pub found_in :
    (k : Key) (s : Rows Product) {v : Value k}
    → ◌≡◌ {A = Result (Option (Value k))} (ok (at_key s k)) (ok (some v))
    → at_key s k ≡ some v
found_in (list_key q) s e = cc
found_in (product_key id) s e = cc

pub never_thrown :
    {Row : Type 0} {db db' : Rows Row} {e : Exception} {P : Type 0}
    → ◌≡◌ {A = Result (Unit {0}) × Rows Row} (ok tt, db) (thrown e, db')
    → P
never_thrown {Row} {db} {db'} {e} h =
    let clash : ◌≡◌ {A = Result (Unit {0})} (ok tt) (thrown e) = ap (λ x. x.0) h in absurd (cc)

abbrev pub redis : Redis
redis = record {
  Store = Rows Product;
  at = at_key;
  get = λ k s. ok (at_key s k);
  setex = λ k ttl v s. (ok tt, set_key k v s);
  del = λ k s. (ok tt, del_key k s);
  del_lists = λ s. (ok tt, s);
  get_done = λ k s {v} e. found_in k s e;
  setex_effect = λ k ttl v s. set_effect k v s;
  setex_others = λ k j ttl v s ne. set_others k j v s ne;
  del_effect = del_effect;
  del_done = λ k s s' e. ap (λ x. at_key x k) (sym (ap (λ x. x.1) e)) ∙ del_gone k s;
  del_lists_effect = λ j s. inl refl;
  del_lists_done = λ q s s' e. refl;
}

pub redis-IsUp : IsUp redis
redis-IsUp = record { deletes = λ k s. refl; deletes_lists = λ s. refl }

abbrev pub shelf : Shelf
shelf = record {
  table = memory product_id;
  find_page = λ f skip take db. ok (select (λ r. r.is_active) db);
  count = λ f db. ok (length db);
  delete = λ k db. (ok tt, remove_row k db);
  delete_done =
      λ k db db' e j. ap (λ d. lookup d j) (sym (ap (λ x. x.1) e)) ∙ lookup-remove_row k j db;
  delete_failed = λ k db db' e. never_thrown e;
}

abbrev pub parties : Parties
parties = record { shelf = shelf; redis = redis; stores = λ e. true }

abbrev pub pen : ℕ → Product
pen price = record {
  id = "p1";
  name = "Pen";
  sku = "PEN-1";
  description = none;
  price = price;
  category_id = "c1";
  is_active = true;
}

abbrev pub start : Catalog parties
start = record {
  db = ("p1", pen 250) ∷ [];
  cache = ("p1", pen 250) ∷ [];
  metrics = record { hits = 0; misses = 0 };
  errors = [];
}

pub start-IsCoherent : IsCoherent parties start
start-IsCoherent = record { agrees = λ id v c. c }

abbrev pub category_table : CategoryTable
category_table = record {
  table = memory category_id;
  delete = λ k db. (ok tt, remove_row k db);
  delete_done =
      λ k db db' e j. ap (λ d. lookup d j) (sym (ap (λ x. x.1) e)) ∙ lookup-remove_row k j db;
  delete_failed = λ k db db' e. never_thrown e;
}

abbrev pub site : Site
site = record { parties = parties; categories = category_table; publishes = λ e. ok tt }

abbrev pub open_shop : App (Shop site)
open_shop = record { db = record { catalog = start; categories = []; events = [] }; errors = [] }
