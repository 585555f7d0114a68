-- ===== src/Prisma/Calls.antt =====
-- What each call of a table ensures, from its laws.
use advanced_node.Common.{
  String, ◌≡◌, refl, ap, Bool, true, Option, none, some, List, All, Has, ◌==◌, if◌then◌else◌,
}
use advanced_node.Exec.{Result, ok, thrown, query}
use advanced_node.Exec.Ensures.{Ensures, Outcome}
use advanced_node.Shared.Errors.{IsForeign}
use advanced_node.Prisma.{Table, IsHealthy}

module _ {Row : Type 0} {key : Row → String} (t : Table Row key) where
  pub find_unique-Ensures :
      (k : String) (db : t.Db)
      → Ensures
          (λ r db'. (r ≡ t.row db k) × (db' ≡ db))
          (λ e db'. IsForeign e × (db' ≡ db))
          (query (t.find_unique k) db)
  find_unique-Ensures k db = record { holds = go (t.find_unique k db) refl }
    where
      go :
          (r : Result (Option Row))
          → t.find_unique k db ≡ r
          → Outcome
              (λ r db'. (r ≡ t.row db k) × (db' ≡ db))
              (λ e db'. IsForeign e × (db' ≡ db))
              r
              db
      go (ok r) e = (t.find_unique_done k db e, refl)
      go (thrown x) e = (t.find_unique_failed k db e, refl)

  pub find_many-Ensures :
      (p : Row → Bool) (db : t.Db)
      → Ensures
          (λ rs db'.
            All (λ r. p r ≡ true) rs
            × ((k : String) (r : Row) → t.row db k ≡ some r → p r ≡ true → Has r rs)
            × (db' ≡ db))
          (λ e db'. IsForeign e × (db' ≡ db))
          (query (t.find_many p) db)
  find_many-Ensures p db = record { holds = go (t.find_many p db) refl }
    where
      go :
          (r : Result (List Row))
          → t.find_many p db ≡ r
          → Outcome
              (λ rs db'.
                All (λ r. p r ≡ true) rs
                × ((k : String) (r : Row) → t.row db k ≡ some r → p r ≡ true → Has r rs)
                × (db' ≡ db))
              (λ e db'. IsForeign e × (db' ≡ db))
              r
              db
      go (ok r) e = let (sound, complete) = t.find_many_done p db e in (sound, complete, refl)
      go (thrown x) e = (t.find_many_failed p db e, refl)

  -- An update changes its row and no other, or throws and changes nothing.
  abbrev pub Updated : String → (Row → Row) → t.Db → Row → t.Db → Type 0
  Updated k f db r db' =
      (old : Row) × (t.row db k ≡ some old)
      × (r ≡ f old)
      × ((j : String) → t.row db' j ≡ (if k == j then some (f old) else t.row db j))

  pub update-Ensures :
      (k : String) (f : Row → Row) (db : t.Db)
      → Ensures
          (Updated k f db)
          (λ e db'. IsForeign e × ((j : String) → t.row db' j ≡ t.row db j))
          (t.update k f db)
  update-Ensures k f db = record { holds = go (t.update k f db).0 (t.update k f db).1 refl }
    where
      go :
          (r : Result Row) (db' : t.Db)
          → t.update k f db ≡ (r, db')
          → Outcome
              (Updated k f db)
              (λ e db'. IsForeign e × ((j : String) → t.row db' j ≡ t.row db j))
              r
              db'
      go (ok r) db' e = t.update_done k f db db' e
      go (thrown x) db' e = t.update_failed k f db db' e

  abbrev pub Created : Row → t.Db → Row → t.Db → Type 0
  Created new db r db' =
      (t.row db (key new) ≡ none)
      × (r ≡ new)
      × ((j : String) → t.row db' j ≡ (if key new == j then some new else t.row db j))

  pub create-Ensures :
      (new : Row) (db : t.Db)
      → Ensures
          (Created new db)
          (λ e db'. IsForeign e × ((j : String) → t.row db' j ≡ t.row db j))
          (t.create new db)
  create-Ensures new db = record { holds = go (t.create new db).0 (t.create new db).1 refl }
    where
      go :
          (r : Result Row) (db' : t.Db)
          → t.create new db ≡ (r, db')
          → Outcome
              (Created new db)
              (λ e db'. IsForeign e × ((j : String) → t.row db' j ≡ t.row db j))
              r
              db'
      go (ok r) db' e = t.create_done new db db' e
      go (thrown x) db' e = t.create_failed new db db' e

-- On a healthy table a look-up, and an update of a row that is there, return.
module _ {Row : Type 0} {key : Row → String} (t : Table Row key) (healthy : IsHealthy t) where
  pub find_unique-total :
      (k : String) (db : t.Db)
      → Ensures (λ r db'. (r ≡ t.row db k) × (db' ≡ db)) (λ e db'. ⊥) (query (t.find_unique k) db)
  find_unique-total k db = rw healthy.finds (record { holds = (refl, refl) })

  pub update-total :
      (k : String) (f : Row → Row) (db : t.Db) (old : Row)
      → t.row db k ≡ some old
      → Ensures (Updated t k f db) (λ e db'. ⊥) (t.update k f db)
  update-total k f db old there = record { holds = go (t.update k f db).0 (t.update k f db).1 refl }
    where
      go :
          (r : Result Row) (db' : t.Db)
          → t.update k f db ≡ (r, db')
          → Outcome (Updated t k f db) (λ e db'. ⊥) r db'
      go (ok r) db' e = t.update_done k f db db' e
      go (thrown x) db' e =
          let returned : (t.update k f db).0 ≡ ok (f old) = healthy.updates k f db old there in
          absurd (cc (ap (λ r. r.0) e))
