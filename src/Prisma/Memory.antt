-- ===== src/Prisma/Memory.antt =====
-- A table in memory, whose calls fail only where Prisma's documentation says so: the laws of a
-- table can be met.
use mathlib.Core.Path.{subst}
use advanced_node.Common.{
  String, ◌≡◌, refl, ap, inl, inr, Bool, true, Option, none, some, List, [], ◌∷◌, All, Has, arith,
  eq_iff, Option-cases, ◌==◌, if◌then◌else◌,
}
use advanced_node.Exec.{Result, ok, thrown}
use advanced_node.Shared.Errors.{Exception, error, IsForeign}
use advanced_node.Prisma.{Table, IsHealthy}

abbrev pub Rows : Type 0 → Type 0
Rows Row = List (String × Row)

abbrev record_not_found : Exception
record_not_found = error "Record to update not found."

abbrev constraint_failed : Exception
constraint_failed = error "Unique constraint failed"

module _ {Row : Type 0} where
  abbrev pub lookup : Rows Row → String → Option Row
  lookup [] k = none
  lookup ((j, r) ∷ db) k = if j == k then some r else lookup db k

  abbrev pub replace : String → Row → Rows Row → Rows Row
  replace k new [] = []
  replace k new ((j, r) ∷ db) = if j == k then (j, new) ∷ db else (j, r) ∷ replace k new db

  abbrev pub select : (Row → Bool) → Rows Row → List Row
  select p [] = []
  select p ((j, r) ∷ db) = let rest = select p db in if p r then r ∷ rest else rest

  lookup-replace :
      (k j : String) (new old : Row) (db : Rows Row)
      → lookup db k ≡ some old
      → lookup (replace k new db) j ≡ (if k == j then some new else lookup db j)
  lookup-replace k j new old [] h = cc
  lookup-replace k j new old ((i, r) ∷ db) h =
      ground (arith, eq_iff i k, eq_iff i j, eq_iff k j, lookup-replace k j new old db)

  select-All : (p : Row → Bool) (db : Rows Row) → All (λ r. p r ≡ true) (select p db)
  select-All p [] = tt
  select-All p ((j, r) ∷ db) = ground (arith, select-All p db)

  select-Has :
      (p : Row → Bool) (db : Rows Row) (k : String) (r : Row)
      → lookup db k ≡ some r
      → p r ≡ true
      → Has r (select p db)
  select-Has p [] k r h t = absurd (cc)
  select-Has p ((j, x) ∷ db) k r h t = ground (arith, select-Has p db k r)

  failed_in_place :
      {m : String} {e : Exception} {db db' : Rows Row}
      → ◌≡◌ {A = Result Row × Rows Row} (thrown (error m), db) (thrown e, db')
      → IsForeign e × ((j : String) → lookup db' j ≡ lookup db j)
  failed_in_place {m} {e} same =
      let plain : error m ≡ e = cc in (subst IsForeign plain tt, λ j. rw (ap (λ x. x.1) same))

  abbrev update_at : String → (Row → Row) → Rows Row → Option Row → Result Row × Rows Row
  update_at k f db none = (thrown record_not_found, db)
  update_at k f db (some old) = (ok (f old), replace k (f old) db)

  abbrev create_at : String → Row → Rows Row → Option Row → Result Row × Rows Row
  create_at k new db none = (ok new, (k, new) ∷ db)
  create_at k new db (some old) = (thrown constraint_failed, db)

  pub update_at_done :
      (k : String) (f : Row → Row) (db db' : Rows Row) {r : Row}
      → update_at k f db (lookup db k) ≡ (ok r, db')
      → (old : Row) × (lookup db k ≡ some old)
        × (r ≡ f old)
        × ((j : String) → lookup db' j ≡ (if k == j then some (f old) else lookup db j))
  update_at_done k f db db' {r} h = elim (Option-cases (lookup db k)) [
    | inl missing ↦ absurd (cc (rw missing at h))
    | inr (old, found) ↦
        let e : ◌≡◌ {A = Result Row × Rows Row} (ok (f old), replace k (f old) db) (ok r, db') =
          rw found at h in
        (old, found, cc, λ j. rw (← ap (λ x. x.1) e) (lookup-replace k j (f old) old db found))
  ]

  pub update_at_failed :
      (k : String) (f : Row → Row) (db db' : Rows Row) {e : Exception}
      → update_at k f db (lookup db k) ≡ (thrown e, db')
      → IsForeign e × ((j : String) → lookup db' j ≡ lookup db j)
  update_at_failed k f db db' {e} h = elim (Option-cases (lookup db k)) [
    | inl missing ↦
        let same : ◌≡◌ {A = Result Row × Rows Row} (thrown record_not_found, db) (thrown e, db') =
          rw missing at h in
        failed_in_place same
    | inr (old, found) ↦ absurd (cc (rw found at h))
  ]

  pub create_at_done :
      (k : String) (new : Row) (db db' : Rows Row) {r : Row}
      → create_at k new db (lookup db k) ≡ (ok r, db')
      → (lookup db k ≡ none)
        × (r ≡ new)
        × ((j : String) → lookup db' j ≡ (if k == j then some new else lookup db j))
  create_at_done k new db db' {r} h = elim (Option-cases (lookup db k)) [
    | inr (old, found) ↦ absurd (cc (rw found at h))
    | inl missing ↦
        let e : ◌≡◌ {A = Result Row × Rows Row} (ok new, (k, new) ∷ db) (ok r, db') =
          rw missing at h in
        (missing, cc, λ j. rw (← ap (λ x. x.1) e) refl)
  ]

  pub create_at_failed :
      (k : String) (new : Row) (db db' : Rows Row) {e : Exception}
      → create_at k new db (lookup db k) ≡ (thrown e, db')
      → IsForeign e × ((j : String) → lookup db' j ≡ lookup db j)
  create_at_failed k new db db' {e} h = elim (Option-cases (lookup db k)) [
    | inl missing ↦ absurd (cc (rw missing at h))
    | inr (old, found) ↦
        let same : ◌≡◌ {A = Result Row × Rows Row} (thrown constraint_failed, db) (thrown e, db') =
          rw found at h in
        failed_in_place same
  ]

module _ {Row : Type 0} where
  pub find_done :
      (k : String) (db : Rows Row) {r : Option Row} → ok (lookup db k) ≡ ok r → r ≡ lookup db k
  find_done k db h = cc

  pub select_done :
      (p : Row → Bool) (db : Rows Row) {rs : List Row}
      → ok (select p db) ≡ ok rs
      → All (λ r. p r ≡ true) rs
        × ((k : String) (r : Row) → lookup db k ≡ some r → p r ≡ true → Has r rs)
  select_done p db {rs} h =
      let e : select p db ≡ rs = cc in
      rw e at (
        let both : All (λ r. p r ≡ true) (select p db)
            × ((k : String) (r : Row) → lookup db k ≡ some r → p r ≡ true → Has r (select p db)) =
          (select-All p db, select-Has p db) in
        both)

pub never_fails : {A : Type 0} {a : A} {e : Exception} → ok a ≡ thrown e → IsForeign e
never_fails h = absurd (cc)

module _ {Row : Type 0} (key : Row → String) where
  abbrev pub memory : Table Row key
  memory = record {
    Db = Rows Row;
    row = lookup;
    find_unique = λ k db. ok (lookup db k);
    find_many = λ p db. ok (select p db);
    create = λ new db. create_at (key new) new db (lookup db (key new));
    update = λ k f db. update_at k f db (lookup db k);
    find_unique_done = find_done;
    find_unique_failed = λ k db. never_fails;
    find_many_failed = λ p db. never_fails;
    find_many_done = select_done;
    create_done = λ new db db'. create_at_done (key new) new db db';
    create_failed = λ new db db'. create_at_failed (key new) new db db';
    update_done = update_at_done;
    update_failed = update_at_failed;
  }

  pub memory-IsHealthy : IsHealthy memory
  memory-IsHealthy = record { finds = λ k db. refl; updates = λ k f db old found. rw found }

module _ {Row : Type 0} where
  -- What stands under the key, gone.
  abbrev pub remove_row : String → Rows Row → Rows Row
  remove_row k [] = []
  remove_row k ((j, x) ∷ db) = let rest = remove_row k db in if j == k then rest else (j, x) ∷ rest

  pub lookup-remove_row :
      (k j : String) (db : Rows Row)
      → lookup (remove_row k db) j ≡ (if k == j then none else lookup db j)
  lookup-remove_row k j [] = ground arith
  lookup-remove_row k j ((i, x) ∷ db) =
      ground (arith, eq_iff i k, eq_iff i j, eq_iff k j, lookup-remove_row k j db)
