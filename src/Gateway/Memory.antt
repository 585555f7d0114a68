-- ===== src/Gateway/Memory.antt =====
-- Tables of accounts and tokens in memory: the laws of the gateway's tables can be met.
use advanced_node.Common.{
  String, ◌≡◌, refl, sym, ap, ◌∙◌, Bool, Bool-cases, Option, none, some, [], ◌∷◌, inl, inr, arith,
  eq_iff, ◌==◌, if◌then◌else◌, true, false, ◌&&◌,
}
use advanced_node.Exec.{Result, ok, thrown}
use advanced_node.Shared.Errors.{Exception, IsForeign}
use advanced_node.Prisma.Memory.{remove_row, lookup-remove_row, Rows, lookup, memory, never_fails}
use advanced_node.Gateway.Tables.{
  User, RefreshToken, Users, Tokens, user_key, token_key, upserted, kept,
}

module _ {Row : Type 0} where
  abbrev pub put_row : String → Row → Rows Row → Rows Row
  put_row k r [] = (k, r) ∷ []
  put_row k r ((j, x) ∷ db) =
      let rest = put_row k r db in if j == k then (k, r) ∷ db else (j, x) ∷ rest

  lookup-put_row :
      (k j : String) (r : Row) (db : Rows Row)
      → lookup (put_row k r db) j ≡ (if k == j then some r else lookup db j)
  lookup-put_row k j r [] = refl
  lookup-put_row k j r ((i, x) ∷ db) =
      ground (arith, eq_iff i k, eq_iff i j, eq_iff k j, lookup-put_row k j r db)

-- A row that is picked goes with all that stands under its key.
abbrev pub delete_rows : (RefreshToken → Bool) → Rows RefreshToken → Rows RefreshToken
delete_rows p [] = []
delete_rows p ((j, r) ∷ db) =
    let rest = delete_rows p db in if p r then remove_row j rest else (j, r) ∷ rest

pub lookup-delete_rows :
    (p : RefreshToken → Bool) (db : Rows RefreshToken) (j : String)
    → lookup (delete_rows p db) j ≡ kept p (lookup db j)
lookup-delete_rows p [] j = refl
lookup-delete_rows p ((i, r) ∷ db) j =
    ground (arith, lookup-remove_row i j (delete_rows p db), lookup-delete_rows p db j)

-- A row under a key that came earlier is hidden.
abbrev after : String → Option User → Option User
after j none = none
after j (some u) = if j == u.email then none else some u

after-some :
    (j : String) (r : Option User) (u : User)
    → after j r ≡ some u
    → (r ≡ some u) × ((j == u.email) ≡ false)
after-some j none u h = absurd (cc)
after-some j (some v) u h = elim (Bool-cases (j == v.email)) [
  | inl hides ↦ absurd (cc (rw hides at h))
  | inr apart ↦
      let e : some v ≡ some u = rw apart at h in
      let same : v ≡ u = cc in
      (e, sym (ap (λ x. j == x.email) same) ∙ apart)
]

and_both : (a b : Bool) → (a && b) ≡ true → (a ≡ true) × (b ≡ true)
and_both true true h = (refl, refl)
and_both true false h = absurd (cc)
and_both false b h = absurd (cc)

abbrev pub find_id : String → Rows User → Option User
find_id id [] = none
find_id id ((j, u) ∷ db) =
    let rest = after j (find_id id db) in if (u.id == id) && (u.email == j) then some u else rest

pub find_id-row :
    (id : String) (db : Rows User) (u : User)
    → find_id id db ≡ some u
    → (u.id ≡ id) × (lookup db u.email ≡ some u)
find_id-row id [] u h = absurd (cc)
find_id-row id ((j, v) ∷ db) u h = elim (Bool-cases ((v.id == id) && (v.email == j))) [
  | inl same ↦
      let e : v ≡ u = cc (rw same at h) in
      let (by_id, by_key) = and_both (v.id == id) (v.email == j) same in
      (
        ap (λ x. x.id) (sym e) ∙ (eq_iff v.id id).0 by_id,
        first_row j v u db e ((eq_iff v.email j).0 by_key),
      )
  | inr other ↦
      let (found, apart) = after-some j (find_id id db) u (rw other at h) in
      let (same_id, there) = find_id-row id db u found in
      (same_id, rw apart there)
]
  where
    first_row :
        (j : String) (v u : User) (db : Rows User)
        → v ≡ u
        → v.email ≡ j
        → lookup ((j, v) ∷ db) u.email ≡ some u
    first_row j v u db e key =
        let at_key : j ≡ u.email = sym key ∙ ap (λ x. x.email) e in
        let test : (j == u.email) ≡ true = (eq_iff j u.email).1 at_key in
        rw test (ap some e)

unfoldable pub upsert_row : String → (User → User) → User → Rows User → Result User × Rows User
upsert_row k f new db = let u = upserted f new (lookup db k) in (ok u, put_row k u db)

pub upsert_row_done :
    (k : String) (f : User → User) (new : User) (db db' : Rows User) {u : User}
    → upsert_row k f new db ≡ (ok u, db')
    → (u ≡ upserted f new (lookup db k))
      × ((j : String) → lookup db' j ≡ (if k == j then some u else lookup db j))
unfolding upsert_row
upsert_row_done k f new db db' {u} e =
    let result : ok (upserted f new (lookup db k)) ≡ ok u = ap (λ x. x.0) e in
    let made : upserted f new (lookup db k) ≡ u = cc in
    let after : put_row k (upserted f new (lookup db k)) db ≡ db' = ap (λ x. x.1) e in
    (
      sym made,
      λ j.
          sym (ap (λ d. lookup d j) after)
          ∙ lookup-put_row k j (upserted f new (lookup db k)) db
          ∙ ap (λ x. if k == j then some x else lookup db j) made,
    )

pub upsert_never_fails :
    (k : String) (f : User → User) (new : User) (db : Rows User) {db' : Rows User} {e : Exception}
    → upsert_row k f new db ≡ (thrown e, db')
    → IsForeign e × ((j : String) → lookup db' j ≡ lookup db j)
unfolding upsert_row
upsert_never_fails k f new db {db'} {e} h =
    let clash : ok (upserted f new (lookup db k)) ≡ thrown e = ap (λ x. x.0) h in absurd (cc)

pub delete_never_fails :
    (db : Rows RefreshToken) {db' new : Rows RefreshToken} {e : Exception}
    → ◌≡◌ {A = Result (Unit {0}) × Rows RefreshToken} (ok tt, new) (thrown e, db')
    → IsForeign e × ((j : String) → lookup db' j ≡ lookup db j)
delete_never_fails db {db'} {new} {e} h =
    let clash : ◌≡◌ {A = Result (Unit {0})} (ok tt) (thrown e) = ap (λ x. x.0) h in absurd (cc)

abbrev pub users_in_memory : Users
users_in_memory = record {
  table = memory user_key;
  find_by_id = λ id db. ok (find_id id db);
  find_by_id_done = λ id db {u} e. find_id-row id db u (cc);
  find_by_id_failed = λ id db. never_fails;
  upsert = upsert_row;
  upsert_done = λ k f new db db'. upsert_row_done k f new db db';
  upsert_failed = λ k f new db db' e. upsert_never_fails k f new db e;
}

abbrev pub tokens_in_memory : Tokens
tokens_in_memory = record {
  table = memory token_key;
  delete_many = λ p db. (ok tt, delete_rows p db);
  delete_many_done =
      λ p db db' e j. sym (ap (λ d. lookup d j) (ap (λ x. x.1) e)) ∙ lookup-delete_rows p db j;
  delete_many_failed = λ p db db' e. delete_never_fails db e;
}
