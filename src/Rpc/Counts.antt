-- ===== src/Rpc/Counts.antt =====
-- How often an identifier stands in the parts of a client.
use advanced_node.Common.{
  ℕ, suc, ◌+◌, ◌<◌, String, ◌≡◌, refl, true, false, Option, none, some, List, [], ◌∷◌, ◌++◌, arith,
  eq_iff, ◌==◌, if◌then◌else◌,
}
use advanced_node.Rpc.Client.{Sent, Settlement, remove, has}

abbrev pub count : String → List String → ℕ
count id [] = 0
count id (x ∷ xs) = if x == id then suc (count id xs) else count id xs

abbrev pub one_if : String → Option String → ℕ
one_if id none = 0
one_if id (some x) = if x == id then 1 else 0

module _ {A : Type 0} where
  abbrev pub settled_count : String → List (String × Settlement A) → ℕ
  settled_count id [] = 0
  settled_count id ((x, s) ∷ xs) =
      if x == id then suc (settled_count id xs) else settled_count id xs

  -- The calls started with that identifier.
  abbrev pub sent_count : String → List (Sent A) → ℕ
  sent_count id [] = 0
  sent_count id (x ∷ xs) = one_if id x.correlation_id + sent_count id xs

  pub settled_count-append :
      (id j : String) (s : Settlement A) (xs : List (String × Settlement A))
      → settled_count id (xs ++ (j, s) ∷ []) ≡ settled_count id xs + (if j == id then 1 else 0)
  settled_count-append id j s [] = ground arith
  settled_count-append id j s ((x, t) ∷ xs) = ground (arith, settled_count-append id j s xs)

  pub sent_count-append :
      (id : String) (x : Sent A) (xs : List (Sent A))
      → sent_count id (xs ++ x ∷ []) ≡ sent_count id xs + one_if id x.correlation_id
  sent_count-append id x [] = omega arith
  sent_count-append id x (y ∷ xs) = omega (arith, sent_count-append id x xs)

pub count-append :
    (id j : String) (xs : List String)
    → count id (xs ++ j ∷ []) ≡ count id xs + (if j == id then 1 else 0)
count-append id j [] = ground arith
count-append id j (x ∷ xs) = ground (arith, count-append id j xs)

pub count-remove :
    (id j : String) (xs : List String)
    → count id (remove j xs) ≡ (if j == id then 0 else count id xs)
count-remove id j [] = ground arith
count-remove id j (x ∷ xs) =
    ground (arith, eq_iff x j, eq_iff x id, eq_iff j id, count-remove id j xs)

pub count-has : (id : String) (xs : List String) → has id xs ≡ true → 0 < count id xs
count-has id [] h = absurd (cc)
count-has id (x ∷ xs) h = ground (arith, count-has id xs)

pub count-lacks : (id : String) (xs : List String) → has id xs ≡ false → count id xs ≡ 0
count-lacks id [] h = refl
count-lacks id (x ∷ xs) h = ground (arith, count-lacks id xs)
