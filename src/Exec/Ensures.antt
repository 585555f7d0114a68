-- ===== src/Exec/Ensures.antt =====
-- What a method ensures, whether it returns or throws, with one rule for each way to build it.
use advanced_node.Common.{Bool, true, false, ◌≡◌, refl, if◌then◌else◌}
use advanced_node.Shared.Errors.{Exception}
use advanced_node.Exec.{Result, ok, thrown, Exec, continue, recover, ◌>>=◌, try_catch}

module _ {A S : Type 0} where
  -- `P` of what is returned and the state after, or `E` of what is thrown and the state after.
  abbrev pub Outcome : (A → S → Type 0) → (Exception → S → Type 0) → Result A → S → Type 0
  Outcome P E (ok a) s = P a s
  Outcome P E (thrown e) s = E e s

  pub record Ensures (P : A → S → Type 0) (E : Exception → S → Type 0) (x : Result A × S)
      : Type 0 where
    pub holds : Outcome P E x.0 x.1

  weaken-Outcome :
      {P Q : A → S → Type 0} {E F : Exception → S → Type 0}
      → ((a : A) (s : S) → P a s → Q a s)
      → ((e : Exception) (s : S) → E e s → F e s)
      → (r : Result A) (s : S) → Outcome P E r s
      → Outcome Q F r s
  weaken-Outcome pq ef (ok a) s h = pq a s h
  weaken-Outcome pq ef (thrown e) s h = ef e s h

  pub Ensures-weaken :
      {P Q : A → S → Type 0} {E F : Exception → S → Type 0} (x : Result A × S)
      → Ensures P E x
      → ((a : A) (s : S) → P a s → Q a s)
      → ((e : Exception) (s : S) → E e s → F e s)
      → Ensures Q F x
  Ensures-weaken (r, s) h pq ef = record { holds = weaken-Outcome pq ef r s h.holds }

module _ {A B S : Type 0} {P : A → S → Type 0} {Q : B → S → Type 0}
    {E : Exception → S → Type 0} where
  continue_outcome :
      (f : A → Exec S B)
      → ((a : A) (s : S) → P a s → Ensures Q E (f a s))
      → (r : Result A) (s : S) → Outcome P E r s
      → Ensures Q E (continue r f s)
  continue_outcome f h (ok a) s p = h a s p
  continue_outcome f h (thrown e) s p = record { holds = p }

  pub Ensures-bind :
      (m : Exec S A) (f : A → Exec S B) (s : S)
      → Ensures P E (m s)
      → ((a : A) (s' : S) → P a s' → Ensures Q E (f a s'))
      → Ensures Q E ((m >>= f) s)
  Ensures-bind m f s hm hf = let (r, s') = m s in continue_outcome f hf r s' hm.holds

module _ {A S : Type 0} {P : A → S → Type 0} {E F : Exception → S → Type 0} where
  recover_outcome :
      (h : Exception → Exec S A)
      → ((e : Exception) (s : S) → E e s → Ensures P F (h e s))
      → (r : Result A) (s : S) → Outcome P E r s
      → Ensures P F (recover r h s)
  recover_outcome h k (ok a) s p = record { holds = p }
  recover_outcome h k (thrown e) s p = k e s p

  pub Ensures-try :
      (m : Exec S A) (h : Exception → Exec S A) (s : S)
      → Ensures P E (m s)
      → ((e : Exception) (s' : S) → E e s' → Ensures P F (h e s'))
      → Ensures P F (try_catch m h s)
  Ensures-try m h s hm hh = let (r, s') = m s in recover_outcome h hh r s' hm.holds

both_outcomes :
    {A S : Type 0} (P Q : A → S → Type 0) (E F : Exception → S → Type 0) (r : Result A) (s : S)
    → Outcome P E r s
    → Outcome Q F r s
    → Outcome (λ a s. P a s × Q a s) (λ e s. E e s × F e s) r s
both_outcomes P Q E F (ok a) s p q = (p, q)
both_outcomes P Q E F (thrown e) s p q = (p, q)

module _ {A S : Type 0} {P Q : A → S → Type 0} {E F : Exception → S → Type 0} where
  pub Ensures-both :
      (x : Result A × S)
      → Ensures P E x
      → Ensures Q F x
      → Ensures (λ a s. P a s × Q a s) (λ e s. E e s × F e s) x
  Ensures-both (r, s) p q = record { holds = both_outcomes P Q E F r s p.holds q.holds }

module _ {A S : Type 0} (P : S → Type 0) where
  -- `P` of the state after, whatever comes with it.
  abbrev pub Leaves : Result A × S → Type 0
  Leaves = Ensures (λ _. P) (λ _. P)

  always : (r : Result A) (s : S) → Outcome (λ _. P) (λ _. P) r s → P s
  always (ok a) s h = h
  always (thrown e) s h = h

  pub Leaves_always : (x : Result A × S) → Leaves x → P x.1
  Leaves_always (r, s) h = always r s h.holds

any-Outcome :
    {A S : Type 0} (r : Result A) (s : S) → Outcome (λ _ _. Unit {0}) (λ _ _. Unit {0}) r s
any-Outcome (ok a) s = tt
any-Outcome (thrown e) s = tt

-- Of a call about which nothing is said.
pub Ensures-any : {A S : Type 0} (x : Result A × S) → Ensures (λ _ _. Unit {0}) (λ _ _. Unit {0}) x
Ensures-any (r, s) = record { holds = any-Outcome r s }

module _ {A S : Type 0} {P : A → S → Type 0} {E : Exception → S → Type 0} where
  -- A test, whose outcome each branch may use.
  pub Ensures-if :
      (b : Bool) (m n : Exec S A) (s : S)
      → (b ≡ true → Ensures P E (m s))
      → (b ≡ false → Ensures P E (n s))
      → Ensures P E ((if b then m else n) s)
  Ensures-if true m n s h k = h refl
  Ensures-if false m n s h k = k refl
