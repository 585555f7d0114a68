-- ===== src/Exec.antt =====
-- Asynchronous methods that read and write a state and may throw. What was written before a throw
-- stays written, so the state comes back beside the exception too.
pub mod Ensures
pub mod Focus
use advanced_node.Shared.Errors.{Exception}

pub data Result {ℓ} (A : Type ℓ) : Type ℓ where
  ok : A → Result A
  thrown : Exception → Result A

abbrev pub Exec : Type 0 → Type 0 → Type 0
Exec S A = S → Result A × S

module _ {S A : Type 0} where
  abbrev pub pure : A → Exec S A
  pure a s = (ok a, s)

  abbrev pub throw : Exception → Exec S A
  throw e s = (thrown e, s)

  -- A query reads the state and leaves it alone.
  abbrev pub query : (S → Result A) → Exec S A
  query f s = (f s, s)

  abbrev pub recover : Result A → (Exception → Exec S A) → Exec S A
  recover (ok a) h s = (ok a, s)
  recover (thrown e) h s = h e s

  -- `try { m } catch (e) { h e }`
  abbrev pub try_catch : Exec S A → (Exception → Exec S A) → Exec S A
  try_catch m h s = let (r, s') = m s in recover r h s'

module _ {S A B : Type 0} where
  abbrev pub continue : Result A → (A → Exec S B) → Exec S B
  continue (ok a) f s = f a s
  continue (thrown e) f s = (thrown e, s)

  infixl 5 ◌>>=◌ ◌>>◌
  abbrev pub ◌>>=◌ : Exec S A → (A → Exec S B) → Exec S B
  ◌>>=◌ m f s = let (r, s') = m s in continue r f s'

  abbrev pub ◌>>◌ : Exec S A → Exec S B → Exec S B
  m >> n = m >>= λ _. n
