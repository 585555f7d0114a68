-- ===== src/Exec/Focus.antt =====
-- A method on one part of a state.
use advanced_node.Common.{◌≡◌, refl}
use advanced_node.Exec.{Exec, Result, ok, thrown}
use advanced_node.Exec.Ensures.{Ensures, Outcome}
use advanced_node.Shared.Errors.{Exception}

module _ {S T A : Type 0} (get : S → T) (put : T → S → S) where
  abbrev pub focus : Exec T A → Exec S A
  focus m s = let (r, t) = m (get s) in (r, put t s)

  focus-Outcome :
      (P : A → T → Type 0) (E : Exception → T → Type 0) (s : S) (r : Result A) (t : T)
      → Outcome P E r t
      → Outcome
          (λ a s'. (t : T) × (s' ≡ put t s) × P a t)
          (λ e s'. (t : T) × (s' ≡ put t s) × E e t)
          r
          (put t s)
  focus-Outcome P E s (ok a) t h = (t, refl, h)
  focus-Outcome P E s (thrown e) t h = (t, refl, h)

  pub Ensures-focus :
      {P : A → T → Type 0} {E : Exception → T → Type 0} (m : Exec T A) (s : S)
      → Ensures P E (m (get s))
      → Ensures
          (λ a s'. (t : T) × (s' ≡ put t s) × P a t)
          (λ e s'. (t : T) × (s' ≡ put t s) × E e t)
          (focus m s)
  Ensures-focus {P} {E} m s h = record {
    holds = focus-Outcome P E s (m (get s)).0 (m (get s)).1 h.holds;
  }
