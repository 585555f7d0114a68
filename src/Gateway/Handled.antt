-- ===== src/Gateway/Handled.antt =====
-- What a handler of the gateway does with a request that it may find wanting.
use advanced_node.Common.{
  String, ◌≡◌, ◌≢◌, refl, sym, ◌∙◌, true, false, Bool-cases, List, [], ◌∷◌, inl, inr,
}
use advanced_node.Exec.{Exec}
use advanced_node.Shared.Reply.{Reply}
use advanced_node.Shared.Catch.{respond}
use advanced_node.Gateway.Uuid.{is_valid_uuid}
use advanced_node.Gateway.Uuid.Groups.{IsUuid, is_valid_uuid_iff}
use advanced_node.Gateway.Hooks.{Validated, valid, invalid, validated, checked, non_empty}

module _ {S D : Type 0} where
  -- A handler's answer to what is not ready to be passed on, or what came of passing it on.
  pub data Handled (Ready : Type 0) (Passed : Reply D × S → Type 0) (s : S) (out : Reply D × S)
      : Type 0 where
    turned_down : out.1 ≡ s → out.0.status_code ≡ 400 → (Ready → ⊥) → Handled Ready Passed s out
    taken : Passed out → Handled Ready Passed s out

module _ {S D Ready : Type 0} {Passed : Reply D × S → Type 0} where
  pub checked-Handled :
      (id error : String) (m : Exec S (Reply D)) (s : S)
      → (Ready → IsUuid id)
      → (IsUuid id → Handled Ready Passed s (respond m s))
      → Handled Ready Passed s (respond (checked (is_valid_uuid id) error m) s)
  unfolding respond
  checked-Handled id error m s needs h = elim (Bool-cases (is_valid_uuid id)) [
    | inl good ↦ rw good (h ((is_valid_uuid_iff id).0 good))
    | inr bad ↦ rw bad (
        turned_down refl refl λ r.
          let good : is_valid_uuid id ≡ true = (is_valid_uuid_iff id).1 (needs r) in
          let clash : true ≡ false = sym good ∙ bad in absurd (cc))
  ]

  pub validated-Handled :
      {A : Type 0} (parsed : Validated A) (k : A → Exec S (Reply D)) (s : S)
      → (Ready → (a : A) × (parsed ≡ valid a))
      → ((a : A) → parsed ≡ valid a → Handled Ready Passed s (respond (k a) s))
      → Handled Ready Passed s (respond (validated parsed k) s)
  unfolding respond
  validated-Handled (valid a) k s needs h = h a refl
  validated-Handled (invalid issues) k s needs h =
      turned_down refl refl λ r. let (a, clash) = needs r in absurd (cc clash)

  pub non_empty-Handled :
      {A : Type 0} (d : List A) (m : Exec S (Reply D)) (s : S)
      → (Ready → d ≢ [])
      → (d ≢ [] → Handled Ready Passed s (respond m s))
      → Handled Ready Passed s (respond (non_empty d m) s)
  unfolding respond
  non_empty-Handled [] m s needs h = turned_down refl refl λ r. needs r refl
  non_empty-Handled (x ∷ xs) m s needs h = h (λ e. absurd (cc))
