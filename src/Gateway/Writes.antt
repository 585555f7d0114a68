-- ===== src/Gateway/Writes.antt =====
-- Who may write to the catalogue through the gateway, and what is passed on.
use advanced_node.Common.{
  String, ◌≡◌, ◌≢◌, ◌⊎◌, refl, sym, ◌∙◌, Bool-cases, Option, none, some, [], ◌∷◌, inl, inr,
}
use advanced_node.Exec.{Exec, Result}
use advanced_node.Shared.Reply.{Reply, handle_error}
use advanced_node.Shared.Catch.{respond}
use advanced_node.Gateway.Tables.{admin}
use advanced_node.Gateway.Parties.{JwtPayload}
use advanced_node.Gateway.Access.{
  Checked, passes, answers, Allows, auth_middleware, require_role, served_by, served_iff, includes,
}
use advanced_node.Gateway.Uuid.{is_valid_uuid}
use advanced_node.Gateway.Uuid.Groups.{IsUuid}
use advanced_node.Gateway.Services.{Object, Bus}
use advanced_node.Gateway.Hooks.{
  Validated, valid, behind_admin, if_passed, if_allowed, validated, checked, non_empty,
}
use advanced_node.Gateway.Handled.{
  Handled, taken, checked-Handled, validated-Handled, non_empty-Handled,
}
use advanced_node.Gateway.Products
use advanced_node.Gateway.Products.{Content}
use advanced_node.Gateway.Categories

module _ (verify_access : String → Result JwtPayload) where
  not_allowed :
      (header : Option String) (c : Checked)
      → auth_middleware verify_access header ≡ c
      → served_by (admin ∷ []) c ≡ none
      → (payload : JwtPayload) → Allows verify_access (admin ∷ []) header payload
      → ⊥
  not_allowed header c e nobody payload allows =
      let served = (served_iff verify_access (admin ∷ []) header payload).1 allows in
      let clash : none ≡ some payload = sym nobody ∙ (rw e at served) in absurd (cc)

module _ {S D : Type 0} (verify_access : String → Result JwtPayload) where
  -- Refused to anybody who is no administrator, before anything else happened; or handled, for one.
  pub data Guarded (header : Option String) (Ready : Type 0) (Passed : Reply D × S → Type 0) (s : S)
      (out : Reply D × S) : Type 0 where
    refused :
        ((payload : JwtPayload) → Allows verify_access (admin ∷ []) header payload → ⊥)
        → out.1 ≡ s
        → (out.0.status_code ≡ 401) ⊎ (out.0.status_code ≡ 403)
        → Guarded header Ready Passed s out
    let_in :
        (payload : JwtPayload)
        → Allows verify_access (admin ∷ []) header payload
        → Handled Ready Passed s out
        → Guarded header Ready Passed s out

  module _ (header : Option String) (Ready : Type 0) (Passed : Reply D × S → Type 0)
      (m : Exec S (Reply D)) (s : S) (handled : Handled Ready Passed s (respond m s)) where
    role_case :
        (payload : JwtPayload)
        → auth_middleware verify_access header ≡ passes payload
        → Guarded header Ready Passed s
            (respond (if_allowed (require_role (admin ∷ []) (some payload)) m) s)
    unfolding require_role respond handle_error
    role_case payload auth = elim (Bool-cases (includes payload.role (admin ∷ []))) [
      | inl allowed ↦
          let served : served_by (admin ∷ []) (auth_middleware verify_access header)
              ≡ some payload =
            rw auth (rw allowed refl) in
          rw allowed (
            let_in payload ((served_iff verify_access (admin ∷ []) header payload).0 served)
              handled)
      | inr denied ↦ rw denied (
          refused (not_allowed verify_access header (passes payload) auth (rw denied refl)) refl
            (inr refl))
    ]

    auth_case :
        (c : Checked)
        → auth_middleware verify_access header ≡ c
        → Guarded header Ready Passed s (
            respond
              (if_passed c λ payload. if_allowed (require_role (admin ∷ []) (some payload)) m)
              s)
    unfolding respond
    auth_case (answers message) e =
        refused (not_allowed verify_access header (answers message) e refl) refl (inl refl)
    auth_case (passes payload) e = role_case payload e

    behind_admin-Guarded :
        Guarded header Ready Passed s (respond (behind_admin verify_access header m) s)
    unfolding behind_admin
    behind_admin-Guarded = auth_case (auth_middleware verify_access header) refl

module _ {V D : Type 0} (b : Bus V D) (text : String → V)
    (verify_access : String → Result JwtPayload) where
  abbrev pub Outcome : Type 0
  Outcome = Reply (Content D) × b.Net

  module _ (header : Option String) (id : String) (parsed : Validated (Object V)) (n : b.Net) where
    abbrev pub Accepted : Object V → Type 0
    Accepted d = parsed ≡ valid d

    -- A body that the schema accepts is passed on, and the reply is that of `m`.
    abbrev pub Posted : (Object V → Exec b.Net (Reply (Content D))) → Outcome → Type 0
    Posted m out = (d : Object V) × Accepted d × (out ≡ respond (m d) n)

    -- The same for a UUID and a body with some field.
    abbrev pub Put : (String → Object V → Exec b.Net (Reply (Content D))) → Outcome → Type 0
    Put m out = (d : Object V) × Accepted d × (out ≡ respond (m id d) n)

    abbrev pub ReadyToPut : Type 0
    ReadyToPut = IsUuid id × ((d : Object V) × Accepted d × (d ≢ []))

    abbrev pub GuardedWrites :
        (create : Option String → Validated (Object V) → Exec b.Net (Reply (Content D)))
        → (update : Option String → String → Validated (Object V) → Exec b.Net (Reply (Content D)))
        → (delete : Option String → String → Exec b.Net (Reply (Content D)))
        → (creating : Object V → Exec b.Net (Reply (Content D)))
        → (updating : String → Object V → Exec b.Net (Reply (Content D)))
        → (deleting : String → Exec b.Net (Reply (Content D))) → Type 0
    GuardedWrites create update delete creating updating deleting =
        Guarded verify_access header ((d : Object V) × Accepted d) (Posted creating) n
          (respond (create header parsed) n)
        × Guarded verify_access header ReadyToPut (λ out. ReadyToPut × Put updating out) n
            (respond (update header id parsed) n)
        × Guarded verify_access header (IsUuid id)
            (λ out. IsUuid id × (out ≡ respond (deleting id) n)) n (respond (delete header id) n)

    writes-GuardedWrites :
        (bad : String) (creating : Object V → Exec b.Net (Reply (Content D)))
        (updating : String → Object V → Exec b.Net (Reply (Content D)))
        (deleting : String → Exec b.Net (Reply (Content D)))
        → GuardedWrites
            (λ h d. behind_admin verify_access h (validated d creating))
            (λ h i d.
              behind_admin verify_access h
                (checked (is_valid_uuid i) bad (validated d λ x. non_empty x (updating i x))))
            (λ h i. behind_admin verify_access h (checked (is_valid_uuid i) bad (deleting i)))
            creating
            updating
            deleting
    writes-GuardedWrites bad creating updating deleting = (
      behind_admin-Guarded verify_access header _ _ _ n
          (validated-Handled parsed creating n (λ r. r) λ d e. taken (d, e, refl)),
      behind_admin-Guarded verify_access header _ _ _ n (
          checked-Handled id bad _ n (λ r. r.0)
            λ u.
              validated-Handled parsed (λ d. non_empty d (updating id d)) n (λ r. (r.1.0, r.1.1))
                λ d e.
                  non_empty-Handled d (updating id d) n
                    (λ r empty. r.1.2 (sym (cc (e, r.1.1)) ∙ empty))
                    λ full. taken ((u, (d, e, full)), (d, e, refl))),
      behind_admin-Guarded verify_access header _ _ _ n
          (checked-Handled id bad (deleting id) n (λ u. u) λ u. taken (u, refl)),
    )

  -- Each of the six routes that write products and categories answers 401 or 403, before any other
  -- service hears of the request, if its header is not "Bearer " and a token that verifies for an
  -- administrator. For an administrator it answers 400, and again nothing is passed on, if the
  -- identifier in the path is no UUID, the schema refuses the body, or the body of an update is
  -- empty; and else the reply, and what the other services did, is that of the call that passes the
  -- write on.
  pub writes-Guarded :
      (header : Option String) (id : String) (parsed : Validated (Object V)) (n : b.Net)
      → GuardedWrites header id parsed n
          (Products.create b text verify_access)
          (Products.update b text verify_access)
          (Products.delete b text verify_access)
          (Products.creating b text verify_access)
          (Products.updating b text verify_access)
          (Products.deleting b text verify_access)
        × GuardedWrites header id parsed n
            (Categories.create b text verify_access)
            (Categories.update b text verify_access)
            (Categories.delete b text verify_access)
            (Categories.creating b text verify_access)
            (Categories.updating b text verify_access)
            (Categories.deleting b text verify_access)
  unfolding Products.create Products.update Products.delete Categories.create Categories.update
      Categories.delete
  writes-Guarded header id parsed n = (
    writes-GuardedWrites header id parsed n Products.bad_id (Products.creating b text verify_access)
        (Products.updating b text verify_access) (Products.deleting b text verify_access),
    writes-GuardedWrites header id parsed n Categories.bad_id
        (Categories.creating b text verify_access) (Categories.updating b text verify_access)
        (Categories.deleting b text verify_access),
  )
