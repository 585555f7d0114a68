-- ===== src/Gateway/Access.antt =====
-- src/services/api-gateway/middleware: who a request is from, and whether it may pass.
use Prim.Native.Char.{Char}
use Prim.Native.String.{◌++◌ as join}
use advanced_node.Common.{
  String, ◌≡◌, ◌↔◌, inl, inr, refl, sym, ap, ◌∙◌, Bool, true, false, Bool-cases, ◌||◌, Option, none,
  some, List, [], ◌∷◌, eq_iff, eq_refl, ◌==◌, if◌then◌else◌, prefixed,
}
use advanced_node.Exec.{Result, ok, thrown}
use advanced_node.Shared.Errors.{app, forbidden}
use advanced_node.Gateway.Tables.{UserRole, user, admin, guest}
use advanced_node.Gateway.Parties.{JwtPayload}

-- The rest of a text after a prefix that it has.
abbrev pub after : String → String → Option String
after String.[] s = some s
after (String.◌∷◌ c p) String.[] = none
after (String.◌∷◌ c p) (String.◌∷◌ d s) =
    let rest = after p s in if String.◌∷◌ c String.[] == String.◌∷◌ d String.[] then rest else none

-- What the middleware does: it sets `request.user`, or answers with the status 401.
pub data Checked : Type 0 where
  passes : JwtPayload → Checked
  answers : (message : String) → Checked

module _ (verify_access : String → Result JwtPayload) where
  abbrev checked_token : Result JwtPayload → Checked
  checked_token (ok payload) = passes payload
  checked_token (thrown e) = answers "Invalid or expired token"

  abbrev checked_header : Option String → Checked
  checked_header none = answers "Missing or invalid authorization header"
  checked_header (some token) = checked_token (verify_access token)

  -- The empty header has no such prefix either.
  unfoldable pub auth_middleware : Option String → Checked
  auth_middleware none = answers "Missing or invalid authorization header"
  auth_middleware (some header) = checked_header (after "Bearer " header)

abbrev pub role_name : UserRole → String
role_name admin = "ADMIN"
role_name user = "USER"
role_name guest = "GUEST"

-- `allowedRoles.includes(role)`
abbrev pub includes : UserRole → List UserRole → Bool
includes role [] = false
includes role (allowed ∷ roles) = (role_name allowed == role_name role) || includes role roles

abbrev join_roles : List UserRole → String
join_roles [] = ""
join_roles (r ∷ []) = role_name r
join_roles (r ∷ (q ∷ rs)) = join (role_name r) (join ", " (join_roles (q ∷ rs)))

unfoldable pub require_role : List UserRole → Option JwtPayload → Result (Unit {0})
require_role allowed none = thrown (app (forbidden "User not authenticated"))
require_role allowed (some payload) =
    if includes payload.role allowed
    then ok tt
    else thrown (app (forbidden (join "Access denied. Required roles: " (join_roles allowed))))

-- The hooks of an administrator's route, one after the other: who the handler serves, or nobody.
abbrev pub served_if : JwtPayload → Result (Unit {0}) → Option JwtPayload
served_if payload (ok tt) = some payload
served_if payload (thrown e) = none

abbrev pub served_by : List UserRole → Checked → Option JwtPayload
served_by allowed (passes payload) = served_if payload (require_role allowed (some payload))
served_by allowed (answers message) = none

head_or : Char → String → Char
head_or c String.[] = c
head_or c (String.◌∷◌ d s) = d

after-prefixed : (p s : String) → after p (prefixed p s) ≡ some s
after-prefixed String.[] s = refl
after-prefixed (String.◌∷◌ c p) s = rw eq_refl (after-prefixed p s)

prefixed-after : (p s r : String) → after p s ≡ some r → s ≡ prefixed p r
unfolding head_or
prefixed-after String.[] s r h = cc
prefixed-after (String.◌∷◌ c p) String.[] r h = absurd (cc)
prefixed-after (String.◌∷◌ c p) (String.◌∷◌ d s) r h =
    elim (Bool-cases (String.◌∷◌ c String.[] == String.◌∷◌ d String.[])) [
      | inl same ↦
          let heads : c ≡ d =
            ap (head_or c) ((eq_iff (String.◌∷◌ c String.[]) (String.◌∷◌ d String.[])).0 same) in
          let tails : s ≡ prefixed p r = prefixed-after p s r (rw same at h) in
          ap (λ x. String.◌∷◌ x s) (sym heads) ∙ ap (λ t. String.◌∷◌ c t) tails
      | inr other ↦ let none_left : none ≡ some r = rw other at h in absurd (cc)
    ]

module _ (verify_access : String → Result JwtPayload) where
  -- A header that names a token which verifies, for a payload with an allowed role.
  abbrev pub Allows : List UserRole → Option String → JwtPayload → Type 0
  Allows allowed header payload =
      (token : String) × (header ≡ some (prefixed "Bearer " token))
      × (verify_access token ≡ ok payload)
      × (includes payload.role allowed ≡ true)

  role_case :
      (allowed : List UserRole) (who payload : JwtPayload)
      → served_by allowed (passes who) ≡ some payload
      → (who ≡ payload) × (includes payload.role allowed ≡ true)
  unfolding require_role
  role_case allowed who payload h = elim (Bool-cases (includes who.role allowed)) [
    | inl allows ↦
        let same : who ≡ payload = cc (rw allows at h) in
        (same, sym (ap (λ x. includes x.role allowed) same) ∙ allows)
    | inr denies ↦ let nobody : none ≡ some payload = rw denies at h in absurd (cc)
  ]

  token_case :
      (allowed : List UserRole) (payload : JwtPayload) (token : String) (r : Result JwtPayload)
      → verify_access token ≡ r
      → served_by allowed (checked_token verify_access r) ≡ some payload
      → (r ≡ ok payload) × (includes payload.role allowed ≡ true)
  token_case allowed payload token (ok who) e h =
      let (same, role) = role_case allowed who payload h in (ap ok same, role)
  token_case allowed payload token (thrown x) e h = absurd (cc)

  header_case :
      (allowed : List UserRole) (payload : JwtPayload) (header : String) (r : Option String)
      → after "Bearer " header ≡ r
      → served_by allowed (checked_header verify_access r) ≡ some payload
      → Allows allowed (some header) payload
  header_case allowed payload header none e h = absurd (cc)
  header_case allowed payload header (some token) e h =
      let (verified, role) = token_case allowed payload token (verify_access token) refl h in
      (token, ap some (prefixed-after "Bearer " header token e), verified, role)

  served-Allows :
      (allowed : List UserRole) (header : Option String) (payload : JwtPayload)
      → served_by allowed (auth_middleware verify_access header) ≡ some payload
      → Allows allowed header payload
  unfolding auth_middleware
  served-Allows allowed none payload h = absurd (cc)
  served-Allows allowed (some header) payload h =
      header_case allowed payload header (after "Bearer " header) refl h

  Allows-served :
      (allowed : List UserRole) (header : Option String) (payload : JwtPayload)
      → Allows allowed header payload
      → served_by allowed (auth_middleware verify_access header) ≡ some payload
  unfolding auth_middleware require_role
  Allows-served allowed header payload (token, e, verified, role) =
      rw e (rw verified (rw role refl))

  -- A route behind the two hooks serves a payload exactly when the header is "Bearer " and a token
  -- that verifies to that payload, whose role is one of those allowed.
  pub served_iff :
      (allowed : List UserRole) (header : Option String) (payload : JwtPayload)
      → (served_by allowed (auth_middleware verify_access header) ≡ some payload)
        ↔ Allows allowed header payload
  served_iff allowed header payload =
      (served-Allows allowed header payload, Allows-served allowed header payload)
