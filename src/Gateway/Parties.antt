-- ===== src/Gateway/Parties.antt =====
-- What src/services/api-gateway/routes/v1/auth.routes.ts reads and writes: who it trusts for tokens,
-- passwords and Google's endpoints, its state, and the rows and texts that its routes make.
use advanced_node.Common.{
  ℕ, String, Bool, true, false, not, ◌||◌, Option, none, some, List, [], ◌∷◌, ltb, nat_eq, ◌==◌,
  if◌then◌else◌,
}
use advanced_node.Exec.{Result, ok, thrown}
use advanced_node.Shared.Errors.{Exception, app, bad_request, unauthorized}
use advanced_node.Gateway.Tables.{User, UserRole, Users, Tokens, user, local, google}

pub record JwtPayload : Type 0 where
  pub user_id : String
  pub email : String
  pub role : UserRole

pub record Profile : Type 0 where
  pub sub : Option String
  pub email : Option String
  pub given_name : Option String
  pub family_name : Option String

-- What the routes trust: jsonwebtoken, argon2, Google, and the environment.
pub record Parties : Type 1 where
  pub users : Users
  pub tokens : Tokens
  pub sign_access : JwtPayload → Result String
  -- The first argument is the token's `jti`.
  pub sign_refresh : String → JwtPayload → Result String
  pub verify_refresh : String → Result JwtPayload
  pub hash_password : String → Result String
  pub verify_password : (hash password : String) → Result Bool
  pub exchange : (code : String) → Result (Option String)
  pub profile : (token : String) → Result Profile
  pub client_id : Option String
  pub client_secret : Option String
  pub callback_url : Option String

pub record State (p : Parties) : Type 0 where
  pub users : p.users.table.Db
  pub tokens : p.tokens.table.Db
  -- `oauthStateStore`
  pub states : List (String × ℕ)

pub record Drawn : Type 0 where
  pub user_id : String
  pub token_id : String
  pub jti : String

pub record Session : Type 0 where
  pub user : User
  pub access_token : String
  pub refresh_token : String

pub record Redirect : Type 0 where
  pub client_id : String
  pub redirect_uri : String
  pub state : String

abbrev pub oauth_state_ttl_ms : ℕ
oauth_state_ttl_ms = 600000

abbrev pub week : ℕ
week = 604800000

-- A text that is there and not empty.
abbrev pub truthy : Option String → Option String
truthy none = none
truthy (some s) = if s == "" then none else some s

abbrev pub find_state : String → List (String × ℕ) → Option ℕ
find_state k [] = none
find_state k ((j, n) ∷ xs) = if j == k then some n else find_state k xs

abbrev pub delete_state : String → List (String × ℕ) → List (String × ℕ)
delete_state k [] = []
delete_state k ((j, n) ∷ xs) =
    let rest = delete_state k xs in if j == k then rest else (j, n) ∷ rest

abbrev pub set_state : String → ℕ → List (String × ℕ) → List (String × ℕ)
set_state k n [] = (k, n) ∷ []
set_state k n ((j, m) ∷ xs) =
    let rest = set_state k n xs in if j == k then (k, n) ∷ xs else (j, m) ∷ rest

-- `!(!expiresAt || expiresAt < Date.now())`
abbrev pub is_live : ℕ → Option ℕ → Bool
is_live now none = false
is_live now (some n) = not (nat_eq n 0 || ltb n now)

abbrev pub payload_of : User → JwtPayload
payload_of u = record { user_id = u.id; email = u.email; role = u.role }

-- The `update` of `upsert`: an absent name leaves the column alone.
abbrev pub or_old : Option String → Option String → Option String
or_old none old = old
or_old (some n) old = some n

abbrev pub linked : String → Profile → User → User
linked sub profile u = record u {
  provider = google;
  provider_id = some sub;
  email_verified = true;
  first_name = or_old profile.given_name u.first_name;
  last_name = or_old profile.family_name u.last_name;
  is_active = true;
}

abbrev pub google_user : Drawn → String → String → Profile → User
google_user drawn sub email profile = record {
  id = drawn.user_id;
  email = email;
  password_hash = none;
  first_name = profile.given_name;
  last_name = profile.family_name;
  role = user;
  provider = google;
  provider_id = some sub;
  email_verified = true;
  is_active = true;
}

pub record Registration : Type 0 where
  pub email : String
  pub password : String
  pub first_name : Option String
  pub last_name : Option String

abbrev pub local_user : Drawn → Registration → String → User
local_user drawn body hash = record {
  id = drawn.user_id;
  email = body.email;
  password_hash = some hash;
  first_name = body.first_name;
  last_name = body.last_name;
  role = user;
  provider = local;
  provider_id = none;
  email_verified = false;
  is_active = true;
}

abbrev pub invalid_credentials : Exception
invalid_credentials = app (unauthorized "Invalid credentials")

abbrev pub disabled : Exception
disabled = app (unauthorized "Account is disabled")

abbrev pub invalid_refresh : Exception
invalid_refresh = app (unauthorized "Invalid or expired refresh token")

abbrev pub invalid_state : Exception
invalid_state = app (bad_request "Invalid or expired OAuth state")

abbrev pub not_configured : Exception
not_configured = app (bad_request "Google OAuth is not configured")

-- `catch { throw new UnauthorizedError(…) }` around `verifyRefreshToken`
abbrev pub or_invalid : Result JwtPayload → Result JwtPayload
or_invalid (ok payload) = ok payload
or_invalid (thrown e) = thrown invalid_refresh
