-- ===== src/Gateway/Routes.antt =====
-- The handlers of src/services/api-gateway/routes/v1/auth.routes.ts: their `try` and `catch` blocks
-- and their replies. What the schema makes of a body is an argument; a redirect is a reply without a
-- body.
use advanced_node.Common.{ℕ, String, Bool, ◌||◌, Option, none}
use advanced_node.Exec.{Exec, Result, pure, query, ◌>>=◌}
use advanced_node.Shared.Errors.{Exception, is_bad_request, is_unauthorized, is_conflict}
use advanced_node.Shared.Reply.{Reply, decorate_reply, send_ok, send_created}
use advanced_node.Shared.AddErrorHelper.{ErrorEntry, App, lift}
use advanced_node.Shared.Catch.{success, guarded}
use advanced_node.Gateway.Parties.{Parties, State, Drawn, Session, Redirect, Registration}
use advanced_node.Gateway.Auth
use advanced_node.Gateway.Auth.{callback_given}

pub record Credentials : Type 0 where
  pub email : String
  pub password : String

pub data Content : Type 0 where
  session : Session → Content
  access : String → Content
  redirect : Redirect → Content

abbrev pub registered_reply : Session → Reply Content
registered_reply r =
    decorate_reply send_created (success "User registered successfully" (session r))

abbrev pub login_reply : Session → Reply Content
login_reply r = decorate_reply send_ok (success "Login successful" (session r))

abbrev pub refreshed_reply : String → Reply Content
refreshed_reply token =
    decorate_reply send_ok (success "Token refreshed successfully" (access token))

abbrev pub linked_reply : Session → Reply Content
linked_reply r = decorate_reply send_ok (success "OAuth login successful" (session r))

-- `reply.redirect(url)`
abbrev pub redirect_reply : Redirect → Reply Content
redirect_reply r = record { status_code = 302; body = none }

abbrev pub register_rethrows : Exception → Bool
register_rethrows e = is_conflict e || is_bad_request e

abbrev pub refresh_rethrows : Exception → Bool
refresh_rethrows e = is_unauthorized e || is_bad_request e

pub data Request : Type 0 where
  register : Drawn → ℕ → Result Registration → Request
  log_in : Drawn → ℕ → Result Credentials → Request
  refresh : ℕ → Result String → Request
  google_start : (state : String) → ℕ → Request
  google_callback : Drawn → ℕ → (code state : Option String) → Request

module _ (p : Parties) (stores : ErrorEntry → Bool) where
  unfoldable pub register_route :
      Drawn → ℕ → Result Registration → Exec (App (State p)) (Reply Content)
  unfolding Auth.register
  register_route drawn now parsed =
      guarded stores "AuthRoutes.register" "Registration failed" register_rethrows do
        body ← query (λ _. parsed)
        r ← lift (Auth.register p drawn now body)
        pure (registered_reply r)

  unfoldable pub login_route : Drawn → ℕ → Result Credentials → Exec (App (State p)) (Reply Content)
  unfolding Auth.log_in
  login_route drawn now parsed = guarded stores "AuthRoutes.login" "Login failed" is_unauthorized do
    body ← query (λ _. parsed)
    r ← lift (Auth.log_in p drawn now body.email body.password)
    pure (login_reply r)

  unfoldable pub refresh_route : ℕ → Result String → Exec (App (State p)) (Reply Content)
  unfolding Auth.refresh
  refresh_route now parsed =
      guarded stores "AuthRoutes.refresh" "Token refresh failed" refresh_rethrows do
        token ← query (λ _. parsed)
        renewed ← lift (Auth.refresh p now token)
        pure (refreshed_reply renewed)

  unfoldable pub google_route : String → ℕ → Exec (App (State p)) (Reply Content)
  unfolding Auth.google_start
  google_route state now = do r ← lift (Auth.google_start p state now); pure (redirect_reply r)

  unfoldable pub callback_route :
      Drawn → ℕ → (code state : Option String) → Exec (App (State p)) (Reply Content)
  unfolding Auth.google_callback
  callback_route drawn now code state = do
    r ← lift (Auth.google_callback p drawn now code state)
    pure (linked_reply r)

  unfoldable pub handle : Request → Exec (App (State p)) (Reply Content)
  handle (register drawn now parsed) = register_route drawn now parsed
  handle (log_in drawn now parsed) = login_route drawn now parsed
  handle (refresh now parsed) = refresh_route now parsed
  handle (google_start state now) = google_route state now
  handle (google_callback drawn now code state) = callback_route drawn now code state
