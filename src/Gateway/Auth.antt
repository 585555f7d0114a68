-- ===== src/Gateway/Auth.antt =====
-- src/services/api-gateway/routes/v1/auth.routes.ts: accounts and tokens. Signing and checking
-- tokens, hashing passwords and Google's two endpoints are parameters; what is drawn at random and
-- the time are arguments. A route's `try` block and its handler stand apart; the two routes of
-- Google have no `try` block.
use advanced_node.Common.{
  ℕ, ◌+◌, String, Bool, true, false, ◌&&◌, Option, none, some, ltb, ◌==◌, if◌then◌else◌,
}
use advanced_node.Exec.{Exec, ok, thrown, pure, throw, query, ◌>>=◌}
use advanced_node.Exec.Focus.{focus}
use advanced_node.Shared.Errors.{app, bad_request, unauthorized, conflict}
use advanced_node.Gateway.Parties.{
  Profile, Parties, State, Drawn, Session, Redirect, oauth_state_ttl_ms, week, truthy, find_state,
  delete_state, set_state, is_live, payload_of, linked, google_user, Registration, local_user,
  invalid_credentials, disabled, invalid_refresh, invalid_state, not_configured, or_invalid,
}
use advanced_node.Gateway.Tables.{User, RefreshToken}

module _ (p : Parties) where
  abbrev pub on_users : {A : Type 0} → Exec p.users.table.Db A → Exec (State p) A
  on_users = focus (λ s. s.users) (λ db s. record s { users = db })

  abbrev pub on_tokens : {A : Type 0} → Exec p.tokens.table.Db A → Exec (State p) A
  on_tokens = focus (λ s. s.tokens) (λ db s. record s { tokens = db })

  abbrev pub token_row : Drawn → ℕ → User → String → RefreshToken
  token_row drawn now u token = record {
    id = drawn.token_id;
    token = token;
    user_id = u.id;
    expires_at = now + week;
  }

  abbrev pub store_token : Drawn → ℕ → User → String → Exec (State p) RefreshToken
  store_token drawn now u token = on_tokens (p.tokens.table.create (token_row drawn now u token))

  -- The end of `register` and of the callback.
  unfoldable pub issue : Drawn → ℕ → User → Exec (State p) Session
  issue drawn now u = do
    access ← query (λ _. p.sign_access (payload_of u))
    refresh ← query (λ _. p.sign_refresh drawn.jti (payload_of u))
    _ ← store_token drawn now u refresh
    pure (record { user = u; access_token = access; refresh_token = refresh })

  abbrev pub unless_taken : Option User → Exec (State p) (Unit {0})
  unless_taken none = pure tt
  unless_taken (some u) = throw (app (conflict "Email already registered"))

  unfoldable pub register : Drawn → ℕ → Registration → Exec (State p) Session
  unfolding issue
  register drawn now body = do
    existing ← on_users (query (p.users.table.find_unique body.email))
    _ ← unless_taken existing
    hash ← query (λ _. p.hash_password body.password)
    u ← on_users (p.users.table.create (local_user drawn body hash))
    issue drawn now u

  abbrev pub expired_of : User → ℕ → RefreshToken → Bool
  expired_of u now t = (t.user_id == u.id) && ltb t.expires_at now

  unfoldable pub start_session : Drawn → ℕ → User → Exec (State p) Session
  start_session drawn now u = do
    access ← query (λ _. p.sign_access (payload_of u))
    refresh ← query (λ _. p.sign_refresh drawn.jti (payload_of u))
    _ ← on_tokens (p.tokens.delete_many (expired_of u now))
    _ ← store_token drawn now u refresh
    pure (record { user = u; access_token = access; refresh_token = refresh })

  abbrev pub admit : Drawn → ℕ → User → Bool → Exec (State p) Session
  admit drawn now u false = throw invalid_credentials
  admit drawn now u true = if u.is_active then start_session drawn now u else throw disabled

  abbrev pub check_password : Drawn → ℕ → String → User → Option String → Exec (State p) Session
  check_password drawn now password u none = throw invalid_credentials
  check_password drawn now password u (some hash) = do
    valid ← query (λ _. p.verify_password hash password)
    admit drawn now u valid

  abbrev pub log_in_found : Drawn → ℕ → String → Option User → Exec (State p) Session
  log_in_found drawn now password none = throw invalid_credentials
  log_in_found drawn now password (some u) =
      check_password drawn now password u (truthy u.password_hash)

  unfoldable pub log_in : Drawn → ℕ → (email password : String) → Exec (State p) Session
  unfolding start_session
  log_in drawn now email password = do
    found ← on_users (query (p.users.table.find_unique email))
    log_in_found drawn now password found

  abbrev pub check_stored : ℕ → Option RefreshToken → Exec (State p) (Unit {0})
  check_stored now none = throw invalid_refresh
  check_stored now (some t) = if ltb t.expires_at now then throw invalid_refresh else pure tt

  abbrev pub refresh_for : Option User → Exec (State p) String
  refresh_for none = throw (app (unauthorized "User not found or inactive"))
  refresh_for (some u) =
      if u.is_active
      then query (λ _. p.sign_access (payload_of u))
      else throw (app (unauthorized "User not found or inactive"))

  unfoldable pub refresh : ℕ → String → Exec (State p) String
  refresh now token = do
    payload ← query (λ _. or_invalid (p.verify_refresh token))
    stored ← on_tokens (query (p.tokens.table.find_unique token))
    _ ← check_stored now stored
    found ← on_users (query (p.users.find_by_id payload.user_id))
    refresh_for found

  abbrev pub start_with : String → ℕ → Option String → Option String → Exec (State p) Redirect
  start_with state now (some id) (some url) s = (
    ok (record { client_id = id; redirect_uri = url; state = state }),
    record s { states = set_state state (now + oauth_state_ttl_ms) s.states },
  )
  start_with state now _ _ s = (thrown not_configured, s)

  unfoldable pub google_start : String → ℕ → Exec (State p) Redirect
  google_start state now = start_with state now (truthy p.client_id) (truthy p.callback_url)

  abbrev pub with_account :
      Drawn → ℕ → Profile → Option String → Option String → Exec (State p) Session
  with_account drawn now profile (some sub) (some email) = do
    u ← on_users (p.users.upsert email (linked sub profile) (google_user drawn sub email profile))
    issue drawn now u
  with_account drawn now profile _ _ = throw (app (unauthorized "Google profile missing sub/email"))

  abbrev pub with_google_token : Drawn → ℕ → Option String → Exec (State p) Session
  with_google_token drawn now none =
      throw (app (unauthorized "Failed to obtain Google access token"))
  with_google_token drawn now (some token) = do
    profile ← query (λ _. p.profile token)
    with_account drawn now profile (truthy profile.sub) (truthy profile.email)

  abbrev pub exchange_code :
      Drawn → ℕ → String → Option String → Option String → Option String → Exec (State p) Session
  exchange_code drawn now code (some id) (some secret) (some url) = do
    token ← query (λ _. p.exchange code)
    with_google_token drawn now (truthy token)
  exchange_code drawn now code _ _ _ = throw not_configured

  -- `get`, then `delete`.
  abbrev pub take_state : String → Exec (State p) (Option ℕ)
  take_state state s =
      (ok (find_state state s.states), record s { states = delete_state state s.states })

  unfoldable pub callback_with : Drawn → ℕ → (code state : String) → Exec (State p) Session
  unfolding issue
  callback_with drawn now code state = do
    expires ← take_state state
    if is_live now expires
        then exchange_code drawn now code (truthy p.client_id) (truthy p.client_secret)
            (truthy p.callback_url)
        else throw invalid_state

  abbrev pub callback_given : Drawn → ℕ → Option String → Option String → Exec (State p) Session
  callback_given drawn now (some code) (some state) = callback_with drawn now code state
  callback_given drawn now _ _ = throw (app (bad_request "Missing OAuth code/state"))

  unfoldable pub google_callback : Drawn → ℕ → (code state : Option String) → Exec (State p) Session
  unfolding callback_with
  google_callback drawn now code state = callback_given drawn now (truthy code) (truthy state)
