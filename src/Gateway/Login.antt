-- ===== src/Gateway/Login.antt =====
-- Who gets a session from `log_in`, and what a failed login leaves.
use advanced_node.Common.{
  ℕ, String, ◌≡◌, refl, sym, ◌∙◌, Bool, true, false, Option, none, some, ◌==◌,
}
use advanced_node.Exec.{ok, pure, throw, query, ◌>>=◌}
use advanced_node.Exec.Ensures.{Ensures, Ensures-bind, Ensures-if, Ensures-weaken}
use advanced_node.Gateway.Tables.{User, kept}
use advanced_node.Gateway.Parties.{Parties, State, Drawn, Session, truthy, payload_of, disabled}
use advanced_node.Gateway.Auth.{
  on_users, on_tokens, token_row, store_token, expired_of, start_session, admit, check_password,
  log_in_found, log_in,
}
use advanced_node.Gateway.Calls.{
  identity, week_row, has_lapsed, IsGiven, truthy-IsGiven, query-Ensures, user_row, token_at, NoNewToken, NoNewToken-refl, NoNewToken-same, NoNewToken-trans,
  find_user-Ensures, store_token-Stored, Swept, sweep-Swept, Swept-NoNewToken,
}

module _ (p : Parties) where
  -- The session is the account's; its refresh token is stored for a week, the account's expired ones
  -- are gone, and nothing else differs.
  pub record Started (drawn : Drawn) (now : ℕ) (u : User) (s : State p) (r : Session) (s' : State p)
      : Type 0 where
    pub whose : r.user ≡ u
    pub signed : p.sign_access (identity u) ≡ ok r.access_token
    pub users : s'.users ≡ s.users
    pub states : s'.states ≡ s.states
    pub row : token_at p s' r.refresh_token ≡ some (week_row drawn now u r.refresh_token)
    pub others :
        (j : String)
        → (r.refresh_token == j) ≡ false
        → token_at p s' j ≡ kept (has_lapsed u now) (token_at p s j)

  store-Started :
      (drawn : Drawn) (now : ℕ) (u : User) (access token : String) (s s1 : State p)
      → p.sign_access (payload_of u) ≡ ok access
      → Swept p (expired_of p u now) s s1
      → Ensures
          (λ r s'. Started drawn now u s r s')
          (λ _ s'. NoNewToken p s s')
          ((do
            _ ← store_token p drawn now u token
            pure (record { user = u; access_token = access; refresh_token = token }))
            s1)
  store-Started drawn now u access token s s1 signed swept =
      Ensures-bind (store_token p drawn now u token)
        (λ _. pure (record { user = u; access_token = access; refresh_token = token })) s1
        (Ensures-weaken _ (store_token-Stored p drawn now u token s1) (λ _ s2 h. h)
          (λ _ s2 h. NoNewToken-trans p s s1 s2 (Swept-NoNewToken p _ s s1 swept) h))
        λ _ s2 stored. record {
          holds = record {
            whose = refl;
            signed = signed;
            users = stored.users ∙ swept.users;
            states = stored.states ∙ swept.states;
            row = stored.row;
            others = λ j ne. stored.others j ne ∙ swept.rows j;
          };
        }

  start_session-Started :
      (drawn : Drawn) (now : ℕ) (u : User) (s : State p)
      → Ensures
          (λ r s'. Started drawn now u s r s')
          (λ _ s'. NoNewToken p s s')
          (start_session p drawn now u s)
  unfolding start_session
  start_session-Started drawn now u s =
      Ensures-bind (query (λ _. p.sign_access (payload_of u))) _ s
        (Ensures-weaken _ (query-Ensures (p.sign_access (payload_of u)) s) (λ _ s1 h. h)
          (λ _ s1 same. NoNewToken-same p s s1 same))
        λ access s1 (signed, same). rw same (
          Ensures-bind (query (λ _. p.sign_refresh drawn.jti (payload_of u))) _ s
            (Ensures-weaken _ (query-Ensures (p.sign_refresh drawn.jti (payload_of u)) s)
              (λ _ s1 h. h) (λ _ s1 same. NoNewToken-same p s s1 same))
            λ token s2 (signed2, same2). rw same2 (
              Ensures-bind (on_tokens p (p.tokens.delete_many (expired_of p u now))) _ s
                (sweep-Swept p (expired_of p u now) s)
                λ _ s3 swept. store-Started drawn now u access token s s3 signed swept))

  abbrev pub Admitted : Drawn → ℕ → (email password : String) → State p → Session → State p → Type 0
  Admitted drawn now email password s r s' =
      (u : User) × (hash : String) × (user_row p s email ≡ some u)
      × IsGiven u.password_hash hash
      × (p.verify_password hash password ≡ ok true)
      × (u.is_active ≡ true)
      × Started drawn now u s r s'

  admit-Admitted :
      (drawn : Drawn) (now : ℕ) (email password hash : String) (u : User) (valid : Bool)
      (s : State p)
      → user_row p s email ≡ some u
      → truthy u.password_hash ≡ some hash
      → p.verify_password hash password ≡ ok valid
      → Ensures
          (Admitted drawn now email password s)
          (λ _ s'. NoNewToken p s s')
          (admit p drawn now u valid s)
  admit-Admitted drawn now email password hash u false s there hashed valid = record {
    holds = NoNewToken-refl p s;
  }
  admit-Admitted drawn now email password hash u true s there hashed valid =
      Ensures-if u.is_active (start_session p drawn now u) (throw disabled) s
        (λ active.
          Ensures-weaken _ (start_session-Started drawn now u s)
            (λ r s' started. (u, hash, there, truthy-IsGiven u.password_hash hash hashed, valid, active, started)) (λ _ s' h. h))
        (λ _. record { holds = NoNewToken-refl p s })

  -- `log_in` returns a session only for the account that the e-mail names, if that is active and has
  -- a password that the given one matches; the access token names the account's identifier, e-mail and
  -- role. Then the refresh token is stored for that account and a week, the account's own expired
  -- tokens are gone, and no other token, no account and no OAuth state differs. When it throws, no account and no OAuth state
  -- differs and there is no new token.
  pub log_in-Admitted :
      (drawn : Drawn) (now : ℕ) (email password : String) (s : State p)
      → Ensures
          (Admitted drawn now email password s)
          (λ _ s'. NoNewToken p s s')
          (log_in p drawn now email password s)
  unfolding log_in
  log_in-Admitted drawn now email password s =
      Ensures-bind (on_users p (query (p.users.table.find_unique email))) _ s
        (Ensures-weaken _ (find_user-Ensures p email s) (λ _ s1 h. h)
          (λ _ s1 same. NoNewToken-same p s s1 same))
        λ found s1 (at_email, same). rw same (found_case found (sym at_email))
    where
      checked :
          (u : User) (h : Option String)
          → user_row p s email ≡ some u
          → truthy u.password_hash ≡ h
          → Ensures
              (Admitted drawn now email password s)
              (λ _ s'. NoNewToken p s s')
              (check_password p drawn now password u h s)
      checked u none there hashed = record { holds = NoNewToken-refl p s }
      checked u (some hash) there hashed =
          Ensures-bind (query (λ _. p.verify_password hash password)) (admit p drawn now u) s
            (Ensures-weaken _ (query-Ensures (p.verify_password hash password) s) (λ _ s1 h. h)
              (λ _ s1 same. NoNewToken-same p s s1 same))
            λ valid s1 (verified, same).
              rw same (admit-Admitted drawn now email password hash u valid s there hashed verified)

      found_case :
          (r : Option User)
          → user_row p s email ≡ r
          → Ensures
              (Admitted drawn now email password s)
              (λ _ s'. NoNewToken p s s')
              (log_in_found p drawn now password r s)
      found_case none there = record { holds = NoNewToken-refl p s }
      found_case (some u) there = checked u (truthy u.password_hash) there refl
