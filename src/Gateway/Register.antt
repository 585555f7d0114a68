-- ===== src/Gateway/Register.antt =====
-- What `register` makes, and what it leaves when it fails.
use advanced_node.Common.{
  ℕ, String, ◌≡◌, refl, ap, ◌∙◌, true, false, Option, none, some, ◌==◌, if◌then◌else◌,
}
use advanced_node.Exec.{ok, pure, query, ◌>>=◌}
use advanced_node.Exec.Ensures.{Ensures, Ensures-bind, Ensures-weaken}
use advanced_node.Exec.Focus.{Ensures-focus}
use advanced_node.Prisma.Calls.{create-Ensures}
use advanced_node.Gateway.Tables.{User, RefreshToken, UserRole, AuthProvider}
use advanced_node.Gateway.Parties.{
  Parties, State, Drawn, Session, Registration, local_user, payload_of,
}
use advanced_node.Gateway.Auth.{on_users, token_row, store_token, issue, unless_taken, register}
use advanced_node.Gateway.Calls.{
  identity, week_row, query-Ensures, user_row, token_at, NoNewToken, NoNewToken-same, find_user-Ensures, Stored,
  store_token-Stored,
}

module _ (p : Parties) where
  -- The session is the account's, and its refresh token is stored.
  pub record Issued (drawn : Drawn) (now : ℕ) (u : User) (s : State p) (r : Session) (s' : State p)
      : Type 0 where
    pub whose : r.user ≡ u
    pub signed : p.sign_access (identity u) ≡ ok r.access_token
    pub stored : Stored p drawn now u r.refresh_token s s'

  pub issue-Issued :
      (drawn : Drawn) (now : ℕ) (u : User) (s : State p)
      → Ensures
          (λ r s'. Issued drawn now u s r s')
          (λ _ s'. NoNewToken p s s')
          (issue p drawn now u s)
  unfolding issue
  issue-Issued drawn now u s =
      Ensures-bind (query (λ _. p.sign_access (payload_of u))) _ s
        (Ensures-weaken _ (query-Ensures (p.sign_access (payload_of u)) s) (λ _ s1 h. h)
          (λ _ s1 same. NoNewToken-same p s s1 same))
        λ access s1 (signed, same). rw same (
          Ensures-bind (query (λ _. p.sign_refresh drawn.jti (payload_of u))) _ s
            (Ensures-weaken _ (query-Ensures (p.sign_refresh drawn.jti (payload_of u)) s)
              (λ _ s1 h. h) (λ _ s1 same. NoNewToken-same p s s1 same))
            λ token s2 (signed2, same2). rw same2 (
              Ensures-bind (store_token p drawn now u token)
                (λ _. pure (record { user = u; access_token = access; refresh_token = token })) s
                (store_token-Stored p drawn now u token s)
                λ _ s3 stored. record {
                  holds = record { whose = refl; signed = signed; stored = stored };
                }))

  -- No other account and no OAuth state differs, and there is no new token.
  pub record OnlyAccount (email : String) (s s' : State p) : Type 0 where
    pub others : (j : String) → (email == j) ≡ false → user_row p s' j ≡ user_row p s j
    pub states : s'.states ≡ s.states
    pub none_new :
        (j : String) (t : RefreshToken) → token_at p s' j ≡ some t → token_at p s j ≡ some t

  OnlyAccount-same : (email : String) (s s' : State p) → s' ≡ s → OnlyAccount email s s'
  OnlyAccount-same email s s' e =
      rw e (record { others = λ j ne. refl; states = refl; none_new = λ j t h. h })

  -- The row that a registration is to make.
  abbrev pub new_account : Drawn → Registration → String → User
  new_account drawn body hash = record {
    id = drawn.user_id;
    email = body.email;
    password_hash = some hash;
    first_name = body.first_name;
    last_name = body.last_name;
    role = UserRole.user;
    provider = AuthProvider.local;
    provider_id = none;
    email_verified = false;
    is_active = true;
  }

  abbrev pub Registered : Drawn → ℕ → Registration → State p → Session → State p → Type 0
  Registered drawn now body s r s' =
      (hash : String) × (p.hash_password body.password ≡ ok hash)
      × (user_row p s body.email ≡ none)
      × (p.sign_access (identity r.user) ≡ ok r.access_token)
      × (r.user ≡ new_account drawn body hash)
      × ((j : String)
          → user_row p s' j
            ≡ (if body.email == j then some (new_account drawn body hash) else user_row p s j))
      × (token_at p s' r.refresh_token
          ≡ some (week_row drawn now (new_account drawn body hash) r.refresh_token))
      × ((j : String) → (r.refresh_token == j) ≡ false → token_at p s' j ≡ token_at p s j)

  created_case :
      (drawn : Drawn) (now : ℕ) (body : Registration) (hash : String) (s : State p)
      → p.hash_password body.password ≡ ok hash
      → Ensures
          (Registered drawn now body s)
          (λ _ s'. OnlyAccount body.email s s')
          ((do
            u ← on_users p (p.users.table.create (local_user drawn body hash))
            issue p drawn now u)
            s)
  created_case drawn now body hash s hashed =
      let new = local_user drawn body hash in
      Ensures-bind (on_users p (p.users.table.create new)) (issue p drawn now) s
        (Ensures-weaken _
          (Ensures-focus (λ s. s.users) (λ db s. record s { users = db }) (p.users.table.create new)
            s (create-Ensures p.users.table new s.users))
          (λ u s1 h. h)
          (λ e s1 (db, same, failure).
            rw same
              (record { others = λ j ne. failure.1 j; states = refl; none_new = λ j t h. h })))
        λ u s1 (db, same, (fresh, made, rows)). rw same (
          rw made (
            Ensures-weaken _ (issue-Issued drawn now new (record s { users = db }))
              (λ r s2 h. (
                hash,
                hashed,
                fresh,
                ap (λ x. p.sign_access (identity x)) h.whose ∙ h.signed,
                h.whose,
                (λ j. ap (λ db. p.users.table.row db j) h.stored.users ∙ rows j),
                h.stored.row,
                h.stored.others,
              ))
              (λ _ s2 h. record {
                others = λ j ne. ap (λ db. p.users.table.row db j) h.users ∙ (rw ne at (rows j));
                states = h.states;
                none_new = h.none_new;
              })))

  -- `register` returns only if the e-mail had no account: there is one now, active, with the
  -- role USER, the names given and the hash of the password, and not verified. The access token names
  -- its identifier, e-mail and role, and the refresh token is stored for it and a week; no other
  -- account or token differs. When it throws, no other account differs and there is no new token.
  pub register-Registered :
      (drawn : Drawn) (now : ℕ) (body : Registration) (s : State p)
      → Ensures
          (Registered drawn now body s)
          (λ _ s'. OnlyAccount body.email s s')
          (register p drawn now body s)
  unfolding register
  register-Registered drawn now body s =
      Ensures-bind (on_users p (query (p.users.table.find_unique body.email))) _ s
        (Ensures-weaken _ (find_user-Ensures p body.email s) (λ _ s1 h. h)
          (λ _ s1 same. OnlyAccount-same body.email s s1 same))
        λ existing s1 (found, same1). rw same1 (
          Ensures-bind (unless_taken p existing) _ s (free existing) λ _ s2 same2. rw same2 (
            Ensures-bind (query (λ _. p.hash_password body.password)) _ s
              (Ensures-weaken _ (query-Ensures (p.hash_password body.password) s) (λ _ s1 h. h)
                (λ _ s1 same. OnlyAccount-same body.email s s1 same))
              λ hash s3 (hashed, same3). rw same3 (created_case drawn now body hash s hashed)))
    where
      free :
          (r : Option User)
          → Ensures (λ _ s'. s' ≡ s) (λ _ s'. OnlyAccount body.email s s') (unless_taken p r s)
      free none = record { holds = refl }
      free (some u) = record { holds = OnlyAccount-same body.email s s refl }
