-- ===== src/Gateway/Refresh.antt =====
-- Who gets a new access token from `refresh`.
use advanced_node.Common.{ℕ, String, ◌≡◌, refl, sym, ap, ◌∙◌, true, false, Option, none, some, ltb}
use advanced_node.Exec.{Result, ok, thrown, pure, throw, query}
use advanced_node.Exec.Ensures.{Ensures, Ensures-bind, Ensures-if, Ensures-weaken, Outcome}
use advanced_node.Shared.Errors.{app, unauthorized}
use advanced_node.Gateway.Tables.{User, RefreshToken}
use advanced_node.Gateway.Parties.{
  Parties, State, JwtPayload, payload_of, invalid_refresh, or_invalid,
}
use advanced_node.Gateway.Auth.{on_users, on_tokens, check_stored, refresh_for, refresh}
use advanced_node.Gateway.Calls.{query-Ensures, identity, user_row, token_at, find_token-Ensures}

module _ (p : Parties) where
  -- The token was signed by the gateway, is stored and has not expired; the account it names is a
  -- row of the table and active, and the access token is signed with what the account is now. Nothing differs.
  abbrev pub Renewed : ℕ → String → State p → String → State p → Type 0
  Renewed now token s access s' =
      (payload : JwtPayload) × (t : RefreshToken) × (u : User) × (p.verify_refresh token
        ≡ ok payload)
      × (token_at p s token ≡ some t)
      × (ltb t.expires_at now ≡ false)
      × (u.id ≡ payload.user_id)
      × (user_row p s u.email ≡ some u)
      × (u.is_active ≡ true)
      × (p.sign_access (identity u) ≡ ok access)
      × (s' ≡ s)

  verified :
      (r : Result JwtPayload) (payload : JwtPayload) → or_invalid r ≡ ok payload → r ≡ ok payload
  verified (ok x) payload e = e
  verified (thrown x) payload e = absurd (cc)

  -- What was found is the row of an account with that identifier.
  abbrev Named : String → State p → Option User → Type 0
  Named id s r = (u : User) → r ≡ some u → (u.id ≡ id) × (user_row p s u.email ≡ some u)

  find_account :
      (id : String) (s : State p)
      → Ensures
          (λ r s'. Named id s r × (s' ≡ s))
          (λ e s'. s' ≡ s)
          (on_users p (query (p.users.find_by_id id)) s)
  find_account id s = record { holds = go (p.users.find_by_id id s.users) refl }
    where
      go :
          (r : Result (Option User))
          → p.users.find_by_id id s.users ≡ r
          → Outcome (λ r s'. Named id s r × (s' ≡ s)) (λ e s'. s' ≡ s) r s
      go (ok none) e = ((λ u h. absurd (cc)), refl)
      go (ok (some v)) e = (
        (λ u h.
            let same : v ≡ u = cc in
            let (by_id, row) = p.users.find_by_id_done id s.users e in
            (ap (λ x. x.id) (sym same) ∙ by_id, rw same at row)),
        refl,
      )
      go (thrown x) e = refl

  stored_case :
      (now : ℕ) (r : Option RefreshToken) (s : State p)
      → Ensures
          (λ _ s'. (t : RefreshToken) × (r ≡ some t) × (ltb t.expires_at now ≡ false) × (s' ≡ s))
          (λ _ s'. s' ≡ s)
          (check_stored p now r s)
  stored_case now none s = record { holds = refl }
  stored_case now (some t) s =
      Ensures-if (ltb t.expires_at now) (throw invalid_refresh) (pure tt) s
        (λ _. record { holds = refl }) (λ live. record { holds = (t, refl, live, refl) })

  account_case :
      (now : ℕ) (token : String) (payload : JwtPayload) (t : RefreshToken) (r : Option User)
      (s : State p)
      → p.verify_refresh token ≡ ok payload
      → token_at p s token ≡ some t
      → ltb t.expires_at now ≡ false
      → Named payload.user_id s r
      → Ensures (Renewed now token s) (λ _ s'. s' ≡ s) (refresh_for p r s)
  account_case now token payload t none s signed there live same_id = record { holds = refl }
  account_case now token payload t (some u) s signed there live same_id =
      Ensures-if u.is_active (query (λ _. p.sign_access (payload_of u)))
        (throw (app (unauthorized "User not found or inactive"))) s
        (λ active.
          Ensures-weaken _ (query-Ensures (p.sign_access (payload_of u)) s)
            (λ access s' (e, same).
              
                let (by_id, row) = same_id u refl in
                (payload, t, u, signed, there, live, by_id, row, active, e, same))
            (λ _ s' same. same))
        (λ _. record { holds = refl })

  -- `refresh` returns an access token only for a refresh token that verifies, is stored and has not
  -- expired, and whose account is an active row of the table; the access token is signed for that
  -- account as the table has it. Whether it returns or throws, it changes nothing: the refresh token stays valid.
  pub refresh-Renewed :
      (now : ℕ) (token : String) (s : State p)
      → Ensures (Renewed now token s) (λ _ s'. s' ≡ s) (refresh p now token s)
  unfolding refresh
  refresh-Renewed now token s =
      Ensures-bind (query (λ _. or_invalid (p.verify_refresh token))) _ s
        (query-Ensures (or_invalid (p.verify_refresh token)) s)
        λ payload s1 (signed, same1). rw same1 (
          Ensures-bind (on_tokens p (query (p.tokens.table.find_unique token))) _ s
            (find_token-Ensures p token s)
            λ stored s2 (at_token, same2). rw same2 (
              Ensures-bind (check_stored p now stored) _ s (stored_case now stored s)
                λ _ s3 (t, is_t, live, same3). rw same3 (
                  Ensures-bind (on_users p (query (p.users.find_by_id payload.user_id)))
                    (refresh_for p) s (find_account payload.user_id s)
                    λ found s4 (same_id, same4). rw same4 (
                      account_case now token payload t found s
                        (verified (p.verify_refresh token) payload signed) (sym at_token ∙ is_t)
                        live same_id))))
