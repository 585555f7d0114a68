-- ===== src/Gateway/Google.antt =====
-- Signing in with Google: what the callback needs, makes and uses up.
use advanced_node.Common.{
  ℕ, String, ◌≡◌, refl, sym, ap, ◌∙◌, true, Option, none, some, List, [], ◌∷◌, eq_iff, arith, ◌==◌,
  if◌then◌else◌,
}
use advanced_node.Exec.{Result, ok, thrown, throw, query}
use advanced_node.Exec.Ensures.{
  Ensures, Outcome, Ensures-bind, Ensures-if, Ensures-weaken, Leaves_always,
}
use advanced_node.Gateway.Tables.{User, RefreshToken, upserted}
use advanced_node.Gateway.Parties.{
  Parties, State, Drawn, Session, Profile, truthy, linked, google_user, find_state, delete_state,
  is_live, invalid_state,
}
use advanced_node.Gateway.Auth.{
  on_users, token_row, issue, with_account, with_google_token, exchange_code, callback_with,
}
use advanced_node.Gateway.Calls.{query-Ensures, user_row, token_at}
use advanced_node.Gateway.Register.{issue-Issued}

module _ (p : Parties) where
  -- There is no new token, and no OAuth state differs.
  pub record NoSession (s s' : State p) : Type 0 where
    pub states : s'.states ≡ s.states
    pub none_new :
        (j : String) (t : RefreshToken) → token_at p s' j ≡ some t → token_at p s j ≡ some t

  NoSession-same : (s s' : State p) → s' ≡ s → NoSession s s'
  NoSession-same s s' e = rw e (record { states = refl; none_new = λ j t h. h })

  -- The account of Google's profile: the one with its e-mail, linked and active, or a new one.
  abbrev pub Linked : Drawn → ℕ → State p → Session → State p → Type 0
  Linked drawn now s r s' =
      (profile : Profile) × (sub : String) × (email : String) × (truthy profile.sub ≡ some sub)
      × (truthy profile.email ≡ some email)
      × (r.user
          ≡ upserted (linked sub profile) (google_user drawn sub email profile)
              (user_row p s email))
      × ((j : String) → user_row p s' j ≡ (if email == j then some r.user else user_row p s j))
      × (token_at p s' r.refresh_token ≡ some (token_row p drawn now r.user r.refresh_token))
      × (s'.states ≡ s.states)

  upsert-Ensures :
      (email : String) (f : User → User) (new : User) (s : State p)
      → Ensures
          (λ u s'.
            (u ≡ upserted f new (user_row p s email))
            × ((j : String) → user_row p s' j ≡ (if email == j then some u else user_row p s j))
            × (s'.tokens ≡ s.tokens)
            × (s'.states ≡ s.states))
          (λ _ s'. NoSession s s')
          (on_users p (p.users.upsert email f new) s)
  upsert-Ensures email f new s = record {
    holds = go (p.users.upsert email f new s.users).0 (p.users.upsert email f new s.users).1 refl;
  }
    where
      go :
          (r : Result User) (db : p.users.table.Db)
          → p.users.upsert email f new s.users ≡ (r, db)
          → Outcome
              (λ u s'.
                (u ≡ upserted f new (user_row p s email))
                × ((j : String) → user_row p s' j ≡ (if email == j then some u else user_row p s j))
                × (s'.tokens ≡ s.tokens)
                × (s'.states ≡ s.states))
              (λ _ s'. NoSession s s')
              r
              (record s { users = db })
      go (ok u) db e =
          let (made, rows) = p.users.upsert_done email f new s.users db e in
          (made, rows, refl, refl)
      go (thrown x) db e = record { states = refl; none_new = λ j t h. h }

  with_account-Linked :
      (drawn : Drawn) (now : ℕ) (profile : Profile) (sub email : Option String) (s : State p)
      → truthy profile.sub ≡ sub
      → truthy profile.email ≡ email
      → Ensures
          (Linked drawn now s)
          (λ _ s'. NoSession s s')
          (with_account p drawn now profile sub email s)
  with_account-Linked drawn now profile none email s es ee = record {
    holds = NoSession-same s s refl;
  }
  with_account-Linked drawn now profile (some sub) none s es ee = record {
    holds = NoSession-same s s refl;
  }
  with_account-Linked drawn now profile (some sub) (some email) s es ee =
      Ensures-bind
        (on_users p
          (p.users.upsert email (linked sub profile) (google_user drawn sub email profile)))
        (issue p drawn now) s
        (upsert-Ensures email (linked sub profile) (google_user drawn sub email profile) s)
        λ u s1 (made, rows, tokens, states).
          Ensures-weaken _ (issue-Issued p drawn now u s1)
            (λ r s2 h. (
              profile,
              sub,
              email,
              es,
              ee,
              h.whose ∙ made,
              (λ j.
                  ap (λ db. p.users.table.row db j) h.stored.users
                  ∙ rows j
                  ∙ ap (λ x. if email == j then some x else user_row p s j) (sym h.whose)),
              h.stored.row ∙ ap (λ x. some (token_row p drawn now x r.refresh_token)) (sym h.whose),
              h.stored.states ∙ states,
            ))
            (λ _ s2 h. record {
              states = h.states ∙ states;
              none_new = λ j t there.
                  ap (λ db. p.tokens.table.row db j) (sym tokens) ∙ h.none_new j t there;
            })

  with_token-Linked :
      (drawn : Drawn) (now : ℕ) (token : Option String) (s : State p)
      → Ensures
          (Linked drawn now s)
          (λ _ s'. NoSession s s')
          (with_google_token p drawn now token s)
  with_token-Linked drawn now none s = record { holds = NoSession-same s s refl }
  with_token-Linked drawn now (some token) s =
      Ensures-bind (query (λ _. p.profile token)) _ s
        (Ensures-weaken _ (query-Ensures (p.profile token) s) (λ _ s1 h. h)
          (λ _ s1 same. NoSession-same s s1 same))
        λ profile s1 (given, same). rw same (
          with_account-Linked drawn now profile (truthy profile.sub) (truthy profile.email) s refl
            refl)

  exchange-Linked :
      (drawn : Drawn) (now : ℕ) (code : String) (id secret url : Option String) (s : State p)
      → Ensures
          (Linked drawn now s)
          (λ _ s'. NoSession s s')
          (exchange_code p drawn now code id secret url s)
  exchange-Linked drawn now code none secret url s = record { holds = NoSession-same s s refl }
  exchange-Linked drawn now code (some id) none url s = record { holds = NoSession-same s s refl }
  exchange-Linked drawn now code (some id) (some secret) none s = record {
    holds = NoSession-same s s refl;
  }
  exchange-Linked drawn now code (some id) (some secret) (some url) s =
      Ensures-bind (query (λ _. p.exchange code)) _ s
        (Ensures-weaken _ (query-Ensures (p.exchange code) s) (λ _ s1 h. h)
          (λ _ s1 same. NoSession-same s s1 same))
        λ token s1 (given, same). rw same (with_token-Linked drawn now (truthy token) s)

  -- What the callback leaves of the states: the one it was called with is used up.
  abbrev pub Used : String → State p → State p → Type 0
  Used state s s' = s'.states ≡ delete_state state s.states

  pub callback-Linked :
      (drawn : Drawn) (now : ℕ) (code state : String) (s : State p)
      → Ensures
          (λ r s'.
            (is_live now (find_state state s.states) ≡ true)
            × Linked drawn now (record s { states = delete_state state s.states }) r s'
            × (r.user.is_active ≡ true)
            × Used state s s')
          (λ _ s'.
            NoSession (record s { states = delete_state state s.states }) s' × Used state s s')
          (callback_with p drawn now code state s)
  unfolding callback_with
  callback-Linked drawn now code state s =
      let s1 : State p = record s { states = delete_state state s.states } in
      Ensures-if (is_live now (find_state state s.states))
        (exchange_code p drawn now code (truthy p.client_id) (truthy p.client_secret)
          (truthy p.callback_url))
        (throw invalid_state) s1
        (λ live.
          Ensures-weaken _ (exchange-Linked drawn now code _ _ _ s1)
            (λ r s2 (profile, sub, email, es, ee, made, rows, row, states). (
              live,
              (profile, sub, email, es, ee, made, rows, row, states),
              ap (λ u. u.is_active) made
                  ∙ linked_active drawn profile sub email (user_row p s email),
              states,
            ))
            (λ _ s2 h. (h, h.states)))
        (λ _. record { holds = (NoSession-same s1 s1 refl, refl) })
    where
      linked_active :
          (drawn : Drawn) (profile : Profile) (sub email : String) (r : Option User)
          → (upserted (linked sub profile) (google_user drawn sub email profile) r).is_active ≡ true
      linked_active drawn profile sub email none = refl
      linked_active drawn profile sub email (some u) = refl

  find-delete : (k : String) (xs : List (String × ℕ)) → find_state k (delete_state k xs) ≡ none
  find-delete k [] = refl
  find-delete k ((j, n) ∷ xs) = ground (arith, eq_iff j k, find-delete k xs)

  refused :
      (drawn : Drawn) (now : ℕ) (code state : String) (s : State p)
      → find_state state s.states ≡ none
      → ((callback_with p drawn now code state s).0 ≡ thrown invalid_state)
        × ((callback_with p drawn now code state s).1.users ≡ s.users)
        × ((callback_with p drawn now code state s).1.tokens ≡ s.tokens)
  unfolding callback_with
  refused drawn now code state s gone = rw gone (refl, refl, refl)

  -- A state serves one callback: whatever came of the first, a second callback with the same state
  -- is refused, without an account or a token.
  pub callback-once :
      (drawn drawn' : Drawn) (now now' : ℕ) (code code' state : String) (s : State p)
      → let s1 : State p = (callback_with p drawn now code state s).1 in
        ((callback_with p drawn' now' code' state s1).0 ≡ thrown invalid_state)
        × ((callback_with p drawn' now' code' state s1).1.users ≡ s1.users)
        × ((callback_with p drawn' now' code' state s1).1.tokens ≡ s1.tokens)
  callback-once drawn drawn' now now' code code' state s =
      refused drawn' now' code' state (callback_with p drawn now code state s).1
        (ap (find_state state) used ∙ find-delete state s.states)
    where
      used : Used state s (callback_with p drawn now code state s).1
      used = Leaves_always (Used state s) (callback_with p drawn now code state s) (
          Ensures-weaken _ (callback-Linked drawn now code state s) (λ r s' (live, h, active, u). u)
            (λ _ s' h. h.1))
