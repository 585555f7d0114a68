-- ===== src/Gateway/Calls.antt =====
-- What the gateway's calls of its tables ensure.
use advanced_node.Common.{
  ℕ, ◌+◌, ◌&&◌, ltb, true, eq_iff, ◌≢◌, String, ◌≡◌, refl, sym, ap, ◌∙◌, Bool, false, Bool-cases, Option, none, some, inl, inr,
  eq_refl, ◌==◌,
}
use advanced_node.Exec.{Result, ok, thrown, query}
use advanced_node.Exec.Ensures.{Ensures, Outcome, Ensures-weaken}
use advanced_node.Exec.Focus.{Ensures-focus}
use advanced_node.Prisma.Calls.{find_unique-Ensures, create-Ensures}
use advanced_node.Gateway.Tables.{User, RefreshToken, kept}
use advanced_node.Gateway.Parties.{Parties, State, Drawn, JwtPayload, truthy}
use advanced_node.Gateway.Auth.{on_users, on_tokens, token_row, store_token}

-- An account as a token is to name it.
abbrev pub identity : User → JwtPayload
identity u = record { user_id = u.id; email = u.email; role = u.role }

-- The row of an account's token, which lasts for a week of milliseconds.
abbrev pub week_row : Drawn → ℕ → User → String → RefreshToken
week_row drawn now u token = record {
  id = drawn.token_id;
  token = token;
  user_id = u.id;
  expires_at = now + 604800000;
}

-- The account's own token, past its time.
abbrev pub has_lapsed : User → ℕ → RefreshToken → Bool
has_lapsed u now t = (t.user_id == u.id) && ltb t.expires_at now

-- A text that is there and not empty.
abbrev pub IsGiven : Option String → String → Type 0
IsGiven o t = (o ≡ some t) × (t ≢ "")

pub truthy-IsGiven : (o : Option String) (t : String) → truthy o ≡ some t → IsGiven o t
truthy-IsGiven none t h = absurd (cc)
truthy-IsGiven (some s) t h = elim (Bool-cases (s == "")) [
  | inl empty ↦ let clash : none ≡ some t = rw empty at h in absurd (cc)
  | inr full ↦
      let same : s ≡ t = cc (rw full at h) in
      (
        ap some same,
        λ e.
            let empty : (s == "") ≡ true = (eq_iff s "").1 (same ∙ e) in
            let clash : true ≡ false = sym empty ∙ full in absurd (cc),
      )
]

-- A call that changes nothing.
pub query-Ensures :
    {S A : Type 0} (r : Result A) (s : S)
    → Ensures (λ a s'. (r ≡ ok a) × (s' ≡ s)) (λ e s'. s' ≡ s) (query (λ _. r) s)
query-Ensures (ok a) s = record { holds = (refl, refl) }
query-Ensures (thrown e) s = record { holds = refl }

module _ (p : Parties) where
  abbrev pub user_row : State p → String → Option User
  user_row s email = p.users.table.row s.users email

  abbrev pub token_at : State p → String → Option RefreshToken
  token_at s token = p.tokens.table.row s.tokens token

  -- Accounts and OAuth states are as before, and no token is there that was not.
  pub record NoNewToken (s s' : State p) : Type 0 where
    pub users : s'.users ≡ s.users
    pub states : s'.states ≡ s.states
    pub none_new : (j : String) (t : RefreshToken) → token_at s' j ≡ some t → token_at s j ≡ some t

  pub NoNewToken-refl : (s : State p) → NoNewToken s s
  NoNewToken-refl s = record { users = refl; states = refl; none_new = λ j t h. h }

  pub NoNewToken-same : (s s' : State p) → s' ≡ s → NoNewToken s s'
  NoNewToken-same s s' e = rw e (NoNewToken-refl s)

  pub NoNewToken-trans : (a b c : State p) → NoNewToken a b → NoNewToken b c → NoNewToken a c
  NoNewToken-trans a b c h k = record {
    users = k.users ∙ h.users;
    states = k.states ∙ h.states;
    none_new = λ j t there. h.none_new j t (k.none_new j t there);
  }

  pub find_user-Ensures :
      (email : String) (s : State p)
      → Ensures
          (λ r s'. (r ≡ user_row s email) × (s' ≡ s))
          (λ e s'. s' ≡ s)
          (on_users p (query (p.users.table.find_unique email)) s)
  find_user-Ensures email s =
      Ensures-weaken _
        (Ensures-focus (λ s. s.users) (λ db s. record s { users = db })
          (query (p.users.table.find_unique email)) s
          (find_unique-Ensures p.users.table email s.users))
        (λ r s' (db, same, (found, kept_db)).
          (found, same ∙ ap (λ db. record s { users = db }) kept_db))
        (λ e s' (db, same, (foreign, kept_db)). same ∙ ap (λ db. record s { users = db }) kept_db)

  pub find_token-Ensures :
      (token : String) (s : State p)
      → Ensures
          (λ r s'. (r ≡ token_at s token) × (s' ≡ s))
          (λ e s'. s' ≡ s)
          (on_tokens p (query (p.tokens.table.find_unique token)) s)
  find_token-Ensures token s =
      Ensures-weaken _
        (Ensures-focus (λ s. s.tokens) (λ db s. record s { tokens = db })
          (query (p.tokens.table.find_unique token)) s
          (find_unique-Ensures p.tokens.table token s.tokens))
        (λ r s' (db, same, (found, kept_db)).
          (found, same ∙ ap (λ db. record s { tokens = db }) kept_db))
        (λ e s' (db, same, (foreign, kept_db)). same ∙ ap (λ db. record s { tokens = db }) kept_db)

  -- The token is stored, for that account and a week, and nothing else differs.
  pub record Stored (drawn : Drawn) (now : ℕ) (u : User) (token : String) (s s' : State p)
      : Type 0 where
    pub users : s'.users ≡ s.users
    pub states : s'.states ≡ s.states
    pub row : token_at s' token ≡ some (week_row drawn now u token)
    pub others : (j : String) → (token == j) ≡ false → token_at s' j ≡ token_at s j

  pub store_token-Stored :
      (drawn : Drawn) (now : ℕ) (u : User) (token : String) (s : State p)
      → Ensures
          (λ _ s'. Stored drawn now u token s s')
          (λ _ s'. NoNewToken s s')
          (store_token p drawn now u token s)
  store_token-Stored drawn now u token s =
      Ensures-weaken _
        (Ensures-focus (λ s. s.tokens) (λ db s. record s { tokens = db })
          (p.tokens.table.create (token_row p drawn now u token)) s
          (create-Ensures p.tokens.table (token_row p drawn now u token) s.tokens))
        (λ r s' (db, same, (fresh, new, rows)). rw same (record {
          users = refl;
          states = refl;
          row = rw eq_refl at (rows token);
          others = λ j ne. rw ne at (rows j);
        }))
        (λ e s' (db, same, failure). rw same (record {
          users = refl;
          states = refl;
          none_new = λ j t there. sym (failure.1 j) ∙ there;
        }))

  -- The tokens that `q` picks are gone, and nothing else differs.
  pub record Swept (q : RefreshToken → Bool) (s s' : State p) : Type 0 where
    pub users : s'.users ≡ s.users
    pub states : s'.states ≡ s.states
    pub rows : (j : String) → token_at s' j ≡ kept q (token_at s j)

  pub sweep-Swept :
      (q : RefreshToken → Bool) (s : State p)
      → Ensures
          (λ _ s'. Swept q s s')
          (λ _ s'. NoNewToken s s')
          (on_tokens p (p.tokens.delete_many q) s)
  sweep-Swept q s = record {
    holds = go (p.tokens.delete_many q s.tokens).0 (p.tokens.delete_many q s.tokens).1 refl;
  }
    where
      go :
          (r : Result (Unit {0})) (db : p.tokens.table.Db)
          → p.tokens.delete_many q s.tokens ≡ (r, db)
          → Outcome (λ _ s'. Swept q s s') (λ _ s'. NoNewToken s s') r (record s { tokens = db })
      go (ok tt) db e = record {
        users = refl;
        states = refl;
        rows = p.tokens.delete_many_done q s.tokens db e;
      }
      go (thrown x) db e = record {
        users = refl;
        states = refl;
        none_new = λ j t there. sym ((p.tokens.delete_many_failed q s.tokens db e).1 j) ∙ there;
      }

  kept-some :
      (q : RefreshToken → Bool) (r : Option RefreshToken) (t : RefreshToken)
      → kept q r ≡ some t
      → r ≡ some t
  kept-some q none t h = absurd (cc)
  kept-some q (some r) t h = elim (Bool-cases (q r)) [
    | inl goes ↦ absurd (cc (rw goes at h))
    | inr stays ↦ rw stays at h
  ]

  pub Swept-NoNewToken : (q : RefreshToken → Bool) (s s' : State p) → Swept q s s' → NoNewToken s s'
  Swept-NoNewToken q s s' h = record {
    users = h.users;
    states = h.states;
    none_new = λ j t there. kept-some q (token_at s j) t (sym (h.rows j) ∙ there);
  }
