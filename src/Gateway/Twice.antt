-- ===== src/Gateway/Twice.antt =====
-- A product, a category or an order whose first call fails is sent again.
use mathlib.Core.Path.{subst}
use mathlib.Core.List.{append_assoc}
use advanced_node.Common.{String, Option, ◌≡◌, sym, ap, ◌∙◌, [], ◌∷◌, ◌++◌}
use advanced_node.Exec.{Exec, ok, thrown, throw, ◌>>=◌, Result}
use advanced_node.Exec.Ensures.{
  Ensures, Leaves, Leaves_always, Ensures-weaken, Ensures-bind, Ensures-try, Ensures-if,
}
use advanced_node.Shared.Errors.{Exception}
use advanced_node.Rpc.Wire.{Response}
use advanced_node.Gateway.Services.{
  Object, Call, Bus, rpc_with_retry, content_of, ask, create_order, create_product, create_category,
}

abbrev pub order_call : {V : Type 0} → Object V → Call V
order_call d = record { queue = "order.create.rpc"; payload = d; timeout = 30000 }

abbrev pub product_call : {V : Type 0} → Object V → Call V
product_call d = record { queue = "product.create.rpc"; payload = d; timeout = 10000 }

abbrev pub category_call : {V : Type 0} → Object V → Call V
category_call d = record { queue = "category.create.rpc"; payload = d; timeout = 10000 }

pub data Creation : Type 0 where
  of_product of_category of_order : Creation

abbrev pub call_of : {V : Type 0} → Creation → Object V → Call V
call_of of_product d = product_call d
call_of of_category d = category_call d
call_of of_order d = order_call d

module _ {V D : Type 0} (b : Bus V D) where
  abbrev pub SentTwice : Call V → b.Net → b.Net → Type 0
  SentTwice c n n' = b.calls n' ≡ b.calls n ++ c ∷ c ∷ []

  log-twice :
      (c : Call V) (n n1 n' : b.Net)
      → b.calls n1 ≡ b.calls n ++ c ∷ []
      → b.calls n' ≡ b.calls (b.pause 1000 n1) ++ c ∷ []
      → SentTwice c n n'
  log-twice c n n1 n' first rest =
      rest
      ∙ ap (λ l. l ++ c ∷ []) (b.paused 1000 n1 ∙ first)
      ∙ append_assoc (b.calls n) (c ∷ []) (c ∷ [])

  log_of : {A : Type 0} (P : b.Net → Type 0) (out : Result A × b.Net) → P out.1 → Leaves P out
  log_of P (ok a, n) h = record { holds = h }
  log_of P (thrown e, n) h = record { holds = h }

  fails :
      (P : b.Net → Type 0) (out : Result (Response D) × b.Net) (e : Exception) (n1 : b.Net)
      → out ≡ (thrown e, n1)
      → P out.1
      → Ensures (λ r n'. ⊥) (λ x n'. P n') out
  fails P out e n1 failed h =
      subst (λ o. P o.1 → Ensures (λ r n'. ⊥) (λ x n'. P n') o) (sym failed)
        (λ k. record { holds = k }) h

  rpc_with_retry-SentTwice :
      (c : Call V) (n n1 : b.Net) (e : Exception)
      → b.rpc_call c n ≡ (thrown e, n1)
      → Ensures (λ r n'. SentTwice c n n') (λ x n'. SentTwice c n n') (rpc_with_retry b c 1 n)
  unfolding rpc_with_retry
  rpc_with_retry-SentTwice c n n1 e failed =
      Ensures-try (b.rpc_call c) (λ x n2. rpc_with_retry b c 0 (b.pause 1000 n2)) n
        (Ensures-weaken _
          (fails (λ n2. b.calls n2 ≡ b.calls n ++ c ∷ []) _ e n1 failed (b.called c n))
          (λ r n' k. absurd k) (λ x n' k. k))
        λ x n2 first.
          let n3 = b.pause 1000 n2 in
          Ensures-try (b.rpc_call c) throw n3
            (log_of (SentTwice c n) (b.rpc_call c n3)
              (log-twice c n n2 (b.rpc_call c n3).1 first (b.called c n3)))
            λ y n' k. record { holds = k }

  ask-SentTwice :
      (c : Call V) (failure : String) (report : Exception → Exception) (n n1 : b.Net)
      (e : Exception)
      → b.rpc_call c n ≡ (thrown e, n1)
      → SentTwice c n (ask b c failure report n).1
  unfolding ask
  ask-SentTwice c failure report n n1 e failed =
      let body = content_of b failure in
      Leaves_always (SentTwice c n) (ask b c failure report n) (
        Ensures-try (rpc_with_retry b c 1 >>= body) _ n
          (Ensures-bind (rpc_with_retry b c 1) body n (rpc_with_retry-SentTwice c n n1 e failed)
            λ a n' k.
              Ensures-if a.success _ _ n' (λ yes_it_is. record { holds = k })
                (λ no_it_is_not. record { holds = k }))
          λ x n' k. record { holds = k })

  pub create_order-SentTwice :
      (d : Object V) (n n1 : b.Net) (e : Exception)
      → b.rpc_call (order_call d) n ≡ (thrown e, n1)
      → b.calls (create_order b d n).1 ≡ b.calls n ++ order_call d ∷ order_call d ∷ []
  create_order-SentTwice d = ask-SentTwice (order_call d) _ _

  abbrev pub create_by : Creation → Object V → Exec b.Net (Option D)
  create_by of_product = create_product b
  create_by of_category = create_category b
  create_by of_order = create_order b

  -- When the first call of a method that creates a product, a category or an order fails, for which
  -- running out of time is enough, the same message is sent a second time, and not a third time.
  pub creates-SentTwice :
      (what : Creation) (d : Object V) (n n1 : b.Net) (e : Exception)
      → b.rpc_call (call_of what d) n ≡ (thrown e, n1)
      → SentTwice (call_of what d) n (create_by what d n).1
  creates-SentTwice of_product d = ask-SentTwice (product_call d) _ _
  creates-SentTwice of_category d = ask-SentTwice (category_call d) _ _
  creates-SentTwice of_order d = create_order-SentTwice d
