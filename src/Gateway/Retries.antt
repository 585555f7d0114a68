-- ===== src/Gateway/Retries.antt =====
-- How often the gateway asks, and what it takes for an answer.
use mathlib.Core.List.{append_assoc}
use advanced_node.Common.{
  ℕ, zero, suc, ◌≤◌, String, ◌≡◌, refl, sym, ap, ◌∙◌, true, false, Option, List, [], ◌∷◌, ◌++◌,
  arith,
}
use advanced_node.Exec.{Result, ok, thrown, throw, ◌>>=◌}
use advanced_node.Exec.Ensures.{Ensures, Ensures-weaken, Ensures-bind, Ensures-try, Ensures-if}
use advanced_node.Shared.Errors.{Exception, error}
use advanced_node.Rpc.Wire.{Response}
use advanced_node.Gateway.Services.{Call, Bus, text_or, rpc_with_retry, content_of, ask}

module _ {A : Type 0} where
  abbrev pub repeat : ℕ → A → List A
  repeat zero a = []
  repeat (suc k) a = a ∷ repeat k a

module _ {V D : Type 0} (b : Bus V D) where
  -- The call was made once or more, at most `bound` times, and the last time it was answered so.
  pub record Answered (c : Call V) (bound : ℕ) (n : b.Net) (response : Response D) (n' : b.Net)
      : Type 0 where
    pub times : ℕ
    pub within : suc times ≤ bound
    pub log : b.calls n' ≡ b.calls n ++ repeat (suc times) c
    pub before : b.Net
    pub last : b.rpc_call c before ≡ (ok response, n')

  -- The call was made `times` times, and the last time it failed so.
  pub record Unanswered (c : Call V) (times : ℕ) (n : b.Net) (e : Exception) (n' : b.Net)
      : Type 0 where
    pub log : b.calls n' ≡ b.calls n ++ repeat times c
    pub before : b.Net
    pub last : b.rpc_call c before ≡ (thrown e, n')

  first-Answered :
      (c : Call V) (n : b.Net) (r : Result (Response D)) (n' : b.Net)
      → b.rpc_call c n ≡ (r, n')
      → Ensures (Answered c 1 n) (Unanswered c 1 n) (r, n')
  first-Answered c n (ok a) n' e = record {
    holds = record {
      times = 0;
      within = omega arith;
      log = sym (ap (λ x. b.calls x.1) e) ∙ b.called c n;
      before = n;
      last = e;
    };
  }
  first-Answered c n (thrown x) n' e = record {
    holds = record { log = sym (ap (λ y. b.calls y.1) e) ∙ b.called c n; before = n; last = e };
  }

  log-again :
      (c : Call V) (times : ℕ) (n n1 n' : b.Net)
      → b.calls n1 ≡ b.calls n ++ c ∷ []
      → b.calls n' ≡ b.calls (b.pause 1000 n1) ++ repeat times c
      → b.calls n' ≡ b.calls n ++ repeat (suc times) c
  log-again c times n n1 n' first rest =
      rest
      ∙ ap (λ l. l ++ repeat times c) (b.paused 1000 n1 ∙ first)
      ∙ append_assoc (b.calls n) (c ∷ []) (repeat times c)

  again-Answered :
      (c : Call V) (bound : ℕ) (n n1 : b.Net) (x : Exception)
      → Unanswered c 1 n x n1
      → (out : Result (Response D) × b.Net)
      → Ensures (Answered c bound (b.pause 1000 n1)) (Unanswered c bound (b.pause 1000 n1)) out
      → Ensures (Answered c (suc bound) n) (Unanswered c (suc bound) n) out
  again-Answered c bound n n1 x h out k =
      Ensures-weaken out k
        (λ a n' d. record {
          times = suc d.times;
          within = omega (arith, d.within);
          log = log-again c (suc d.times) n n1 n' h.log d.log;
          before = d.before;
          last = d.last;
        })
        (λ e n' d. record {
          log = log-again c bound n n1 n' h.log d.log;
          before = d.before;
          last = d.last;
        })

  first-within :
      (c : Call V) (bound : ℕ) (n : b.Net) (out : Result (Response D) × b.Net)
      → b.rpc_call c n ≡ out
      → Ensures (Answered c (suc bound) n) (Unanswered c 1 n) out
  first-within c bound n out e =
      Ensures-weaken out (first-Answered c n out.0 out.1 e)
        (λ a n' d. record {
          times = d.times;
          within = omega (arith, d.within);
          log = d.log;
          before = d.before;
          last = d.last;
        })
        (λ e n' d. d)

  pub rpc_with_retry-bounds :
      (c : Call V) (retries : ℕ) (n : b.Net)
      → Ensures
          (Answered c (suc retries) n)
          (Unanswered c (suc retries) n)
          (rpc_with_retry b c retries n)
  unfolding rpc_with_retry
  rpc_with_retry-bounds c zero n =
      Ensures-try (b.rpc_call c) throw n (first-within c 0 n (b.rpc_call c n) refl)
        λ e n' d. record { holds = d }
  rpc_with_retry-bounds c (suc retries) n =
      Ensures-try (b.rpc_call c) (λ e n'. rpc_with_retry b c retries (b.pause 1000 n')) n
        (first-within c (suc retries) n (b.rpc_call c n) refl)
        λ e n1 d.
          again-Answered c (suc retries) n n1 e d _
            (rpc_with_retry-bounds c retries (b.pause 1000 n1))

  -- The answer a method got was a success, and what it returns is the answer's data.
  pub record Succeeded (c : Call V) (n : b.Net) (content : Option D) (n' : b.Net) : Type 0 where
    pub response : Response D
    pub success : response.success ≡ true
    pub same : response.content ≡ content
    pub asked : Answered c 2 n response n'

  -- Both calls failed, or an answer that is no success came, and the exception reports that.
  pub data Failed (c : Call V) (failure : String) (report : Exception → Exception) (n : b.Net)
      (e : Exception) (n' : b.Net) : Type 0 where
    no_answer :
        (x : Exception) → e ≡ report x → Unanswered c 2 n x n' → Failed c failure report n e n'
    no_success :
        (response : Response D)
        → response.success ≡ false
        → e ≡ report (error (text_or response.error failure))
        → Answered c 2 n response n'
        → Failed c failure report n e n'

  reported :
      (c : Call V) (failure : String) (report : Exception → Exception) (n : b.Net) (e : Exception)
      → (n' : b.Net) → Failed c failure (λ x. x) n e n'
      → Failed c failure report n (report e) n'
  reported c failure report n e n' (no_answer x same d) = no_answer x (ap report same) d
  reported c failure report n e n' (no_success r no_it_is_not same d) =
      no_success r no_it_is_not (ap report same) d

  -- `ask`, the body of the methods, makes its call once or twice. It returns the data of an answer
  -- that says it is a success. It throws the report of the second call's failure, or of an answer
  -- that says it is no success.
  pub ask-Answered :
      (c : Call V) (failure : String) (report : Exception → Exception) (n : b.Net)
      → Ensures (Succeeded c n) (Failed c failure report n) (ask b c failure report n)
  unfolding ask
  ask-Answered c failure report n =
      Ensures-try (rpc_with_retry b c 1 >>= content_of b failure) (λ e. throw (report e)) n
        (Ensures-bind (rpc_with_retry b c 1) (content_of b failure) n
          (Ensures-weaken _ (rpc_with_retry-bounds c 1 n) (λ a n' d. d)
            (λ e n' d. no_answer e refl d))
          λ a n' d.
            Ensures-if a.success _ _ n'
              (λ yes_it_is. record {
                holds = record { response = a; success = yes_it_is; same = refl; asked = d };
              })
              (λ no_it_is_not. record { holds = no_success a no_it_is_not refl d }))
        λ e n' d. record { holds = reported c failure report n e n' d }
