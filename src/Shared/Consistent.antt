-- ===== src/Shared/Consistent.antt =====
-- Replies whose body repeats the status line and says something.
use advanced_node.Common.{
  ℕ, String, ◌≡◌, ◌≢◌, refl, Bool, false, Option, none, some, inl, inr, arith, eq_iff, Bool-cases,
  ◌==◌,
}
use advanced_node.Exec.{Exec, Result, ok, thrown, pure, query, ◌>>=◌}
use advanced_node.Exec.Ensures.{Ensures, Outcome, Ensures-try, Ensures-bind, Ensures-any}
use advanced_node.Shared.ResponseCodes.{ResponseCodes, response_messages}
use advanced_node.Shared.Errors.{Exception, app, error, message_of}
use advanced_node.Shared.Reply.{
  Reply, ApiResponse, Payload, ReplyMethod, or_text, or_text?, method_status, send_server_error,
  decorate_reply, handle_error,
}
use advanced_node.Shared.AddErrorHelper.{ErrorEntry, App}
use advanced_node.Shared.Catch.{respond, answer, catch_block, guarded, failure}

abbrev HasStatus : {D : Type 0} → ℕ → Option (ApiResponse D) → Type 0
HasStatus n none = Unit
HasStatus n (some b) = (b.status ≡ n) × (b.message ≢ "")

-- The body, if there is one, repeats the status and has a message.
abbrev pub IsConsistent : {D : Type 0} → Reply D → Type 0
IsConsistent r = HasStatus r.status_code r.body

or_text-ne : (a b : String) → b ≢ "" → or_text a b ≢ ""
or_text-ne a b h = ground (arith, eq_iff a "")

has_message : (c : ResponseCodes) → (response_messages c == "") ≡ false
unfolding response_messages
has_message ResponseCodes.ok = refl
has_message _ = refl

or_message-ne : (m : Option String) (c : ResponseCodes) → or_text? m (response_messages c) ≢ ""
or_message-ne none c = λ h. ground (arith, eq_iff (response_messages c) "", has_message c)
or_message-ne (some a) c =
    or_text-ne a (response_messages c)
      (λ h. ground (arith, eq_iff (response_messages c) "", has_message c))

-- Every reply method gives a body that repeats the status of the reply and has a message, whatever
-- payload it is called with.
pub decorate_reply-IsConsistent :
    {D : Type 0} (m : ReplyMethod) (p : Payload D) → IsConsistent (decorate_reply m p)
unfolding decorate_reply
decorate_reply-IsConsistent m p = (refl, or_message-ne p.message (method_status m))

handle_error-IsConsistent : (D : Type 0) (e : Exception) → IsConsistent (handle_error {D = D} e)
unfolding handle_error
handle_error-IsConsistent D (app e) = (
  refl,
  or_text-ne e.message "Internal server error" (ground (arith, eq_iff "Internal server error" "")),
)
handle_error-IsConsistent D (error m) =
    (refl, or_text-ne m "Internal server error" (ground (arith, eq_iff "Internal server error" "")))

module _ {Db D : Type 0} (stores : ErrorEntry → Bool) where
  catch_block-IsConsistent :
      (api fallback : String) (rethrows : Exception → Bool) (e : Exception) (s : App Db)
      → Ensures
          (λ r _. IsConsistent {D = D} r)
          (λ _ _. Unit {0})
          (catch_block stores api fallback rethrows e s)
  unfolding catch_block
  catch_block-IsConsistent api fallback rethrows e s = elim (Bool-cases (rethrows e)) [
    | inl again ↦ rw again (record { holds = tt })
    | inr last ↦ rw last (record {
      holds =
          decorate_reply-IsConsistent {D = D} send_server_error
            (failure (or_text (message_of e) fallback));
    })
  ]

pub consistent_answer :
    {D S : Type 0} (r : Result (Reply D)) (s : S)
    → Outcome (λ r _. IsConsistent r) (λ _ _. Unit {0}) r s
    → IsConsistent (answer r)
consistent_answer (ok r) s h = h
consistent_answer {D} (thrown e) s h = handle_error-IsConsistent D e

-- A method that ends with that block is answered with a consistent reply, if all that it sends is.
module _ {Db D : Type 0} (stores : ErrorEntry → Bool) where
  pub respond-IsConsistent :
      (m : Exec (App Db) (Reply D)) (api fallback : String) (rethrows : Exception → Bool)
      (s : App Db)
      → Ensures (λ r _. IsConsistent r) (λ _ _. Unit {0}) (m s)
      → IsConsistent (respond (guarded stores api fallback rethrows m) s).0
  unfolding respond guarded
  respond-IsConsistent m api fallback rethrows s h =
      let handled =
        Ensures-try m (catch_block stores api fallback rethrows) s h
          (λ e s' _. catch_block-IsConsistent stores api fallback rethrows e s') in
      consistent_answer _ _ handled.holds

-- A call of the service and the reply made of its result.
pub sent :
    {Db A D : Type 0} (m : Exec (App Db) A) (f : A → Reply D) (s : App Db)
    → ((a : A) → IsConsistent (f a))
    → Ensures (λ r _. IsConsistent {D = D} r) (λ _ _. Unit {0}) ((do a ← m; pure (f a)) s)
sent m f s h =
    Ensures-bind m (λ a. pure (f a)) s (Ensures-any (m s)) (λ a s' _. record { holds = h a })

-- The same behind the parse of a body.
pub sent_parsed :
    {Db P A D : Type 0} (parsed : Result P) (m : P → Exec (App Db) A) (f : A → Reply D) (s : App Db)
    → ((a : A) → IsConsistent (f a))
    → Ensures
        (λ r _. IsConsistent {D = D} r)
        (λ _ _. Unit {0})
        ((do p ← query (λ _. parsed); a ← m p; pure (f a)) s)
sent_parsed parsed m f s h =
    Ensures-bind (query (λ _. parsed)) (λ p. m p >>= λ a. pure (f a)) s (Ensures-any (parsed, s))
      (λ p s' _. sent (m p) f s' h)

-- A method without such a block.
pub plain-IsConsistent :
    {S D : Type 0} (m : Exec S (Reply D)) (s : S)
    → Ensures (λ r _. IsConsistent r) (λ _ _. Unit {0}) (m s)
    → IsConsistent (respond m s).0
unfolding respond
plain-IsConsistent m s h = consistent_answer (m s).0 (m s).1 h.holds
