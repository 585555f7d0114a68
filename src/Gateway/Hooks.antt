-- ===== src/Gateway/Hooks.antt =====
-- What the routes of src/services/api-gateway/routes/v1 share: the replies that they send by hand,
-- the hooks before a handler, and the `catch` blocks. Fastify's own validation by a route's `schema`,
-- which comes first, is the framework's and left out.
use Prim.Native.String.{◌++◌ as join}
use advanced_node.Common.{ℕ, String, Bool, true, false, Option, none, some, List, [], ◌∷◌}
use advanced_node.Exec.{Exec, Result, ok, thrown, pure, throw, try_catch, ◌>>=◌}
use advanced_node.Shared.Errors.{Exception, message_of}
use advanced_node.Shared.Reply.{Reply, or_text}
use advanced_node.Gateway.Tables.{admin}
use advanced_node.Gateway.Parties.{JwtPayload}
use advanced_node.Gateway.Access.{Checked, passes, answers, auth_middleware, require_role}

-- `reply.status(status).send({ status, message, data, error })`
abbrev pub send_reply : {D : Type 0} → ℕ → String → Option D → String → Reply D
send_reply status message content error = record {
  status_code = status;
  body = some (record { status = status; message = message; content = content; error = error });
}

abbrev pub invalid_reply : {D : Type 0} → String → Reply D
invalid_reply error = send_reply 400 "Validation error" none error

abbrev pub failed_reply : {D : Type 0} → String → Exception → Reply D
failed_reply fallback e =
    send_reply 500 (or_text (message_of e) fallback) none (or_text (message_of e) fallback)

abbrev pub unauthorized_reply : {D : Type 0} → String → Reply D
unauthorized_reply message = send_reply 401 message none message

-- An entry of a ZodError; the parts of its path are texts.
pub record Issue : Type 0 where
  pub path : List String
  pub message : String

abbrev pub join_by : String → List String → String
join_by sep [] = ""
join_by sep (x ∷ []) = x
join_by sep (x ∷ (y ∷ xs)) = join x (join sep (join_by sep (y ∷ xs)))

abbrev pub issue_text : Issue → String
issue_text i = join (join_by "." i.path) (join ": " i.message)

abbrev pub issue_texts : List Issue → List String
issue_texts [] = []
issue_texts (i ∷ is) = issue_text i ∷ issue_texts is

abbrev pub issues_text : List Issue → String
issues_text is = join_by ", " (issue_texts is)

-- What a schema's `parse` makes of its argument: a value, or a ZodError.
pub data Validated (A : Type 0) : Type 0 where
  valid : A → Validated A
  invalid : List Issue → Validated A

module _ {S D : Type 0} where
  -- `try { … } catch (error) { return reply.status(500)… }`
  abbrev pub answering : String → Exec S (Reply D) → Exec S (Reply D)
  answering fallback m = try_catch m λ e. pure (failed_reply fallback e)

  -- The same, with the reply to what the call returned.
  abbrev pub replying :
      {A : Type 0} → ℕ → String → String → (A → Option D) → Exec S A → Exec S (Reply D)
  replying status message fallback content m =
      answering fallback (do a ← m; pure (send_reply status message (content a) ""))

  -- `schema.parse(…)` and the `catch` block's test for a ZodError.
  abbrev pub validated : {A : Type 0} → Validated A → (A → Exec S (Reply D)) → Exec S (Reply D)
  validated (valid a) k = k a
  validated (invalid issues) k = pure (invalid_reply (issues_text issues))

  -- `if (!test) return reply.status(400)…`
  abbrev pub checked : Bool → String → Exec S (Reply D) → Exec S (Reply D)
  checked true error m = m
  checked false error m = pure (invalid_reply error)

  -- `Object.keys(validatedData).length === 0`
  abbrev pub non_empty : {A : Type 0} → List A → Exec S (Reply D) → Exec S (Reply D)
  non_empty [] m =
      pure (invalid_reply "Request body cannot be empty. Provide at least one field to update.")
  non_empty (x ∷ xs) m = m

  abbrev pub if_passed : Checked → (JwtPayload → Exec S (Reply D)) → Exec S (Reply D)
  if_passed (passes payload) k = k payload
  if_passed (answers message) k = pure (unauthorized_reply message)

  abbrev pub if_allowed : Result (Unit {0}) → Exec S (Reply D) → Exec S (Reply D)
  if_allowed (ok done) m = m
  if_allowed (thrown e) m = throw e

  module _ (verify_access : String → Result JwtPayload) where
    -- The hook `authMiddleware`, by the header of the request.
    unfoldable pub behind_auth : Option String → (JwtPayload → Exec S (Reply D)) → Exec S (Reply D)
    behind_auth header k = if_passed (auth_middleware verify_access header) k

    -- The hooks `[authMiddleware, requireAdmin]`.
    unfoldable pub behind_admin : Option String → Exec S (Reply D) → Exec S (Reply D)
    unfolding behind_auth
    behind_admin header m =
        behind_auth header λ payload. if_allowed (require_role (admin ∷ []) (some payload)) m
