-- ===== src/Shared/Catch.antt =====
-- The `catch` block that every controller method ends with, and the answer to what it throws again.
use advanced_node.Common.{String, Bool, none, some, if◌then◌else◌}
use advanced_node.Exec.{try_catch, Result, ok, thrown, Exec, ok, thrown, pure, throw, ◌>>=◌}
use advanced_node.Shared.Errors.{Exception, message_of}
use advanced_node.Shared.Reply.{
  Reply, Payload, or_text, send_server_error, decorate_reply, handle_error,
}
use advanced_node.Shared.AddErrorHelper.{ErrorEntry, App, add_error_helper}

-- `{ message, data: {}, error }`
abbrev pub failure : {D : Type 0} → String → Payload D
failure m = record { message = some m; content = none; error = some m }

abbrev pub success : {D : Type 0} → String → D → Payload D
success m d = record { message = some m; content = some d; error = some "" }

-- `if (rethrows) throw err; return reply`
abbrev pub throw_or : {S A : Type 0} → Bool → Exception → A → Exec S A
throw_or again e a = if again then throw e else pure a

abbrev pub error_reply : {D : Type 0} → String → Exception → Reply D
error_reply fallback e =
    decorate_reply send_server_error (failure (or_text (message_of e) fallback))

module _ {Db D : Type 0} (stores : ErrorEntry → Bool) where
  -- Log the error; throw it again if `rethrows` picks it, or else answer with a server error.
  unfoldable pub catch_block :
      String → String → (Exception → Bool) → Exception → Exec (App Db) (Reply D)
  unfolding add_error_helper decorate_reply
  catch_block api fallback rethrows e = do
    _ ← add_error_helper stores api e
    throw_or (rethrows e) e (error_reply fallback e)

  -- `try { … } catch (err) { … }` with that block.
  unfoldable pub guarded :
      String → String → (Exception → Bool) → Exec (App Db) (Reply D) → Exec (App Db) (Reply D)
  unfolding catch_block
  guarded api fallback rethrows m = try_catch m (catch_block api fallback rethrows)

abbrev pub answer : {D : Type 0} → Result (Reply D) → Reply D
answer (ok reply) = reply
answer (thrown e) = handle_error e

-- The route: a reply in any case.
unfoldable pub respond : {S D : Type 0} → Exec S (Reply D) → S → Reply D × S
respond m s = let (r, s') = m s in (answer r, s')
