-- ===== src/Rpc/Wire.antt =====
-- An RPC's answer on the wire, `{ success, data, error }`, and how
-- src/shared/messaging/rabbitmq.client.ts settles the promise of the caller that gets it.
use advanced_node.Common.{String, Bool, Option, none, some, ◌==◌, if◌then◌else◌}
use advanced_node.Exec.{Result, ok, thrown}
use advanced_node.Shared.Errors.{error}

-- `content`, the source's `data`, is `none` if it is absent or null.
pub record Response (D : Type 0) : Type 0 where
  pub success : Bool
  pub content : Option D
  pub error : Option String

-- `if (response.error) reject(new Error(response.error))`
abbrev rejected_if : {D : Type 0} → Option String → Response D → Result (Response D)
rejected_if none r = ok r
rejected_if (some m) r = if m == "" then ok r else thrown (error m)

unfoldable pub settled : {D : Type 0} → Response D → Result (Response D)
settled r = rejected_if r.error r
