-- ===== src/Shared/AddErrorHelper.antt =====
-- src/shared/utils/addErrorHelper.ts: each error that a handler catches is stored in the table of
-- errors. A service's state is its database and those rows. The identifiers, the times, the console
-- log and the monitoring service are left out; whether the table takes a row is a parameter.
use advanced_node.Common.{String, Bool, true, List, [], ◌∷◌, ◌++◌, if◌then◌else◌}
use advanced_node.Exec.{Exec, ok}
use advanced_node.Shared.Errors.{Exception, message_of}
use advanced_node.Shared.Reply.{or_text}

pub record ErrorEntry : Type 0 where
  pub api_name : String
  pub err_message : String

pub record App (Db : Type 0) : Type 0 where
  pub db : Db
  pub errors : List ErrorEntry

-- A call of the service below, which touches the database alone.
abbrev pub lift : {Db A : Type 0} → Exec Db A → Exec (App Db) A
lift m s = let (r, db) = m s.db in (r, record s { db = db })

abbrev pub entry : String → Exception → ErrorEntry
entry api e = record { api_name = api; err_message = or_text (message_of e) "Unknown error" }

-- A row that the table refuses is dropped; the helper reports success all the same.
unfoldable pub add_error_helper :
    {Db : Type 0} → (ErrorEntry → Bool) → String → Exception → Exec (App Db) Bool
add_error_helper stores api e s = (
  ok true,
  record s { errors = if stores (entry api e) then s.errors ++ entry api e ∷ [] else s.errors },
)
