-- ===== src/Shared/Errors.antt =====
-- src/shared/errors/CustomErrors.ts. A constructor of the source is a function to `AppError`; the
-- class, by which `instanceof` tests, is a field.
use advanced_node.Common.{String, Bool, true, false}
use advanced_node.Shared.ResponseCodes.{ResponseCodes}

pub data ErrorClass : Type 0 where
  app_error bad_request_error unauthorized_error forbidden_error not_found_error : ErrorClass
  conflict_error validation_error too_many_requests_error internal_server_error : ErrorClass

pub record AppError : Type 0 where
  pub class : ErrorClass
  pub message : String
  pub status_code : ResponseCodes
  pub is_operational : Bool

-- `new AppError(message, statusCode)` of the subclass `class`, with `isOperational` at its default.
abbrev app_error_of : ErrorClass → ResponseCodes → String → AppError
app_error_of class status message = record {
  class = class;
  message = message;
  status_code = status;
  is_operational = true;
}

abbrev pub bad_request : String → AppError
bad_request = app_error_of bad_request_error ResponseCodes.bad_request

abbrev pub unauthorized : String → AppError
unauthorized = app_error_of unauthorized_error ResponseCodes.unauthorized

abbrev pub forbidden : String → AppError
forbidden = app_error_of forbidden_error ResponseCodes.forbidden

abbrev pub not_found : String → AppError
not_found = app_error_of not_found_error ResponseCodes.not_found

abbrev pub conflict : String → AppError
conflict = app_error_of conflict_error ResponseCodes.conflict

abbrev pub validation : String → AppError
validation = app_error_of validation_error ResponseCodes.unprocessable_entity

abbrev pub too_many_requests : String → AppError
too_many_requests = app_error_of too_many_requests_error ResponseCodes.too_many_requests

abbrev pub internal_server : String → AppError
internal_server = app_error_of internal_server_error ResponseCodes.server_error

-- What a method may throw: an `AppError`, or any other error, of which the program reads only the
-- message.
pub data Exception : Type 0 where
  app : AppError → Exception
  error : String → Exception

abbrev pub message_of : Exception → String
message_of (app e) = e.message
message_of (error m) = m

-- `err instanceof NotFoundError` and the like.
abbrev pub is_bad_request : Exception → Bool
is_bad_request (app e) = elim e.class [ bad_request_error ↦ true | _ ↦ false ]
is_bad_request (error m) = false

abbrev pub is_not_found : Exception → Bool
is_not_found (app e) = elim e.class [ not_found_error ↦ true | _ ↦ false ]
is_not_found (error m) = false

abbrev pub is_unauthorized : Exception → Bool
is_unauthorized (app e) = elim e.class [ unauthorized_error ↦ true | _ ↦ false ]
is_unauthorized (error m) = false

abbrev pub is_conflict : Exception → Bool
is_conflict (app e) = elim e.class [ conflict_error ↦ true | _ ↦ false ]
is_conflict (error m) = false

-- Thrown by a library the program calls, never one of the program's own errors.
abbrev pub IsForeign : Exception → Type 0
IsForeign (app e) = ⊥
IsForeign (error m) = Unit
