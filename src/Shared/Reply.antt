-- ===== src/Shared/Reply.antt =====
-- src/shared/middleware/responseEnhancer.ts and src/shared/types/ApiResponse.ts; the error handler
-- that src/services/order/app.ts and src/services/inventory/app.ts install.
use advanced_node.Common.{ℕ, String, Option, none, some, ◌==◌, if◌then◌else◌}
use advanced_node.Shared.ResponseCodes.{
  ResponseCodes, ok, created, accepted, no_content, bad_request, unauthorized, forbidden, not_found,
  conflict, unprocessable_entity, too_many_requests, server_error, code, response_messages,
}
use advanced_node.Shared.Errors.{Exception, app, error}

-- `a || b` on texts: the empty text is false.
abbrev pub or_text : String → String → String
or_text a b = if a == "" then b else a

abbrev pub or_text? : Option String → String → String
or_text? none b = b
or_text? (some a) b = or_text a b

-- `Partial<ApiResponse<D>>`, without `status`, which no reply reads.
pub record Payload (D : Type 0) : Type 0 where
  pub message : Option String
  pub content : Option D
  pub error : Option String

-- `content`, the source's `data`, is `none` for the empty object `{}`.
pub record ApiResponse (D : Type 0) : Type 0 where
  pub status : ℕ
  pub message : String
  pub content : Option D
  pub error : String

pub record Reply (D : Type 0) : Type 0 where
  pub status_code : ℕ
  pub body : Option (ApiResponse D)

-- The methods that the plugin adds to a reply and that take a payload.
pub data ReplyMethod : Type 0 where
  send_ok send_created send_accepted send_bad_request send_unauthorized : ReplyMethod
  send_forbidden send_not_found send_conflict send_unprocessable_entity : ReplyMethod
  send_too_many_requests send_server_error : ReplyMethod

abbrev pub method_status : ReplyMethod → ResponseCodes
method_status send_ok = ok
method_status send_created = created
method_status send_accepted = accepted
method_status send_bad_request = bad_request
method_status send_unauthorized = unauthorized
method_status send_forbidden = forbidden
method_status send_not_found = not_found
method_status send_conflict = conflict
method_status send_unprocessable_entity = unprocessable_entity
method_status send_too_many_requests = too_many_requests
method_status send_server_error = server_error

module _ {D : Type 0} where
  unfoldable pub build_response : ResponseCodes → Payload D → ApiResponse D
  unfolding code response_messages
  build_response status payload = record {
    status = code status;
    message = or_text? payload.message (response_messages status);
    content = payload.content;
    error = or_text? payload.error "";
  }

  -- `this.code(status).send(buildResponse(status, payload))` for each method.
  unfoldable pub decorate_reply : ReplyMethod → Payload D → Reply D
  unfolding build_response
  decorate_reply m payload = record {
    status_code = code (method_status m);
    body = some (build_response (method_status m) payload);
  }

  unfoldable pub no_content_reply : Reply D
  unfolding code
  no_content_reply = record { status_code = code no_content; body = none }

  -- What an error that no handler of a route caught is answered with.
  unfoldable pub handle_error : Exception → Reply D
  unfolding code
  handle_error (app e) = record {
    status_code = code e.status_code;
    body = some (record {
      status = code e.status_code;
      message = or_text e.message "Internal server error";
      content = none;
      error = or_text e.message "Internal server error";
    });
  }
  handle_error (error m) = record {
    status_code = 500;
    body = some (record {
      status = 500;
      message = or_text m "Internal server error";
      content = none;
      error = or_text m "Internal server error";
    });
  }
