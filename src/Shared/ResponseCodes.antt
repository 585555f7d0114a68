-- ===== src/Shared/ResponseCodes.antt =====
-- src/shared/constants/ResponseCodes.ts
use advanced_node.Common.{ℕ, String}

pub data ResponseCodes : Type 0 where
  ok created accepted no_content : ResponseCodes
  bad_request unauthorized forbidden not_found method_not_allowed conflict : ResponseCodes
  unprocessable_entity too_many_requests : ResponseCodes
  server_error not_implemented bad_gateway service_unavailable gateway_timeout : ResponseCodes

-- The numeric values of the enum.
unfoldable pub code : ResponseCodes → ℕ
code ok = 200
code created = 201
code accepted = 202
code no_content = 204
code bad_request = 400
code unauthorized = 401
code forbidden = 403
code not_found = 404
code method_not_allowed = 405
code conflict = 409
code unprocessable_entity = 422
code too_many_requests = 429
code server_error = 500
code not_implemented = 501
code bad_gateway = 502
code service_unavailable = 503
code gateway_timeout = 504

unfoldable pub response_messages : ResponseCodes → String
response_messages ok = "Success"
response_messages created = "Resource created successfully"
response_messages accepted = "Request accepted"
response_messages no_content = "No content"
response_messages bad_request = "Bad request"
response_messages unauthorized = "Unauthorized"
response_messages forbidden = "Forbidden"
response_messages not_found = "Resource not found"
response_messages method_not_allowed = "Method not allowed"
response_messages conflict = "Resource conflict"
response_messages unprocessable_entity = "Unprocessable entity"
response_messages too_many_requests = "Too many requests"
response_messages server_error = "Internal server error"
response_messages not_implemented = "Not implemented"
response_messages bad_gateway = "Bad gateway"
response_messages service_unavailable = "Service unavailable"
response_messages gateway_timeout = "Gateway timeout"
