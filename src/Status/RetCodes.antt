-- ===== src/Status/RetCodes.antt =====
-- Result codes of the application: `enum class retCode` and its functions, of
-- src/common/include/project/common/status/retcode.h.
use https_http_server.Shared.{ℕ, ◌/◌, Text, codes}
use https_http_server.Status.Codes.{Http, int_to_status}

-- `enum class retCode`; the numbers are those of `retcode_number`.
pub data RetCode : Type 0 where
  success invalid_json_or_params auth_error forbidden not_found : RetCode
  conflict_duplicate_client_order_id invalid_simulation_state rate_limit_exceeded : RetCode
  internal_error insufficient_balance price_or_qty_not_aligned : RetCode
  position_or_order_limit_exceeded unknown_symbol_or_dataset simulation_not_running : RetCode
  client_order_id_already_used session_or_signature_expired invalid_signature : RetCode
  clock_skew_exceeds_recv_window post_only_would_cross request_buffer_overflow : RetCode
  method_not_allowed not_acceptable request_timeout unsupported_media_type : RetCode
  missing_content_length uri_too_long precondition_failed expectation_failed resource_gone : RetCode
  too_many_open_orders request_header_fields_too_large unavailable_for_legal_reasons : RetCode
  not_implemented bad_gateway service_unavailable gateway_timeout insufficient_storage : RetCode

-- `static_cast<unsigned>(code)`
unfoldable pub retcode_number : RetCode → ℕ
retcode_number success = 20000
retcode_number invalid_json_or_params = 40000
retcode_number auth_error = 40100
retcode_number forbidden = 40300
retcode_number not_found = 40400
retcode_number conflict_duplicate_client_order_id = 40900
retcode_number invalid_simulation_state = 42200
retcode_number rate_limit_exceeded = 42900
retcode_number internal_error = 50000
retcode_number insufficient_balance = 40001
retcode_number price_or_qty_not_aligned = 40002
retcode_number position_or_order_limit_exceeded = 42201
retcode_number unknown_symbol_or_dataset = 40401
retcode_number simulation_not_running = 42202
retcode_number client_order_id_already_used = 40901
retcode_number session_or_signature_expired = 40101
retcode_number invalid_signature = 40102
retcode_number clock_skew_exceeds_recv_window = 40103
retcode_number post_only_would_cross = 42203
retcode_number request_buffer_overflow = 41300
retcode_number method_not_allowed = 40500
retcode_number not_acceptable = 40600
retcode_number request_timeout = 40800
retcode_number unsupported_media_type = 41500
retcode_number missing_content_length = 41100
retcode_number uri_too_long = 41400
retcode_number precondition_failed = 41200
retcode_number expectation_failed = 41700
retcode_number resource_gone = 41000
retcode_number too_many_open_orders = 42901
retcode_number request_header_fields_too_large = 43100
retcode_number unavailable_for_legal_reasons = 45100
retcode_number not_implemented = 50100
retcode_number bad_gateway = 50200
retcode_number service_unavailable = 50300
retcode_number gateway_timeout = 50400
retcode_number insufficient_storage = 50700

unfoldable pub to_http_status : RetCode → Http
unfolding int_to_status retcode_number
to_http_status c = int_to_status (retcode_number c / 100)

unfoldable pub ret_mesg : RetCode → Text
ret_mesg success = codes "Success"
ret_mesg invalid_json_or_params = codes "Invalid JSON or parameters"
ret_mesg auth_error = codes "Authorization error"
ret_mesg forbidden = codes "Forbidden (insufficient scope)"
ret_mesg not_found = codes "Resource not found"
ret_mesg conflict_duplicate_client_order_id = codes "Conflict or duplicated clientOrderId"
ret_mesg invalid_simulation_state = codes "Command not valid for current simulation state"
ret_mesg rate_limit_exceeded = codes "Rate limit exceeded"
ret_mesg internal_error = codes "Internal error"
ret_mesg insufficient_balance = codes "Insufficient balance"
ret_mesg price_or_qty_not_aligned = codes "Price/quantity not aligned with tickSize/qtyStep"
ret_mesg position_or_order_limit_exceeded = codes "Position or order size limit exceeded"
ret_mesg unknown_symbol_or_dataset = codes "Unknown symbol or dataset"
ret_mesg simulation_not_running = codes "Simulation is not in Running state"
ret_mesg client_order_id_already_used = codes "clientOrderId already used in this simulation"
ret_mesg session_or_signature_expired = codes "Session/signature expired"
ret_mesg invalid_signature = codes "Invalid signature"
ret_mesg clock_skew_exceeds_recv_window = codes "Clock skew exceeds recvWindow"
ret_mesg post_only_would_cross = codes "PostOnly order would cross the book (WouldCross)"
ret_mesg request_buffer_overflow = codes "Request exceeded receive buffer size"
ret_mesg method_not_allowed = codes "HTTP method not allowed for this endpoint"
ret_mesg not_acceptable = codes "Requested representation not available (Accept header)"
ret_mesg request_timeout = codes "Client took too long to send the request"
ret_mesg unsupported_media_type = codes "Unsupported Content-Type (expected application/json)"
ret_mesg missing_content_length = codes "Content-Length header is required"
ret_mesg uri_too_long = codes "Request URI too long"
ret_mesg precondition_failed = codes "Precondition failed"
ret_mesg expectation_failed = codes "Expectation failed"
ret_mesg resource_gone = codes "Resource permanently removed"
ret_mesg too_many_open_orders = codes "Too many open orders for this account/symbol"
ret_mesg request_header_fields_too_large = codes "Request header fields too large"
ret_mesg unavailable_for_legal_reasons = codes "Unavailable for legal reasons"
ret_mesg not_implemented = codes "Not implemented"
ret_mesg bad_gateway = codes "Upstream matching engine/data feed error"
ret_mesg service_unavailable = codes "Service temporarily unavailable"
ret_mesg gateway_timeout = codes "Upstream matching engine/data feed timeout"
ret_mesg insufficient_storage = codes "Insufficient storage"
