-- ===== src/Status/Codes.antt =====
-- HTTP status codes: `enum class http` and its functions, of
-- src/common/include/project/common/status/http.h and src/common/src/status/http.cc.
use https_http_server.Shared.{ℕ, ◌/◌, List, [], ◌∷◌, ◌==◌, if◌then◌else◌, Text, codes}

-- `enum class http`; the numbers are those of `code`.
pub data Http : Type 0 where
  unknown continue_ switching_protocols processing early_hints ok created accepted : Http
  non_authoritative_information no_content reset_content partial_content multi_status : Http
  already_reported im_used multiple_choices moved_permanently found see_other not_modified : Http
  use_proxy temporary_redirect permanent_redirect bad_request unauthorized payment_required : Http
  forbidden not_found method_not_allowed not_acceptable proxy_authentication_required : Http
  request_timeout conflict gone length_required precondition_failed payload_too_large : Http
  uri_too_long unsupported_media_type range_not_satisfiable expectation_failed : Http
  i_am_a_teapot misdirected_request unprocessable_entity locked failed_dependency too_early : Http
  upgrade_required precondition_required too_many_requests request_header_fields_too_large : Http
  unavailable_for_legal_reasons internal_server_error not_implemented bad_gateway : Http
  service_unavailable gateway_timeout http_version_not_supported variant_also_negotiates : Http
  insufficient_storage loop_detected not_extended network_authentication_required : Http

-- `static_cast<unsigned>(v)`
unfoldable pub code : Http → ℕ
code unknown = 0
code continue_ = 100
code switching_protocols = 101
code processing = 102
code early_hints = 103
code ok = 200
code created = 201
code accepted = 202
code non_authoritative_information = 203
code no_content = 204
code reset_content = 205
code partial_content = 206
code multi_status = 207
code already_reported = 208
code im_used = 226
code multiple_choices = 300
code moved_permanently = 301
code found = 302
code see_other = 303
code not_modified = 304
code use_proxy = 305
code temporary_redirect = 307
code permanent_redirect = 308
code bad_request = 400
code unauthorized = 401
code payment_required = 402
code forbidden = 403
code not_found = 404
code method_not_allowed = 405
code not_acceptable = 406
code proxy_authentication_required = 407
code request_timeout = 408
code conflict = 409
code gone = 410
code length_required = 411
code precondition_failed = 412
code payload_too_large = 413
code uri_too_long = 414
code unsupported_media_type = 415
code range_not_satisfiable = 416
code expectation_failed = 417
code i_am_a_teapot = 418
code misdirected_request = 421
code unprocessable_entity = 422
code locked = 423
code failed_dependency = 424
code too_early = 425
code upgrade_required = 426
code precondition_required = 428
code too_many_requests = 429
code request_header_fields_too_large = 431
code unavailable_for_legal_reasons = 451
code internal_server_error = 500
code not_implemented = 501
code bad_gateway = 502
code service_unavailable = 503
code gateway_timeout = 504
code http_version_not_supported = 505
code variant_also_negotiates = 506
code insufficient_storage = 507
code loop_detected = 508
code not_extended = 510
code network_authentication_required = 511

-- The case labels of the switch of `int_to_status`, in its order.
abbrev pub labels : List Http
labels =
    continue_ ∷ switching_protocols ∷ processing ∷ early_hints ∷ ok ∷ created ∷ accepted
    ∷ non_authoritative_information ∷ no_content ∷ reset_content ∷ partial_content ∷ multi_status
    ∷ already_reported ∷ im_used ∷ multiple_choices ∷ moved_permanently ∷ found ∷ see_other
    ∷ not_modified ∷ use_proxy ∷ temporary_redirect ∷ permanent_redirect ∷ bad_request
    ∷ unauthorized ∷ payment_required ∷ forbidden ∷ not_found ∷ method_not_allowed ∷ not_acceptable
    ∷ proxy_authentication_required ∷ request_timeout ∷ conflict ∷ gone ∷ length_required
    ∷ precondition_failed ∷ payload_too_large ∷ uri_too_long ∷ unsupported_media_type
    ∷ range_not_satisfiable ∷ expectation_failed ∷ i_am_a_teapot ∷ misdirected_request
    ∷ unprocessable_entity ∷ locked ∷ failed_dependency ∷ too_early ∷ upgrade_required
    ∷ precondition_required ∷ too_many_requests ∷ request_header_fields_too_large
    ∷ unavailable_for_legal_reasons ∷ internal_server_error ∷ not_implemented ∷ bad_gateway
    ∷ service_unavailable ∷ gateway_timeout ∷ http_version_not_supported ∷ variant_also_negotiates
    ∷ insufficient_storage ∷ loop_detected ∷ not_extended ∷ network_authentication_required ∷ []

-- The switch: the label whose number is `v`, else what stands after the switch.
unfoldable pub find_label : ℕ → List Http → Http
find_label v [] = unknown
find_label v (s ∷ ss) = if code s == v then s else find_label v ss

unfoldable pub int_to_status : ℕ → Http
unfolding find_label code
int_to_status v = find_label v labels

pub data StatusClass : Type 0 where
  unknown informational successful redirection client_error server_error : StatusClass

class_of : ℕ → StatusClass
class_of d =
    if d == 1
    then StatusClass.informational
    else if d == 2
    then StatusClass.successful
    else if d == 3
    then StatusClass.redirection
    else if d == 4
    then StatusClass.client_error
    else if d == 5
    then StatusClass.server_error
    else StatusClass.unknown

-- `to_status_class(unsigned v)`
unfoldable pub to_status_class : ℕ → StatusClass
unfolding class_of
to_status_class v = class_of (v / 100)

-- `to_status_class(http v)`
unfoldable pub status_class : Http → StatusClass
unfolding to_status_class code
status_class v = to_status_class (code v)

-- `obsolete_reason(http v)`
unfoldable pub obsolete_reason : Http → Text
obsolete_reason unknown = codes "<unknown-status>"
obsolete_reason continue_ = codes "Continue"
obsolete_reason switching_protocols = codes "Switching Protocols"
obsolete_reason processing = codes "Processing"
obsolete_reason early_hints = codes "Early Hints"
obsolete_reason ok = codes "OK"
obsolete_reason created = codes "Created"
obsolete_reason accepted = codes "Accepted"
obsolete_reason non_authoritative_information = codes "Non-Authoritative Information"
obsolete_reason no_content = codes "No Content"
obsolete_reason reset_content = codes "Reset Content"
obsolete_reason partial_content = codes "Partial Content"
obsolete_reason multi_status = codes "Multi-Status"
obsolete_reason already_reported = codes "Already Reported"
obsolete_reason im_used = codes "IM Used"
obsolete_reason multiple_choices = codes "Multiple Choices"
obsolete_reason moved_permanently = codes "Moved Permanently"
obsolete_reason found = codes "Found"
obsolete_reason see_other = codes "See Other"
obsolete_reason not_modified = codes "Not Modified"
obsolete_reason use_proxy = codes "Use Proxy"
obsolete_reason temporary_redirect = codes "Temporary Redirect"
obsolete_reason permanent_redirect = codes "Permanent Redirect"
obsolete_reason bad_request = codes "Bad Request"
obsolete_reason unauthorized = codes "Unauthorized"
obsolete_reason payment_required = codes "Payment Required"
obsolete_reason forbidden = codes "Forbidden"
obsolete_reason not_found = codes "Not Found"
obsolete_reason method_not_allowed = codes "Method Not Allowed"
obsolete_reason not_acceptable = codes "Not Acceptable"
obsolete_reason proxy_authentication_required = codes "Proxy Authentication Required"
obsolete_reason request_timeout = codes "Request Timeout"
obsolete_reason conflict = codes "Conflict"
obsolete_reason gone = codes "Gone"
obsolete_reason length_required = codes "Length Required"
obsolete_reason precondition_failed = codes "Precondition Failed"
obsolete_reason payload_too_large = codes "Payload Too Large"
obsolete_reason uri_too_long = codes "URI Too Long"
obsolete_reason unsupported_media_type = codes "Unsupported Media Type"
obsolete_reason range_not_satisfiable = codes "Range Not Satisfiable"
obsolete_reason expectation_failed = codes "Expectation Failed"
obsolete_reason i_am_a_teapot = codes "I'm a teapot"
obsolete_reason misdirected_request = codes "Misdirected Request"
obsolete_reason unprocessable_entity = codes "Unprocessable Entity"
obsolete_reason locked = codes "Locked"
obsolete_reason failed_dependency = codes "Failed Dependency"
obsolete_reason too_early = codes "Too Early"
obsolete_reason upgrade_required = codes "Upgrade Required"
obsolete_reason precondition_required = codes "Precondition Required"
obsolete_reason too_many_requests = codes "Too Many Requests"
obsolete_reason request_header_fields_too_large = codes "Request Header Fields Too Large"
obsolete_reason unavailable_for_legal_reasons = codes "Unavailable For Legal Reasons"
obsolete_reason internal_server_error = codes "Internal Server Error"
obsolete_reason not_implemented = codes "Not Implemented"
obsolete_reason bad_gateway = codes "Bad Gateway"
obsolete_reason service_unavailable = codes "Service Unavailable"
obsolete_reason gateway_timeout = codes "Gateway Timeout"
obsolete_reason http_version_not_supported = codes "HTTP Version Not Supported"
obsolete_reason variant_also_negotiates = codes "Variant Also Negotiates"
obsolete_reason insufficient_storage = codes "Insufficient Storage"
obsolete_reason loop_detected = codes "Loop Detected"
obsolete_reason not_extended = codes "Not Extended"
obsolete_reason network_authentication_required = codes "Network Authentication Required"
