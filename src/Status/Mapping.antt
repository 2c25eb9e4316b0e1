-- ===== src/Status/Mapping.antt =====
-- How the three enumerations of src/common fit together.
use https_http_server.Shared.{
  ℕ, ◌≡◌, refl, sym, ◌∙◌, ap, ◌↔◌, ◌≢◌, ◌⊎◌, inl, inr, List, [], ◌∷◌, Bool, true, false, arith,
  Text, if◌then◌else◌, text_eq,
}
use https_http_server.Status.Codes.{
  Http, StatusClass, code, labels, find_label, int_to_status, status_class, obsolete_reason,
}
use https_http_server.Status.RetCodes.{RetCode, to_http_status}
use https_http_server.Status.LogLevels.{
  Log, level_number, to_log_of_number, to_log_of_status, to_log_of_retcode, important_log,
}

int_to_status-code : (s : Http) → int_to_status (code s) ≡ s
unfolding int_to_status
int_to_status-code Http.unknown = refl
int_to_status-code _ = refl

find_label-cases :
    (v : ℕ) (ss : List Http) → (find_label v ss ≡ Http.unknown) ⊎ (code (find_label v ss) ≡ v)
unfolding find_label
find_label-cases v [] = inl refl
find_label-cases v (s ∷ ss) = ground (arith, find_label-cases v ss)

int_to_status-cases : (v : ℕ) → (int_to_status v ≡ Http.unknown) ⊎ (code (int_to_status v) ≡ v)
unfolding int_to_status
int_to_status-cases v = find_label-cases v labels

-- At every status but `unknown`, `int_to_status` gives that status exactly for its own number.
pub int_to_status_iff : (v : ℕ) (s : Http) → s ≢ Http.unknown → (int_to_status v ≡ s) ↔ (v ≡ code s)
int_to_status_iff v s h = (
  λ e. elim (int_to_status-cases v) [ inl u ↦ absurd (h (sym e ∙ u)) | inr c ↦ sym c ∙ ap code e ],
  λ e. ap int_to_status e ∙ int_to_status-code s,
)

-- The HTTP status that the comment beside each result code names (`retcode.h`, the `// HTTP nnn`
-- comments; of the three at `Success` the first).
abbrev pub documented : RetCode → Http
documented RetCode.success = Http.ok
documented RetCode.invalid_json_or_params = Http.bad_request
documented RetCode.auth_error = Http.unauthorized
documented RetCode.forbidden = Http.forbidden
documented RetCode.not_found = Http.not_found
documented RetCode.conflict_duplicate_client_order_id = Http.conflict
documented RetCode.invalid_simulation_state = Http.unprocessable_entity
documented RetCode.rate_limit_exceeded = Http.too_many_requests
documented RetCode.internal_error = Http.internal_server_error
documented RetCode.insufficient_balance = Http.bad_request
documented RetCode.price_or_qty_not_aligned = Http.bad_request
documented RetCode.position_or_order_limit_exceeded = Http.unprocessable_entity
documented RetCode.unknown_symbol_or_dataset = Http.not_found
documented RetCode.simulation_not_running = Http.unprocessable_entity
documented RetCode.client_order_id_already_used = Http.conflict
documented RetCode.session_or_signature_expired = Http.unauthorized
documented RetCode.invalid_signature = Http.unauthorized
documented RetCode.clock_skew_exceeds_recv_window = Http.unauthorized
documented RetCode.post_only_would_cross = Http.unprocessable_entity
documented RetCode.request_buffer_overflow = Http.payload_too_large
documented RetCode.method_not_allowed = Http.method_not_allowed
documented RetCode.not_acceptable = Http.not_acceptable
documented RetCode.request_timeout = Http.request_timeout
documented RetCode.unsupported_media_type = Http.unsupported_media_type
documented RetCode.missing_content_length = Http.length_required
documented RetCode.uri_too_long = Http.uri_too_long
documented RetCode.precondition_failed = Http.precondition_failed
documented RetCode.expectation_failed = Http.expectation_failed
documented RetCode.resource_gone = Http.gone
documented RetCode.too_many_open_orders = Http.too_many_requests
documented RetCode.request_header_fields_too_large = Http.request_header_fields_too_large
documented RetCode.unavailable_for_legal_reasons = Http.unavailable_for_legal_reasons
documented RetCode.not_implemented = Http.not_implemented
documented RetCode.bad_gateway = Http.bad_gateway
documented RetCode.service_unavailable = Http.service_unavailable
documented RetCode.gateway_timeout = Http.gateway_timeout
documented RetCode.insufficient_storage = Http.insufficient_storage

-- The arithmetic of `to_http_status` gives, for each result code, the status that its comment names.
pub to_http_status-documented : (c : RetCode) → to_http_status c ≡ documented c
unfolding to_http_status
to_http_status-documented RetCode.success = refl
to_http_status-documented _ = refl

-- A result code is logged at the level of the HTTP status that it is answered with: the overloads
-- of `to_log` agree along `to_http_status`.
pub to_log-to_http_status :
    (c : RetCode) → to_log_of_status (to_http_status c) ≡ to_log_of_retcode c
unfolding to_http_status to_log_of_status to_log_of_retcode
to_log-to_http_status RetCode.success = refl
to_log-to_http_status _ = refl

abbrev pub is_failure : StatusClass → Bool
is_failure StatusClass.client_error = true
is_failure StatusClass.server_error = true
is_failure StatusClass.unknown = true
is_failure _ = false

-- The statuses that are logged at an important level are the client errors, the server errors and
-- the unknown status.
pub important_log-status_class :
    (s : Http) → important_log (to_log_of_status s) ≡ is_failure (status_class s)
unfolding important_log to_log_of_status status_class
important_log-status_class Http.unknown = refl
important_log-status_class _ = refl

-- The status whose reason phrase is `t`: a reader's table.
status_of_reason : Text → List Http → Http
status_of_reason t [] = Http.unknown
status_of_reason t (s ∷ ss) = if text_eq (obsolete_reason s) t then s else status_of_reason t ss

status_of_reason_lem : (s : Http) → status_of_reason (obsolete_reason s) labels ≡ s
unfolding status_of_reason obsolete_reason text_eq
status_of_reason_lem Http.unknown = refl
status_of_reason_lem _ = refl

-- No two statuses print the same reason phrase.
pub obsolete_reason-injective : (s t : Http) → obsolete_reason s ≡ obsolete_reason t → s ≡ t
obsolete_reason-injective s t e =
    sym (status_of_reason_lem s) ∙ (ap (λ r. status_of_reason r labels) e ∙ status_of_reason_lem t)

-- Reading a level's number gives the level back.
pub to_log_of_number-level_number : (l : Log) → to_log_of_number (level_number l) ≡ l
unfolding to_log_of_number level_number
to_log_of_number-level_number Log.unknown = refl
to_log_of_number-level_number _ = refl
