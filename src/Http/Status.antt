-- ===== src/Http/Status.antt =====
-- Typed status codes and their reason phrases:
-- include/sparenode/http/http_status_code.hpp and src/http/http_status_code.cpp.
use spare_node.Base.{ℕ, List, [], ◌∷◌, Option, none, some, Bytes, ltb, ◌==◌, if◌then◌else◌, codes}

-- The enumeration; `unlisted` stands for the values of its `std::uint16_t` that no enumerator names.
pub data StatusCode : Type 0 where
  continue_request switching_protocols processing early_hints : StatusCode
  ok created accepted non_authoritative_information : StatusCode
  no_content reset_content partial_content multi_status : StatusCode
  already_reported im_used multiple_choices moved_permanently : StatusCode
  found see_other not_modified use_proxy : StatusCode
  temporary_redirect permanent_redirect bad_request unauthorized : StatusCode
  payment_required forbidden not_found method_not_allowed : StatusCode
  not_acceptable proxy_authentication_required request_timeout conflict : StatusCode
  gone length_required precondition_failed content_too_large : StatusCode
  uri_too_long unsupported_media_type range_not_satisfiable expectation_failed : StatusCode
  im_a_teapot misdirected_request unprocessable_content locked : StatusCode
  failed_dependency too_early upgrade_required precondition_required : StatusCode
  too_many_requests request_header_fields_too_large unavailable_for_legal_reasons
        internal_server_error :
      StatusCode
  not_implemented bad_gateway service_unavailable gateway_timeout : StatusCode
  http_version_not_supported variant_also_negotiates insufficient_storage loop_detected : StatusCode
  not_extended network_authentication_required : StatusCode
  unlisted : ℕ → StatusCode

unfoldable pub http_status_code_value : StatusCode → ℕ
http_status_code_value continue_request = 100
http_status_code_value switching_protocols = 101
http_status_code_value processing = 102
http_status_code_value early_hints = 103
http_status_code_value ok = 200
http_status_code_value created = 201
http_status_code_value accepted = 202
http_status_code_value non_authoritative_information = 203
http_status_code_value no_content = 204
http_status_code_value reset_content = 205
http_status_code_value partial_content = 206
http_status_code_value multi_status = 207
http_status_code_value already_reported = 208
http_status_code_value im_used = 226
http_status_code_value multiple_choices = 300
http_status_code_value moved_permanently = 301
http_status_code_value found = 302
http_status_code_value see_other = 303
http_status_code_value not_modified = 304
http_status_code_value use_proxy = 305
http_status_code_value temporary_redirect = 307
http_status_code_value permanent_redirect = 308
http_status_code_value bad_request = 400
http_status_code_value unauthorized = 401
http_status_code_value payment_required = 402
http_status_code_value forbidden = 403
http_status_code_value not_found = 404
http_status_code_value method_not_allowed = 405
http_status_code_value not_acceptable = 406
http_status_code_value proxy_authentication_required = 407
http_status_code_value request_timeout = 408
http_status_code_value conflict = 409
http_status_code_value gone = 410
http_status_code_value length_required = 411
http_status_code_value precondition_failed = 412
http_status_code_value content_too_large = 413
http_status_code_value uri_too_long = 414
http_status_code_value unsupported_media_type = 415
http_status_code_value range_not_satisfiable = 416
http_status_code_value expectation_failed = 417
http_status_code_value im_a_teapot = 418
http_status_code_value misdirected_request = 421
http_status_code_value unprocessable_content = 422
http_status_code_value locked = 423
http_status_code_value failed_dependency = 424
http_status_code_value too_early = 425
http_status_code_value upgrade_required = 426
http_status_code_value precondition_required = 428
http_status_code_value too_many_requests = 429
http_status_code_value request_header_fields_too_large = 431
http_status_code_value unavailable_for_legal_reasons = 451
http_status_code_value internal_server_error = 500
http_status_code_value not_implemented = 501
http_status_code_value bad_gateway = 502
http_status_code_value service_unavailable = 503
http_status_code_value gateway_timeout = 504
http_status_code_value http_version_not_supported = 505
http_status_code_value variant_also_negotiates = 506
http_status_code_value insufficient_storage = 507
http_status_code_value loop_detected = 508
http_status_code_value not_extended = 510
http_status_code_value network_authentication_required = 511
http_status_code_value (unlisted value) = value

abbrev pub reason_phrases : List (StatusCode × Bytes)
reason_phrases =
    (continue_request, codes "Continue")
    ∷ (switching_protocols, codes "Switching Protocols")
    ∷ (processing, codes "Processing")
    ∷ (early_hints, codes "Early Hints")
    ∷ (ok, codes "OK")
    ∷ (created, codes "Created")
    ∷ (accepted, codes "Accepted")
    ∷ (non_authoritative_information, codes "Non-Authoritative Information")
    ∷ (no_content, codes "No Content")
    ∷ (reset_content, codes "Reset Content")
    ∷ (partial_content, codes "Partial Content")
    ∷ (multi_status, codes "Multi-Status")
    ∷ (already_reported, codes "Already Reported")
    ∷ (im_used, codes "IM Used")
    ∷ (multiple_choices, codes "Multiple Choices")
    ∷ (moved_permanently, codes "Moved Permanently")
    ∷ (found, codes "Found")
    ∷ (see_other, codes "See Other")
    ∷ (not_modified, codes "Not Modified")
    ∷ (use_proxy, codes "Use Proxy")
    ∷ (temporary_redirect, codes "Temporary Redirect")
    ∷ (permanent_redirect, codes "Permanent Redirect")
    ∷ (bad_request, codes "Bad Request")
    ∷ (unauthorized, codes "Unauthorized")
    ∷ (payment_required, codes "Payment Required")
    ∷ (forbidden, codes "Forbidden")
    ∷ (not_found, codes "Not Found")
    ∷ (method_not_allowed, codes "Method Not Allowed")
    ∷ (not_acceptable, codes "Not Acceptable")
    ∷ (proxy_authentication_required, codes "Proxy Authentication Required")
    ∷ (request_timeout, codes "Request Timeout")
    ∷ (conflict, codes "Conflict")
    ∷ (gone, codes "Gone")
    ∷ (length_required, codes "Length Required")
    ∷ (precondition_failed, codes "Precondition Failed")
    ∷ (content_too_large, codes "Content Too Large")
    ∷ (uri_too_long, codes "URI Too Long")
    ∷ (unsupported_media_type, codes "Unsupported Media Type")
    ∷ (range_not_satisfiable, codes "Range Not Satisfiable")
    ∷ (expectation_failed, codes "Expectation Failed")
    ∷ (im_a_teapot, codes "I'm a Teapot")
    ∷ (misdirected_request, codes "Misdirected Request")
    ∷ (unprocessable_content, codes "Unprocessable Content")
    ∷ (locked, codes "Locked")
    ∷ (failed_dependency, codes "Failed Dependency")
    ∷ (too_early, codes "Too Early")
    ∷ (upgrade_required, codes "Upgrade Required")
    ∷ (precondition_required, codes "Precondition Required")
    ∷ (too_many_requests, codes "Too Many Requests")
    ∷ (request_header_fields_too_large, codes "Request Header Fields Too Large")
    ∷ (unavailable_for_legal_reasons, codes "Unavailable For Legal Reasons")
    ∷ (internal_server_error, codes "Internal Server Error")
    ∷ (not_implemented, codes "Not Implemented")
    ∷ (bad_gateway, codes "Bad Gateway")
    ∷ (service_unavailable, codes "Service Unavailable")
    ∷ (gateway_timeout, codes "Gateway Timeout")
    ∷ (http_version_not_supported, codes "HTTP Version Not Supported")
    ∷ (variant_also_negotiates, codes "Variant Also Negotiates")
    ∷ (insufficient_storage, codes "Insufficient Storage")
    ∷ (loop_detected, codes "Loop Detected")
    ∷ (not_extended, codes "Not Extended")
    ∷ (network_authentication_required, codes "Network Authentication Required")
    ∷ []

-- `std::lower_bound` over the sorted table: its first entry that is not below the status.
unfoldable pub lower_bound : List (StatusCode × Bytes) → StatusCode → Option (StatusCode × Bytes)
unfolding http_status_code_value
lower_bound [] status = none
lower_bound (e ∷ entries) status =
    let rest = lower_bound entries status in
    if ltb (http_status_code_value e.0) (http_status_code_value status) then rest else some e

unfoldable pub phrase_of : Option (StatusCode × Bytes) → StatusCode → Bytes
unfolding http_status_code_value
phrase_of none status = codes "Unknown Status"
phrase_of (some e) status =
    if http_status_code_value e.0 == http_status_code_value status
    then e.1
    else codes "Unknown Status"

unfoldable pub http_reason_phrase : StatusCode → Bytes
unfolding lower_bound phrase_of
http_reason_phrase status = phrase_of (lower_bound reason_phrases status) status
