-- ===== src/Http/Status.antt =====
-- ownCloudSDK/HTTP/Status/OCHTTPStatus.h and OCHTTPStatus.m: the status of a response.
pub mod Classes
use ios_sdk_develop.Prelude.{
  ℕ, Bool, true, false, ◌&&◌, ◌==◌, ltb, leb, Option, none, some, List, [], ◌∷◌, Text, codes,
  text_eq, if◌then◌else◌,
}
use ios_sdk_develop.Errors.{NsError, http_status_error_domain}

-- `OCHTTPStatusCode`.
pub data StatusCode : Type 0 where
  ok created no_content partial_content : StatusCode
  multi_status moved_permanently moved_temporarily temporary_redirect : StatusCode
  permanent_redirect bad_request unauthorized forbidden : StatusCode
  not_found method_not_allowed conflict precondition_failed : StatusCode
  payload_too_large locked internal_server_error not_implemented : StatusCode
  bad_gateway service_unavailable insufficient_storage : StatusCode

abbrev pub status_code : StatusCode → ℕ
status_code ok = 200
status_code created = 201
status_code no_content = 204
status_code partial_content = 206
status_code multi_status = 207
status_code moved_permanently = 301
status_code moved_temporarily = 302
status_code temporary_redirect = 307
status_code permanent_redirect = 308
status_code bad_request = 400
status_code unauthorized = 401
status_code forbidden = 403
status_code not_found = 404
status_code method_not_allowed = 405
status_code conflict = 409
status_code precondition_failed = 412
status_code payload_too_large = 413
status_code locked = 423
status_code internal_server_error = 500
status_code not_implemented = 501
status_code bad_gateway = 502
status_code service_unavailable = 503
status_code insufficient_storage = 507

-- The texts of `name`.
abbrev pub known_name : StatusCode → Text
known_name ok = codes "OK"
known_name created = codes "CREATED"
known_name no_content = codes "NO CONTENT"
known_name partial_content = codes "PARTIAL CONTENT"
known_name multi_status = codes "MULTI STATUS"
known_name moved_permanently = codes "MOVED PERMANENTLY"
known_name moved_temporarily = codes "MOVED TEMPORARILY"
known_name temporary_redirect = codes "TEMPORARY REDIRECT"
known_name permanent_redirect = codes "PERMANENT REDIRECT"
known_name bad_request = codes "BAD REQUEST"
known_name unauthorized = codes "UNAUTHORIZED"
known_name forbidden = codes "FORBIDDEN"
known_name not_found = codes "NOT FOUND"
known_name method_not_allowed = codes "METHOD NOT ALLOWED"
known_name conflict = codes "CONFLICT"
known_name precondition_failed = codes "PRECONDITION FAILED"
known_name payload_too_large = codes "PAYLOAD TOO LARGE"
known_name locked = codes "LOCKED"
known_name internal_server_error = codes "INTERNAL SERVER ERROR"
known_name not_implemented = codes "NOT IMPLEMENTED"
known_name bad_gateway = codes "BAD GATEWAY"
known_name service_unavailable = codes "SERVICE UNAVAILABLE"
known_name insufficient_storage = codes "INSUFFICIENT STORAGE"

-- The cases of the `switch` of `name`, in order.
abbrev pub known_codes : List StatusCode
known_codes =
    ok
    ∷ (created
        ∷ (no_content
            ∷ (partial_content
                ∷ (multi_status
                    ∷ (moved_permanently
                        ∷ (moved_temporarily
                            ∷ (temporary_redirect
                                ∷ (permanent_redirect
                                    ∷ (bad_request
                                        ∷ (unauthorized
                                            ∷ (forbidden
                                                ∷ (not_found
                                                    ∷ (method_not_allowed
                                                        ∷ (conflict
                                                            ∷ (precondition_failed
                                                            ∷ (payload_too_large
                                                            ∷ (locked
                                                            ∷ (internal_server_error
                                                            ∷ (not_implemented
                                                            ∷ (bad_gateway
                                                            ∷ (service_unavailable
                                                            ∷ (insufficient_storage
                                                            ∷ []))))))))))))))))))))))

abbrev pub name_among : List StatusCode → ℕ → Text → Text
name_among [] code other = other
name_among (c ∷ cs) code other =
    if status_code c == code then known_name c else name_among cs code other

-- `OCHTTPStatus`.
pub record Status : Type 0 where
  pub code : ℕ

abbrev pub init_with_code : ℕ → Status
init_with_code code = record { code = code }

unfoldable pub is_success : Status → Bool
is_success s = leb 200 s.code && ltb s.code 300

unfoldable pub is_redirection : Status → Bool
is_redirection s = leb 300 s.code && ltb s.code 400

unfoldable pub is_error : Status → Bool
is_error s = leb 400 s.code

-- `name`, with the text that Foundation makes of a number.
unfoldable pub name : (ℕ → Text) → Status → Text
name string_value s = name_among known_codes s.code (string_value s.code)

-- `errorWithURL:`, `errorWithDescription:` and `errorWithResponse:` differ in the key of what they tell.
unfoldable pub error : Option (Text × ℕ) → Status → NsError
error told s = record {
  domain = http_status_error_domain;
  code = s.code;
  user_info = elim told [ none ↦ [] | some p ↦ p ∷ [] ];
  associated_issue = none;
}

-- `IsHTTPErrorWithStatus`.
unfoldable pub is_http_error_with_status : NsError → ℕ → Bool
is_http_error_with_status e status = text_eq e.domain http_status_error_domain && e.code == status

abbrev pub is_equal : Status → Status → Bool
is_equal s t = t.code == s.code
