-- ===== src/Http/Status/Classes.antt =====
-- The classes of statuses, and the errors made of them.
use ios_sdk_develop.Prelude.{ℕ, ◌≡◌, refl, false, ◌&&◌, ◌||◌, ◌==◌, leb, Option, Text, arith}
use ios_sdk_develop.Errors.{is_oc_error, is_authentication_error}
use ios_sdk_develop.Http.Status.{
  Status, StatusCode, status_code, known_name, init_with_code, unauthorized, ok, created,
  no_content, partial_content, multi_status, moved_permanently, moved_temporarily,
  temporary_redirect, permanent_redirect, bad_request, forbidden, not_found, method_not_allowed,
  conflict, precondition_failed, payload_too_large, locked, internal_server_error, not_implemented,
  bad_gateway, service_unavailable, insufficient_storage, is_success, is_redirection, is_error,
  name, error, is_http_error_with_status,
}

-- A status from 200 on is a success, a redirection or an error, and only one of these; a lower one is
-- none of them.
pub is_success-or_other :
    (s : Status)
    → ((is_success s || (is_redirection s || is_error s)) ≡ leb 200 s.code)
      × ((is_success s && (is_redirection s || is_error s)) ≡ false)
      × ((is_redirection s && is_error s) ≡ false)
unfolding is_success is_redirection is_error
is_success-or_other s = (ground arith, ground arith, ground arith)

-- The error that is made of a status is recognized as one with this status and with no other, and is an
-- error of authentication exactly if the status is 401; it is no error of the SDK's own domain.
pub is_http_error_with_status-error :
    (s : Status) (told : Option (Text × ℕ)) (status : ℕ)
    → (is_http_error_with_status (error told s) status ≡ (s.code == status))
      × (is_authentication_error (error told s) ≡ (s.code == status_code unauthorized))
      × (is_oc_error (error told s) ≡ false)
unfolding is_http_error_with_status error is_authentication_error is_oc_error
is_http_error_with_status-error s told status = (refl, refl, refl)

-- The name of each listed status is its own text, and other codes are named by their digits.
pub name-known :
    (string_value : ℕ → Text) (c : StatusCode)
    → name string_value (init_with_code (status_code c)) ≡ known_name c
unfolding name
name-known string_value ok = refl
name-known string_value created = refl
name-known string_value no_content = refl
name-known string_value partial_content = refl
name-known string_value multi_status = refl
name-known string_value moved_permanently = refl
name-known string_value moved_temporarily = refl
name-known string_value temporary_redirect = refl
name-known string_value permanent_redirect = refl
name-known string_value bad_request = refl
name-known string_value unauthorized = refl
name-known string_value forbidden = refl
name-known string_value not_found = refl
name-known string_value method_not_allowed = refl
name-known string_value conflict = refl
name-known string_value precondition_failed = refl
name-known string_value payload_too_large = refl
name-known string_value locked = refl
name-known string_value internal_server_error = refl
name-known string_value not_implemented = refl
name-known string_value bad_gateway = refl
name-known string_value service_unavailable = refl
name-known string_value insufficient_storage = refl
