-- ===== src/Errors.antt =====
-- ownCloudSDK/Errors/NSError+OCError.h and NSError+OCError.m: the errors of the SDK, as the codes of an
-- NSError of their domain. The texts are those before localization.
pub mod Dated
pub mod Dav
use ios_sdk_develop.Prelude.{
  ℕ, Bool, true, false, ◌&&◌, ◌||◌, Option, none, some, List, [], ◌∷◌, ◌==◌, Text, codes, text_eq,
  lookup, with_key,
}

-- `OCError`.
pub data OcError : Type 0 where
  internal insufficient_parameters unknown authorization_failed : OcError
  authorization_redirect authorization_no_method_data authorization_missing_data
        authorization_cancelled :
      OcError
  request_url_session_task_construction_failed request_cancelled request_removed_before_scheduling
        request_server_certificate_rejected :
      OcError
  request_dropped_by_url_session request_completed_with_error request_url_session_invalidated
        exception :
      OcError
  response_unknown_format server_detection_failed server_too_many_redirects server_bad_redirection :
      OcError
  server_version_not_supported server_no_supported_auth_methods server_in_maintenance_mode
        certificate_invalid :
      OcError
  certificate_missing feature_not_supported_for_item feature_not_supported_by_server
        feature_not_implemented :
      OcError
  item_not_found item_destination_not_found item_changed item_insufficient_permissions : OcError
  item_operation_forbidden item_already_exists item_not_available_offline file_not_found : OcError
  sync_record_not_found newer_version_exists cancelled outdated_cache : OcError
  running_operation invalid_process share_unauthorized share_unavailable : OcError
  share_item_not_a_directory share_item_not_found share_not_found share_unknown_type : OcError
  share_public_upload_disabled insufficient_storage not_available_offline authorization_retry :
      OcError
  item_policy_redundant item_policy_makes_redundant unnormalized_path private_link_invalid_format :
      OcError
  private_link_resolution_failed authorization_method_not_allowed authorization_method_unknown
        server_connection_validation_failed :
      OcError
  authorization_client_registration_failed authorization_not_matching_required_user_id
        database_migration_required host_update_required :
      OcError
  authorization_cant_open_custom_scheme_url lock_invalidated
        web_finger_lacks_server_instance_relation unknown_user :
      OcError
  request_timeout : OcError

-- The code, counted from 0 in the order of the enumeration.
abbrev pub error_code : OcError → ℕ
error_code internal = 0
error_code insufficient_parameters = 1
error_code unknown = 2
error_code authorization_failed = 3
error_code authorization_redirect = 4
error_code authorization_no_method_data = 5
error_code authorization_missing_data = 6
error_code authorization_cancelled = 7
error_code request_url_session_task_construction_failed = 8
error_code request_cancelled = 9
error_code request_removed_before_scheduling = 10
error_code request_server_certificate_rejected = 11
error_code request_dropped_by_url_session = 12
error_code request_completed_with_error = 13
error_code request_url_session_invalidated = 14
error_code exception = 15
error_code response_unknown_format = 16
error_code server_detection_failed = 17
error_code server_too_many_redirects = 18
error_code server_bad_redirection = 19
error_code server_version_not_supported = 20
error_code server_no_supported_auth_methods = 21
error_code server_in_maintenance_mode = 22
error_code certificate_invalid = 23
error_code certificate_missing = 24
error_code feature_not_supported_for_item = 25
error_code feature_not_supported_by_server = 26
error_code feature_not_implemented = 27
error_code item_not_found = 28
error_code item_destination_not_found = 29
error_code item_changed = 30
error_code item_insufficient_permissions = 31
error_code item_operation_forbidden = 32
error_code item_already_exists = 33
error_code item_not_available_offline = 34
error_code file_not_found = 35
error_code sync_record_not_found = 36
error_code newer_version_exists = 37
error_code cancelled = 38
error_code outdated_cache = 39
error_code running_operation = 40
error_code invalid_process = 41
error_code share_unauthorized = 42
error_code share_unavailable = 43
error_code share_item_not_a_directory = 44
error_code share_item_not_found = 45
error_code share_not_found = 46
error_code share_unknown_type = 47
error_code share_public_upload_disabled = 48
error_code insufficient_storage = 49
error_code not_available_offline = 50
error_code authorization_retry = 51
error_code item_policy_redundant = 52
error_code item_policy_makes_redundant = 53
error_code unnormalized_path = 54
error_code private_link_invalid_format = 55
error_code private_link_resolution_failed = 56
error_code authorization_method_not_allowed = 57
error_code authorization_method_unknown = 58
error_code server_connection_validation_failed = 59
error_code authorization_client_registration_failed = 60
error_code authorization_not_matching_required_user_id = 61
error_code database_migration_required = 62
error_code host_update_required = 63
error_code authorization_cant_open_custom_scheme_url = 64
error_code lock_invalidated = 65
error_code web_finger_lacks_server_instance_relation = 66
error_code unknown_user = 67
error_code request_timeout = 68

-- `OCErrorDomain` and `OCHTTPStatusErrorDomain`.
abbrev pub error_domain : Text
error_domain = codes "OCError"

abbrev pub http_status_error_domain : Text
http_status_error_domain = codes "OCHTTPStatusErrorDomain"

-- An NSError: its domain, its code, what else it tells by key, and the issue that is associated with it. Values are
-- known by their address, dates are seconds.
pub record NsError : Type 0 where
  pub domain : Text
  pub code : ℕ
  pub user_info : List (Text × ℕ)
  pub associated_issue : Option ℕ

unfoldable pub error_with_oc_error : OcError → List (Text × ℕ) → NsError
error_with_oc_error e user_info = record {
  domain = error_domain;
  code = error_code e;
  user_info = user_info;
  associated_issue = none;
}

unfoldable pub is_oc_error : NsError → Bool
is_oc_error e = text_eq e.domain error_domain

unfoldable pub is_oc_error_with_code : OcError → NsError → Bool
is_oc_error_with_code c e = text_eq e.domain error_domain && e.code == error_code c

unfoldable pub error_by_embedding_issue : ℕ → NsError → NsError
error_by_embedding_issue issue e = record e { associated_issue = some issue }

unfoldable pub embedded_issue : NsError → Option ℕ
embedded_issue e = e.associated_issue

-- `OCErrorDateKey`.
abbrev pub error_date_key : Text
error_date_key = codes "OCErrorDate"

unfoldable pub error_date : NsError → Option ℕ
error_date e = lookup text_eq error_date_key e.user_info

-- A new error with the date in it.
abbrev pub dated : NsError → ℕ → NsError
dated e date = record e { user_info = with_key text_eq error_date_key date e.user_info }

abbrev pub dated_again : NsError → Option ℕ → NsError
dated_again e none = e
dated_again e (some date) = dated e date

unfoldable pub with_error_date : Option ℕ → NsError → NsError
unfolding error_date
with_error_date none e = dated_again e (error_date e)
with_error_date (some date) e = dated e date

-- `isAuthenticationError`; 401 is the status for a request that is not authorized.
unfoldable pub is_authentication_error : NsError → Bool
unfolding is_oc_error_with_code
is_authentication_error e =
    is_oc_error_with_code authorization_failed e
    || (is_oc_error_with_code authorization_method_not_allowed e
        || (is_oc_error_with_code authorization_method_unknown e
            || (is_oc_error_with_code authorization_no_method_data e
                || (is_oc_error_with_code authorization_not_matching_required_user_id e
                    || (is_oc_error_with_code authorization_missing_data e
                        || (text_eq e.domain http_status_error_domain && e.code == 401))))))
