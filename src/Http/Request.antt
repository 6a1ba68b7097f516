-- ===== src/Http/Request.antt =====
-- ownCloudSDK/HTTP/Request/OCHTTPRequest.h and OCHTTPRequest.m: requests. Handlers, streams, progress
-- objects and events' targets are known by their address. What Foundation makes of parameters is an argument.
pub mod Values
pub mod Scheduling
use ios_sdk_develop.Prelude.{
  ℕ, suc, ◌+◌, Bool, true, false, not, ◌&&◌, ◌||◌, Option, none, some, List, [], ◌∷◌, ◌++◌, ◌==◌,
  ltb, length, keep, if◌then◌else◌, Text, codes, text_eq, has_prefix, lookup, with_key, set_key,
  add_entries,
}
use ios_sdk_develop.Errors.{NsError}
use ios_sdk_develop.Http.Names.{
  Method, get_method, post_method, put_method, method_name, field_name, x_request_id,
  original_request_id, content_type,
}
use ios_sdk_develop.Http.Response.{Response}

-- `OCHTTPRequestObserverEvent`.
pub data ObserverEvent : Type 0 where
  task_resume : ObserverEvent

-- `OCHTTPRequestRedirectPolicy`.
pub data RedirectPolicy : Type 0 where
  default_redirects handle_redirects_locally allow_same_host allow_any_host : RedirectPolicy
  validate_redirects : RedirectPolicy

-- `OCHTTPRequestStatusPolicy`.
pub data StatusPolicy : Type 0 where
  default_policy handle_locally validate_connection : StatusPolicy

pub record Request : Type 0 where
  pub body_url_input_stream : Option ℕ
  pub streaming_input_stream : Option ℕ
  pub streaming_output_stream : Option ℕ
  pub identifier : Text
  pub progress : Option ℕ
  pub method : Text
  pub url : Option Text
  pub effective_url : Option Text
  pub parameters : List (Text × Text)
  pub header_fields : List (Text × Text)
  pub body_data : Option Text
  pub body_url : Option Text
  pub authentication_data_id : Option Text
  pub stored_redirect_policy : RedirectPolicy
  pub maximum_redirection_depth : ℕ
  pub redirection_history : Option (List Text)
  pub status_policies : Option (List (ℕ × StatusPolicy))
  pub earliest_begin_date : Option ℕ
  pub required_signals : Option (List Text)
  pub required_cellular_switch : Option Text
  pub auto_resume : Bool
  pub auto_resume_info : Option ℕ
  pub result_handler_action : Option Text
  pub ephermal_result_handler : Option ℕ
  pub ephermal_stream_handler : Option ℕ
  pub certificate_proceed_handler : Option ℕ
  pub force_certificate_decision_delegation : Bool
  pub event_target : Option ℕ
  pub user_info : Option ℕ
  pub custom_timeout : Option ℕ
  pub priority : ℕ
  pub group_id : Option Text
  pub request_observer : Option ℕ
  pub download_request : Bool
  pub downloaded_file_url : Option Text
  pub downloaded_file_is_temporary : Bool
  pub avoid_cellular : Bool
  pub is_non_critical : Bool
  pub cancelled : Bool
  pub http_response : Option Response

-- `[OCHTTPRequest new]` with the identifier that is generated, its progress, and the default priority of
-- URL session tasks.
unfoldable pub init : Text → ℕ → ℕ → Request
init identifier progress default_priority = record {
  body_url_input_stream = none;
  streaming_input_stream = none;
  streaming_output_stream = none;
  identifier = identifier;
  progress = some progress;
  method = method_name get_method;
  url = none;
  effective_url = none;
  parameters = [];
  header_fields =
      (field_name x_request_id, identifier) ∷ ((field_name original_request_id, identifier) ∷ []);
  body_data = none;
  body_url = none;
  authentication_data_id = none;
  stored_redirect_policy = default_redirects;
  maximum_redirection_depth = 5;
  redirection_history = none;
  status_policies = none;
  earliest_begin_date = none;
  required_signals = none;
  required_cellular_switch = none;
  auto_resume = false;
  auto_resume_info = none;
  result_handler_action = none;
  ephermal_result_handler = none;
  ephermal_stream_handler = none;
  certificate_proceed_handler = none;
  force_certificate_decision_delegation = false;
  event_target = none;
  user_info = none;
  custom_timeout = none;
  priority = default_priority;
  group_id = none;
  request_observer = none;
  download_request = false;
  downloaded_file_url = none;
  downloaded_file_is_temporary = false;
  avoid_cellular = false;
  is_non_critical = false;
  cancelled = false;
  http_response = none;
}

unfoldable pub request_with_url : Text → ℕ → ℕ → Text → Request
request_with_url identifier progress default_priority url =
    record (init identifier progress default_priority) { url = some url }

unfoldable pub value_for_parameter : Text → Request → Option Text
value_for_parameter p r = lookup text_eq p r.parameters

unfoldable pub set_value_for_parameter : Option Text → Text → Request → Request
set_value_for_parameter v p r = record r { parameters = set_key text_eq p v r.parameters }

unfoldable pub add_parameters : List (Text × Text) → Request → Request
add_parameters ps r = record r { parameters = add_entries text_eq ps r.parameters }

-- The name of an entry of an array, with the text of a number.
abbrev pub element_name : (ℕ → Text) → Text → Bool → ℕ → Text
element_name digits p true index = p
element_name digits p false index = p ++ (codes "[" ++ (digits index ++ codes "]"))

-- The loop over the values, as texts where they have one; only those count.
abbrev pub set_elements :
    (ℕ → Text) → Text → Bool → List (Option Text) → ℕ → List (Text × Text) → List (Text × Text)
set_elements digits p single [] index ps = ps
set_elements digits p single (none ∷ vs) index ps = set_elements digits p single vs index ps
set_elements digits p single (some v ∷ vs) index ps =
    set_elements digits p single vs (suc index)
      (with_key text_eq (element_name digits p (index == 0 && single) index) v ps)

abbrev pub belongs_to : Text → Text → Bool
belongs_to p name = has_prefix name (p ++ codes "[") || text_eq name p

-- `setValueArray:apply:forParameter:`, given what `apply` makes of each value.
unfoldable pub set_value_array : (ℕ → Text) → List (Option Text) → Text → Request → Request
set_value_array digits [] p r = record r {
  parameters = keep (λ e. not (belongs_to p e.0)) r.parameters;
}
set_value_array digits (v ∷ vs) p r = record r {
  parameters = set_elements digits p (length (v ∷ vs) == 1) (v ∷ vs) 0 r.parameters;
}

unfoldable pub value_for_header_field : Text → Request → Option Text
value_for_header_field f r = lookup text_eq f r.header_fields

unfoldable pub set_value_for_header_field : Option Text → Text → Request → Request
set_value_for_header_field v f r = record r { header_fields = set_key text_eq f v r.header_fields }

unfoldable pub add_header_fields : List (Text × Text) → Request → Request
add_header_fields fs r = record r { header_fields = add_entries text_eq fs r.header_fields }

abbrev pub or_default : Option StatusPolicy → StatusPolicy
or_default none = default_policy
or_default (some p) = p

unfoldable pub policy_for_status : ℕ → Request → StatusPolicy
policy_for_status code r = elim r.status_policies [
  | none ↦ default_policy
  | some ps ↦ or_default (lookup (λ a b. a == b) code ps)
]

abbrev pub with_policy :
    StatusPolicy → ℕ → Option (List (ℕ × StatusPolicy)) → List (ℕ × StatusPolicy)
with_policy p code none = (code, p) ∷ []
with_policy p code (some ps) = with_key (λ a b. a == b) code p ps

unfoldable pub set_policy_for_status : StatusPolicy → ℕ → Request → Request
set_policy_for_status p code r = record r {
  status_policies = some (with_policy p code r.status_policies);
}

-- `redirectPolicy`, with the class setting for transparent temporary redirects.
unfoldable pub redirect_policy : Bool → Request → RedirectPolicy
redirect_policy transparent r = elim r.stored_redirect_policy [
  | default_redirects ↦ (if transparent then allow_same_host else validate_redirects)
  | handle_redirects_locally ↦ handle_redirects_locally
  | allow_same_host ↦ allow_same_host
  | allow_any_host ↦ allow_any_host
  | validate_redirects ↦ validate_redirects
]

unfoldable pub get_error : Request → Option NsError
get_error r = elim r.http_response [ none ↦ none | some response ↦ response.error ]

unfoldable pub cancel : Request → Request
cancel r = if r.cancelled then r else record r { cancelled = true }

abbrev pub replaced : Option Text → Text → Option Text
replaced none new = none
replaced (some old) new = some new

abbrev pub renamed : Text → Option Text → List (Text × Text) → List (Text × Text)
renamed new_id none fields = fields
renamed new_id (some old) fields = set_key text_eq (field_name x_request_id) (some new_id) fields

-- `recreateRequestID`, with the identifier that is generated.
unfoldable pub recreate_request_id : Text → Request → Request
unfolding value_for_header_field
recreate_request_id new_id r = record r {
  identifier = new_id;
  header_fields =
      renamed new_id (value_for_header_field (field_name x_request_id) r) r.header_fields;
}
