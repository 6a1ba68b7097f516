-- ===== src/Http/Response.antt =====
-- ownCloudSDK/HTTP/Response/OCHTTPResponse.h and OCHTTPResponse.m: responses. Data are lists of bytes,
-- and certificates and URL responses are known by their address.
use ios_sdk_develop.Prelude.{
  ℕ, Bool, false, Option, none, some, List, [], ◌∷◌, ◌++◌, Text, text_eq, lookup,
  components_separated_by,
}
use ios_sdk_develop.Errors.{NsError}
use ios_sdk_develop.Http.Names.{field_name, content_type}
use ios_sdk_develop.Http.Status.{Status, init_with_code}

pub record Response : Type 0 where
  pub body_data : Option (List ℕ)
  pub mapped_body_data : Option (List ℕ)
  pub request_id : Option Text
  pub authentication_data_id : Option Text
  pub date : Option ℕ
  pub certificate : Option ℕ
  pub certificate_validation_result : ℕ
  pub certificate_validation_error : Option NsError
  pub status : Option Status
  pub header_fields : List (Text × Text)
  pub http_url_response : Option ℕ
  pub body_url : Option Text
  pub body_url_is_temporary : Bool
  pub error : Option NsError
  pub http_error : Option NsError

-- `initWithRequest:HTTPError:` at a time, of a request's identifier and authentication data.
unfoldable pub init_with_request : ℕ → Text → Option Text → Option NsError → Response
init_with_request now identifier authentication_data_id error = record {
  body_data = none;
  mapped_body_data = none;
  request_id = some identifier;
  authentication_data_id = authentication_data_id;
  date = some now;
  certificate = none;
  certificate_validation_result = 0;
  certificate_validation_error = none;
  status = none;
  header_fields = [];
  http_url_response = none;
  body_url = none;
  body_url_is_temporary = false;
  error = none;
  http_error = error;
}

-- `setHttpURLResponse:`: the response, its status code and all its header fields.
unfoldable pub set_http_url_response : ℕ → ℕ → List (Text × Text) → Response → Response
set_http_url_response url_response code fields r = record r {
  http_url_response = some url_response;
  status = some (init_with_code code);
  header_fields = fields;
}

abbrev pub appended : Option (List ℕ) → List ℕ → List ℕ
appended none data_added = data_added
appended (some data_there) data_added = data_there ++ data_added

unfoldable pub append_data_to_response_body : List ℕ → Response → Response
append_data_to_response_body data_added r = record r {
  body_data = some (appended r.body_data data_added);
}

abbrev pub or_mapped : Option (List ℕ) → Option (List ℕ) → Option (List ℕ)
or_mapped none read = read
or_mapped (some mapped) read = some mapped

-- `bodyData`: the file at the URL, read once, or else what was received. `read_file` is nil where the
-- file cannot be read.
unfoldable pub get_body_data : (Text → Option (List ℕ)) → Response → Option (List ℕ) × Response
get_body_data read_file r = elim r.body_url [
  | none ↦ (r.body_data, r)
  | some url ↦
      let mapped = or_mapped r.mapped_body_data (read_file url) in
      (mapped, record r { mapped_body_data = mapped })
]

abbrev pub nil_if_empty : List Text → Option Text
nil_if_empty [] = none
nil_if_empty ([] ∷ rest) = none
nil_if_empty ((c ∷ s) ∷ rest) = some (c ∷ s)

-- `contentType`: up to the first semicolon, nil if that is empty.
unfoldable pub get_content_type : Response → Option Text
get_content_type r = elim (lookup text_eq (field_name content_type) r.header_fields) [
  | none ↦ none
  | some s ↦ nil_if_empty (components_separated_by b';' s)
]
