-- ===== src/Http/Names.antt =====
-- ownCloudSDK/HTTP/Request/OCHTTPRequest.h: the names of HTTP methods and header fields.
use ios_sdk_develop.Prelude.{Text, codes}

-- `OCHTTPMethod`.
pub data Method : Type 0 where
  get_method post_method patch_method head_method put_method : Method
  delete_method mkcol_method options_method move_method copy_method : Method
  propfind_method proppatch_method report_method lock_method unlock_method : Method

abbrev pub method_name : Method → Text
method_name get_method = codes "GET"
method_name post_method = codes "POST"
method_name patch_method = codes "PATCH"
method_name head_method = codes "HEAD"
method_name put_method = codes "PUT"
method_name delete_method = codes "DELETE"
method_name mkcol_method = codes "MKCOL"
method_name options_method = codes "OPTIONS"
method_name move_method = codes "MOVE"
method_name copy_method = codes "COPY"
method_name propfind_method = codes "PROPFIND"
method_name proppatch_method = codes "PROPPATCH"
method_name report_method = codes "REPORT"
method_name lock_method = codes "LOCK"
method_name unlock_method = codes "UNLOCK"

-- `OCHTTPHeaderFieldName`.
pub data HeaderField : Type 0 where
  location authorization x_request_id original_request_id content_type : HeaderField
  content_length depth destination overwrite if_match : HeaderField
  if_none_match user_agent x_oc_mtime oc_checksum oc_connection_validator : HeaderField

abbrev pub field_name : HeaderField → Text
field_name location = codes "Location"
field_name authorization = codes "Authorization"
field_name x_request_id = codes "X-Request-ID"
field_name original_request_id = codes "Original-Request-ID"
field_name content_type = codes "Content-Type"
field_name content_length = codes "Content-Length"
field_name depth = codes "Depth"
field_name destination = codes "Destination"
field_name overwrite = codes "Overwrite"
field_name if_match = codes "If-Match"
field_name if_none_match = codes "If-None-Match"
field_name user_agent = codes "User-Agent"
field_name x_oc_mtime = codes "X-OC-MTime"
field_name oc_checksum = codes "OC-Checksum"
field_name oc_connection_validator = codes "OC-Connection-Validator"
