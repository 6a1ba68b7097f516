-- ===== src/Errors/Dav.antt =====
-- ownCloudSDK/Errors/NSError+OCDAVError.h and NSError+OCDAVError.m: what a WebDAV server says of an error
-- in XML, by its exception, its header and its message.
use ios_sdk_develop.Prelude.{
  Bool, false, ◌&&◌, Option, none, some, Text, codes, text_eq, if◌then◌else◌,
}

-- `OCDAVError` without the code for no such error.
pub data DavError : Type 0 where
  unknown not_found service_unavailable item_does_not_exist : DavError

-- An error of the domain of WebDAV: the code, and the name of the exception and the message, if given.
pub record DavNsError : Type 0 where
  pub dav_error : DavError
  pub dav_exception_name : Option Text
  pub dav_exception_message : Option Text

abbrev pub exception_code : Text → DavError
exception_code exception =
    if text_eq exception (codes "Sabre\\DAV\\Exception\\NotFound")
    then not_found
    else (if text_eq exception (codes "Sabre\\DAV\\Exception\\ServiceUnavailable")
        then service_unavailable
        else unknown)

-- `hasSuffix:` of a message that may be nil is an argument.
abbrev pub header_code : Bool → Text → DavError
header_code did_not_exist header =
    if text_eq header (codes "If-Match") && did_not_exist then item_does_not_exist else unknown

-- `dictionaryWithObjectsAndKeys:` ends at the first nil: without an exception, no message is kept.
abbrev pub message_kept : Option Text → Option Text → Option Text
message_kept none message = none
message_kept (some exception) message = message

abbrev pub from_exception : Option Text → Option Text → Option DavNsError
from_exception none message = none
from_exception (some exception) message = some (record {
  dav_error = exception_code exception;
  dav_exception_name = some exception;
  dav_exception_message = message;
})

-- The header replaces what the exception gave.
unfoldable pub instance_from_node :
    (Text → Text → Bool) → Option Text → Option Text → Option Text → Option DavNsError
instance_from_node has_suffix message exception none = from_exception exception message
instance_from_node has_suffix message exception (some header) = some (record {
  dav_error =
      header_code
        (elim message [ none ↦ false | some m ↦ has_suffix m (codes "the resource did not exist") ])
        header;
  dav_exception_name = exception;
  dav_exception_message = message_kept exception message;
})
