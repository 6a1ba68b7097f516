-- ===== src/Tus.antt =====
-- ownCloudSDK/TUS/OCTUSHeader.h and OCTUSHeader.m: what a server says about resumable uploads, as
-- HTTP header fields and packed into a 64-bit number. Header fields are a function from the names of
-- the TUS headers; numbers are printed and read by Foundation, which is an argument. The upload metadata is kept as its text.
pub mod Info
pub mod Fields
pub mod Job
use ios_sdk_develop.Prelude.{
  ℕ, ◌+◌, ◌*◌, ◌/◌, ◌%◌, ◌^◌, Bool, true, false, not, ◌&&◌, ◌||◌, Option, none, some, List, [], ◌∷◌,
  ◌++◌, ltb, length, any, if◌then◌else◌, Text, codes, text_eq, components_separated_by,
  components_joined_by, has_flag, with_flag,
}

-- `OCTUSSupport`.
abbrev pub support_none : ℕ
support_none = 0

abbrev pub support_available : ℕ
support_available = 1

abbrev pub support_extension_creation : ℕ
support_extension_creation = 2

abbrev pub support_extension_creation_with_upload : ℕ
support_extension_creation_with_upload = 4

abbrev pub support_extension_expiration : ℕ
support_extension_expiration = 8

-- The fields of `_OCTUSInfoPrivate`, from the lowest bit: 8 bits that are reserved, 48 bits for the
-- maximum size, and 8 bits for the support flags.
unfoldable pub info_get_support : ℕ → ℕ
info_get_support info = (info / 2 ^ 56) % 2 ^ 8

unfoldable pub info_set_support : ℕ → ℕ → ℕ
info_set_support info flags = info % 2 ^ 56 + (flags % 2 ^ 8) * 2 ^ 56

unfoldable pub info_get_maximum_size : ℕ → ℕ
info_get_maximum_size info = (info / 2 ^ 8) % 2 ^ 48

unfoldable pub info_set_maximum_size : ℕ → ℕ → ℕ
info_set_maximum_size info size = info % 2 ^ 8 + (size % 2 ^ 48) * 2 ^ 8 + (info / 2 ^ 56) * 2 ^ 56

abbrev pub is_supported : ℕ → ℕ → Bool
is_supported support flag = has_flag support flag

abbrev pub is_available : ℕ → Bool
is_available support = is_supported support support_available

-- `OCTUSExtension`.
abbrev pub extension_creation : Text
extension_creation = codes "creation"

abbrev pub extension_creation_with_upload : Text
extension_creation_with_upload = codes "creation-with-upload"

abbrev pub extension_expiration : Text
extension_expiration = codes "expiration"

pub record Header : Type 0 where
  pub version : Option Text
  pub versions : Option (List Text)
  pub extensions : Option (List Text)
  pub maximum_size : Option ℕ
  pub maximum_chunk_size : Option ℕ
  pub upload_offset : Option ℕ
  pub upload_length : Option ℕ
  pub upload_metadata : Option Text

-- `[OCTUSHeader new]`.
abbrev pub empty : Header
empty = record {
  version = none;
  versions = none;
  extensions = none;
  maximum_size = none;
  maximum_chunk_size = none;
  upload_offset = none;
  upload_length = none;
  upload_metadata = none;
}

-- `OCTUSHeaderName`.
pub data HeaderName : Type 0 where
  tus_version tus_resumable tus_extension tus_max_size upload_offset upload_length upload_metadata :
      HeaderName

abbrev pub HeaderFields : Type 0
HeaderFields = HeaderName → Option Text

abbrev pub expand_flag : ℕ → ℕ → Text → List Text → List Text
expand_flag support flag extension rest =
    if is_supported support flag then extension ∷ rest else rest

unfoldable nil_if_empty : List Text → Option (List Text)
nil_if_empty [] = none
nil_if_empty (x ∷ xs) = some (x ∷ xs)

unfoldable pub populate_from_tus_support : ℕ → Header → Header
unfolding nil_if_empty
populate_from_tus_support support h = record h {
  extensions = nil_if_empty (
      expand_flag support support_extension_creation extension_creation (
        expand_flag support support_extension_creation_with_upload extension_creation_with_upload
          (expand_flag support support_extension_expiration extension_expiration [])));
}

unfoldable pub init_with_tus_info : ℕ → Header
unfolding populate_from_tus_support info_get_support info_get_maximum_size
init_with_tus_info info =
    let h = populate_from_tus_support (info_get_support info) empty in
    let size = info_get_maximum_size info in
    if ltb 0 size then record h { maximum_size = some size } else h

-- `count > 0`, where nil counts 0.
abbrev pub some_listed : Option (List Text) → Bool
some_listed none = false
some_listed (some xs) = ltb 0 (length xs)

-- `containsObject:`.
abbrev pub listed : Text → Option (List Text) → Bool
listed x none = false
listed x (some xs) = any (λ y. text_eq y x) xs

abbrev add_support : Bool → ℕ → ℕ → ℕ
add_support is_listed flag support = if is_listed then with_flag support flag else support

unfoldable pub support_flags : Header → ℕ
support_flags h =
    if some_listed h.versions || some_listed h.extensions
    then add_support (listed extension_expiration h.extensions) support_extension_expiration (
        add_support (listed extension_creation_with_upload h.extensions)
          support_extension_creation_with_upload
          (add_support (listed extension_creation h.extensions) support_extension_creation
            support_available))
    else support_none

abbrev size_or_zero : Option ℕ → ℕ
size_or_zero none = 0
size_or_zero (some n) = n

unfoldable pub info : Header → ℕ
unfolding support_flags info_set_support info_set_maximum_size
info h = info_set_maximum_size (info_set_support 0 (support_flags h)) (size_or_zero h.maximum_size)

-- `stringValue` of a number, and `longLongValue` of a text. A number is the 64 bits that it has as a
-- `long long`, so that those from 2 ^ 63 are the negative ones; a text for a number beyond the range is read
-- as the end of the range.
pub record Numbers : Type 0 where
  pub string_value : ℕ → Text
  pub long_long_value : Text → ℕ

abbrev map_option {ℓ κ} : {A : Type ℓ} {B : Type κ} → (A → B) → Option A → Option B
map_option f none = none
map_option f (some a) = some (f a)

abbrev pub versions_or : Option (List Text) → Option Text → Option (List Text)
versions_or (some vs) version = some vs
versions_or none version = map_option (λ v. v ∷ []) version

unfoldable pub populate_from_http_headers : Numbers → HeaderFields → Header
populate_from_http_headers n fields = record empty {
  versions =
      versions_or (map_option (components_separated_by b',') (fields tus_version))
        (fields tus_resumable);
  version = fields tus_resumable;
  extensions = map_option (components_separated_by b',') (fields tus_extension);
  maximum_size = map_option n.long_long_value (fields tus_max_size);
  upload_offset = map_option n.long_long_value (fields HeaderName.upload_offset);
  upload_length = map_option n.long_long_value (fields HeaderName.upload_length);
}

-- The header fields; the code gives nil for none at all, which reads as no field.
unfoldable pub http_header_fields : Numbers → Header → HeaderFields
http_header_fields n h tus_version = map_option (components_joined_by b',') h.versions
http_header_fields n h tus_resumable = h.version
http_header_fields n h tus_extension = map_option (components_joined_by b',') h.extensions
http_header_fields n h tus_max_size = map_option n.string_value h.maximum_size
http_header_fields n h HeaderName.upload_offset = map_option n.string_value h.upload_offset
http_header_fields n h HeaderName.upload_length = map_option n.string_value h.upload_length
http_header_fields n h HeaderName.upload_metadata = h.upload_metadata
