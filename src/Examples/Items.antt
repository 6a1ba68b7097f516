-- ===== src/Examples/Items.antt =====
-- Items, users, shares and upload headers.
use ios_sdk_develop.Prelude.{
  ℕ, List, ◌⊎◌, true, false, arith, ◌≡◌, refl, none, some, [], ◌∷◌, ◌*◌, ◌+◌, ◌^◌, Text, codes,
}
use ios_sdk_develop.Item.{uploading, new_item}
use ios_sdk_develop.Item.Sync.{count, activities, count_of_sync_records_with_sync_activity}
use ios_sdk_develop.Item.Sync.Counts.{
  SyncStep, starts, ends, run, tally, count_of_sync_records-refines,
}
use ios_sdk_develop.Share.{
  Share, new_share, state_accepted, is_equal, decode_encoded, protected_by_password,
}
use ios_sdk_develop.Share.Copies.{is_equal-decode_encoded}
use ios_sdk_develop.Tus.{
  Numbers, Header, info, init_with_tus_info, info_get_support, support_flags, support_none,
  populate_from_http_headers, http_header_fields,
}
use ios_sdk_develop.Tus.Info.{info-init_with_tus_info, support_flags-init_with_tus_info}
use ios_sdk_develop.Tus.Fields.{IsCarried, populate_from_http_headers-http_header_fields}

abbrev uploads : List SyncStep
uploads = starts (some 5) uploading ∷ (starts (some 6) uploading ∷ (ends (some 5) uploading ∷ []))

count_of_sync_records-refines_example :
    count_of_sync_records_with_sync_activity uploading (run uploads (new_item (codes "item")))
    ≡ tally uploads (λ c. count c (activities (new_item (codes "item")))) 1
count_of_sync_records-refines_example =
    count_of_sync_records-refines uploads (new_item (codes "item")) uploading

abbrev accepted_share : Share
accepted_share = record new_share { state = some state_accepted; password = some (codes "secret") }

is_equal-decode_encoded_example :
    ((decode_encoded true accepted_share ≡ none)
      × (true ≡ true)
      × ((state : Text) × (accepted_share.state ≡ some state)))
    ⊎ ((t : Share) × (decode_encoded true accepted_share ≡ some t)
        × ((true ≡ false) ⊎ (accepted_share.state ≡ none))
        × (is_equal accepted_share t ≡ true)
        × ((protected_by_password t).0 ≡ (protected_by_password accepted_share).0)
        × (t.password ≡ none))
is_equal-decode_encoded_example = is_equal-decode_encoded true accepted_share

-- Available, with the creation extension, for at most 1000 bytes.
abbrev creation_info : ℕ
creation_info = 3 * 2 ^ 56 + 1000 * 2 ^ 8

info-init_with_tus_info_example : info (init_with_tus_info creation_info) ≡ creation_info
unfolding info_get_support
info-init_with_tus_info_example =
    info-init_with_tus_info creation_info (omega arith) refl (omega arith) refl refl

abbrev available_info : ℕ
available_info = 2 ^ 56

support_flags-init_with_tus_info_example :
    support_flags (init_with_tus_info available_info) ≡ support_none
unfolding info_get_support
support_flags-init_with_tus_info_example = support_flags-init_with_tus_info available_info refl

-- A number as the text of one character with its code.
abbrev first_code : Text → ℕ
first_code [] = 0
first_code (c ∷ s) = c

abbrev one_character : Numbers
one_character = record { string_value = λ n. n ∷ []; long_long_value = first_code }

abbrev upload_header : Header
upload_header = record {
  version = some (codes "1.0.0");
  versions = some (codes "1.0.0" ∷ (codes "0.2.2" ∷ []));
  extensions = some (codes "creation" ∷ []);
  maximum_size = some 1000;
  maximum_chunk_size = none;
  upload_offset = some 10;
  upload_length = some 20;
  upload_metadata = none;
}

populate_from_http_headers-http_header_fields_example :
    populate_from_http_headers one_character (http_header_fields one_character upload_header)
    ≡ upload_header
unfolding IsCarried
populate_from_http_headers-http_header_fields_example =
    populate_from_http_headers-http_header_fields one_character upload_header (λ k h. refl)
      (omega arith) (omega arith) (omega arith)
      ((refl, (refl, (refl, (refl, (refl, tt))))), ((refl, (refl, (refl, (refl, (refl, tt))))), tt))
      ((refl, (refl, (refl, (refl, (refl, (refl, (refl, (refl, tt)))))))), tt) tt
