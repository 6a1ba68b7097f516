-- ===== src/Examples/Uploads.antt =====
-- Segments of an upload, and bookmarks with a keychain of one item.
use ios_sdk_develop.Prelude.{Option, ◌≡◌, refl, none, some, [], ◌∷◌, Text, codes, text_eq, lookup}
use ios_sdk_develop.Tus.{empty}
use ios_sdk_develop.Tus.Job.{Segment, Job, Files, request_segment}
use ios_sdk_develop.Tus.Job.Segments.{request_segment-new}
use ios_sdk_develop.Bookmark.{Bookmark, Keychain, keychain, memory, set_authentication_data_storage}

abbrev upload_files : Files
upload_files = (codes "file", 7 ∷ (8 ∷ (9 ∷ []))) ∷ []

abbrev upload_job : Job
upload_job = record {
  header = some empty;
  file_url = some (codes "file");
  segment_folder_url = some (codes "folder");
  upload_offset = none;
  max_segment_size = 2;
  creation_url = none;
  upload_url = none;
  future_item_path = none;
  file_name = none;
  file_size = some 3;
  file_mod_date = none;
  file_checksum = none;
  event_target = none;
  last_segment = none;
}

abbrev first_segment : Segment
first_segment = record { offset = 1; size = 2; url = some (codes "segment") }

request_segment-new_example :
    ((request_segment upload_files (codes "segment") 1 5 upload_job).segment ≡ some first_segment)
    × ((request_segment upload_files (codes "segment") 1 5 upload_job).job.last_segment
        ≡ some first_segment)
    × (lookup text_eq
          (codes "segment")
          (request_segment upload_files (codes "segment") 1 5 upload_job).files
        ≡ some (8 ∷ (9 ∷ [])))
request_segment-new_example =
    request_segment-new upload_files (codes "segment") (codes "file") 1 5 upload_job
      (7 ∷ (8 ∷ (9 ∷ []))) refl refl refl

abbrev one_item : Keychain (Option Text)
one_item = record {
  read_data = λ k uuid. k;
  write_data = λ d k uuid. some d;
  remove_item = λ k uuid. none;
}

abbrev server : Bookmark
server = record {
  uuid = codes "bookmark";
  name = none;
  url = none;
  server_location_user_name = none;
  origin_url = none;
  last_user_name = none;
  user_display_name = none;
  user = none;
  certificate = none;
  certificate_modification_date = none;
  authentication_method_identifier = none;
  cached_authentication_data = some (codes "secret");
  storage = memory;
  authentication_validation_date = none;
  database_version = 1;
  user_info = [];
}

abbrev moved : Option Text × Bookmark
moved = set_authentication_data_storage one_item none 5 keychain none server
