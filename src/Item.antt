-- ===== src/Item.antt =====
-- ownCloudSDK/Item/OCItem.h and OCItem.m: items, that is files and folders with what is known of them
-- here and on the server. Texts are lists of characters, dates are seconds, and objects that an item
-- only refers to (the remote version, the thumbnail, the values of local attributes) are known by their
-- address. A property that may be nil is an Option.
pub mod Metadata
pub mod Sync
pub mod Attributes
use ios_sdk_develop.Prelude.{ℕ, Bool, false, Option, none, some, List, Text, codes}
use ios_sdk_develop.Claim.{Claim}
use ios_sdk_develop.User.{User}
use ios_sdk_develop.Checksum.{Checksum}

-- `OCItemType`.
pub data ItemType : Type 0 where
  file collection : ItemType

-- `OCItemSyncActivity` without the empty mask.
pub data Activity : Type 0 where
  deleting uploading downloading creating updating deleting_local : Activity

-- The position of the flag in the mask.
abbrev pub activity_bit : Activity → ℕ
activity_bit deleting = 0
activity_bit uploading = 1
activity_bit downloading = 2
activity_bit creating = 3
activity_bit updating = 4
activity_bit deleting_local = 5

-- `OCItemPermissions`.
pub data Permission : Type 0 where
  shared shareable mounted writable create_file create_folder delete rename move : Permission

abbrev pub permission_bit : Permission → ℕ
permission_bit shared = 0
permission_bit shareable = 1
permission_bit mounted = 2
permission_bit writable = 3
permission_bit create_file = 4
permission_bit create_folder = 5
permission_bit delete = 6
permission_bit rename = 7
permission_bit move = 8

-- `OCItemThumbnailAvailability`.
pub data ThumbnailAvailability : Type 0 where
  unknown available none_available internal : ThumbnailAvailability

-- `OCItemCloudStatus`.
pub data CloudStatus : Type 0 where
  cloud_only local_copy locally_modified local_only : CloudStatus

-- `OCItemVersionIdentifier`.
pub record VersionIdentifier : Type 0 where
  pub file_id : Option Text
  pub e_tag : Option Text

-- `OCItem`: its variables and those of its properties that are stored. The mask of sync activities and
-- the one of permissions are numbers; the counted set is the list of what was added to it, each activity by
-- the position of its flag.
pub record Item : Type 0 where
  pub version_identifier : Option VersionIdentifier
  pub thumbnail_availability : ThumbnailAvailability
  pub local_attributes : Option (List (Text × ℕ))
  pub local_attributes_last_modified : ℕ
  pub type : ItemType
  pub mime_type : Option Text
  pub removed : Bool
  pub permissions : ℕ
  pub local_relative_path : Option Text
  pub is_locally_modified : Bool
  pub local_copy_version_identifier : Option VersionIdentifier
  pub download_trigger_identifier : Option Text
  pub file_claim : Option Claim
  pub remote_item : Option ℕ
  pub path : Option Text
  pub previous_path : Option Text
  pub previous_placeholder_file_id : Option Text
  pub parent_local_id : Option Text
  pub local_id : Option Text
  pub checksums : Option (List Checksum)
  pub parent_file_id : Option Text
  pub file_id : Option Text
  pub e_tag : Option Text
  pub active_sync_record_ids : Option (List ℕ)
  pub sync_activity_counts : Option (List ℕ)
  pub sync_activity : ℕ
  pub size : ℕ
  pub creation_date : Option ℕ
  pub last_modified : Option ℕ
  pub last_used : Option ℕ
  pub is_favorite : Option Bool
  pub owner : Option User
  pub share_types_mask : ℕ
  pub private_link : Option Text
  pub tus_info : ℕ
  pub thumbnail : Option ℕ
  pub database_id : Option ℕ
  pub database_timestamp : Option ℕ
  pub quota_bytes_remaining : Option ℕ
  pub quota_bytes_used : Option ℕ

-- `OCFileIDPlaceholderPrefix` and `OCFileETagPlaceholder`.
abbrev pub placeholder_prefix : Text
placeholder_prefix = codes "_placeholder_"

abbrev pub e_tag_placeholder : Text
e_tag_placeholder = codes "_placeholder_"

-- `[OCItem new]`, with the local ID that is generated.
unfoldable pub new_item : Text → Item
new_item local_id = record {
  version_identifier = none;
  thumbnail_availability = internal;
  local_attributes = none;
  local_attributes_last_modified = 0;
  type = file;
  mime_type = none;
  removed = false;
  permissions = 0;
  local_relative_path = none;
  is_locally_modified = false;
  local_copy_version_identifier = none;
  download_trigger_identifier = none;
  file_claim = none;
  remote_item = none;
  path = none;
  previous_path = none;
  previous_placeholder_file_id = none;
  parent_local_id = none;
  local_id = some local_id;
  checksums = none;
  parent_file_id = none;
  file_id = none;
  e_tag = none;
  active_sync_record_ids = none;
  sync_activity_counts = none;
  sync_activity = 0;
  size = 0;
  creation_date = none;
  last_modified = none;
  last_used = none;
  is_favorite = none;
  owner = none;
  share_types_mask = 0;
  private_link = none;
  tus_info = 0;
  thumbnail = none;
  database_id = none;
  database_timestamp = none;
  quota_bytes_remaining = none;
  quota_bytes_used = none;
}

-- `OCItemPropertyName`: the properties that conditions and copies name.
pub data PropertyName : Type 0 where
  local_attributes_name type_name path_name name_name mime_type_name size_name cloud_status_name :
      PropertyName
  has_local_attributes_name sync_activity_name last_used_name last_modified_name is_favorite_name :
      PropertyName
  locally_modified_name local_relative_path_name local_id_name file_id_name owner_user_name_name :
      PropertyName
  download_trigger_name removed_name database_timestamp_name : PropertyName

-- `OCItemDownloadTriggerID` and `OCLocalAttribute`.
abbrev pub download_trigger_user : Text
download_trigger_user = codes "user"

abbrev pub download_trigger_available_offline : Text
download_trigger_available_offline = codes "availableOffline"

abbrev pub favorite_rank : Text
favorite_rank = codes "_favorite-rank"

abbrev pub tag_data : Text
tag_data = codes "_tag-data"
