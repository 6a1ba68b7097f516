-- ===== src/Item/Metadata.antt =====
-- What the metadata of an item says: its version, whether it is a placeholder or the root, its cloud
-- status and its permissions.
pub mod Version
use ios_sdk_develop.Prelude.{
  ℕ, suc, ◌+◌, Bool, true, false, not, ◌&&◌, ◌||◌, Option, none, some, List, [], ◌∷◌, ◌++◌, ◌==◌,
  ltb, keep, length, if◌then◌else◌, Text, codes, text_eq, has_prefix, bit, set_bit,
}
use ios_sdk_develop.Claim.{Claim, Env, is_valid}
use ios_sdk_develop.Tus.{info_get_support, info_get_maximum_size}
use ios_sdk_develop.Item.{
  Item, ItemType, VersionIdentifier, CloudStatus, cloud_only, local_copy, locally_modified,
  local_only, new_item, placeholder_prefix, e_tag_placeholder, permission_bit, shared, shareable,
}

unfoldable pub set_e_tag : Option Text → Item → Item
set_e_tag e_tag i = record i { e_tag = e_tag; version_identifier = none }

unfoldable pub set_file_id : Option Text → Item → Item
set_file_id file_id i = record i { file_id = file_id; version_identifier = none }

-- `placeholderItemOfType:`, with the identifier that is generated after the prefix.
unfoldable pub placeholder_item_of_type : Text → ItemType → Text → Item
unfolding set_e_tag set_file_id
placeholder_item_of_type local_id type uuid =
    set_file_id (some (placeholder_prefix ++ uuid))
      (set_e_tag (some e_tag_placeholder) (record (new_item local_id) { type = type }))

abbrev pub or_version : Option VersionIdentifier → VersionIdentifier → VersionIdentifier
or_version none made = made
or_version (some v) made = v

-- `itemVersionIdentifier`, which is made on demand and stored.
unfoldable pub item_version_identifier : Item → VersionIdentifier × Item
item_version_identifier i =
    let v = or_version i.version_identifier (record { file_id = i.file_id; e_tag = i.e_tag }) in
    (v, record i { version_identifier = some v })

abbrev pub text_is : Option Text → Text → Bool
text_is none t = false
text_is (some s) t = text_eq s t

abbrev pub text_has_prefix : Option Text → Text → Bool
text_has_prefix none t = false
text_has_prefix (some s) t = has_prefix s t

unfoldable pub is_placeholder : Item → Bool
is_placeholder i = text_is i.e_tag e_tag_placeholder || text_has_prefix i.file_id placeholder_prefix

unfoldable pub is_root : Item → Bool
is_root i = text_is i.path (codes "/")

unfoldable pub owner_user_name : Item → Option Text
owner_user_name i = elim i.owner [ none ↦ none | some u ↦ u.user_name ]

abbrev pub is_there {ℓ} : {A : Type ℓ} → Option A → Bool
is_there none = false
is_there (some a) = true

unfoldable pub cloud_status : Item → CloudStatus
unfolding is_placeholder
cloud_status i =
    if is_there i.local_relative_path
    then (if i.is_locally_modified
        then (if is_placeholder i then local_only else locally_modified)
        else local_copy)
    else cloud_only

unfoldable pub is_shared_with_user : Item → Bool
is_shared_with_user i = bit (permission_bit shared) i.permissions

unfoldable pub is_shareable : Item → Bool
is_shareable i = bit (permission_bit shareable) i.permissions

abbrev pub none_listed : Option (List ℕ) → Bool
none_listed none = true
none_listed (some []) = true
none_listed (some (x ∷ xs)) = false

abbrev pub claim_valid : Env → Option Claim → Bool
claim_valid e none = false
claim_valid e (some c) = is_valid e c

unfoldable pub compacting_allowed : Env → Item → Bool
compacting_allowed e i =
    not i.is_locally_modified
    && (i.sync_activity == 0
        && (none_listed i.active_sync_record_ids && not (claim_valid e i.file_claim)))

unfoldable pub tus_support : Item → ℕ
tus_support i = info_get_support i.tus_info

unfoldable pub tus_maximum_size : Item → ℕ
tus_maximum_size i = info_get_maximum_size i.tus_info
