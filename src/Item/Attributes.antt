-- ===== src/Item/Attributes.antt =====
-- The local attributes of an item, and what an item takes from another.
pub mod Replace
use ios_sdk_develop.Prelude.{
  ℕ, suc, ◌+◌, Bool, true, false, not, ◌&&◌, ◌||◌, Option, none, some, List, [], ◌∷◌, ◌++◌, ◌==◌,
  ltb, keep, length, if◌then◌else◌, Text, codes, text_eq, lookup, with_key, without_key, has_prefix,
  bit, set_bit,
}
use ios_sdk_develop.Claim.{Claim, fields}
use ios_sdk_develop.Item.{Item}

-- `valueForLocalAttribute:` and `setValue:forLocalAttribute:`.
abbrev pub or_no_attributes : Option (List (Text × ℕ)) → List (Text × ℕ)
or_no_attributes none = []
or_no_attributes (some ps) = ps

abbrev pub nil_if_no_attributes : List (Text × ℕ) → Option (List (Text × ℕ))
nil_if_no_attributes [] = none
nil_if_no_attributes (p ∷ ps) = some (p ∷ ps)

abbrev pub with_attribute : Option ℕ → Text → Option (List (Text × ℕ)) → Option (List (Text × ℕ))
with_attribute none k ps = nil_if_no_attributes (without_key text_eq k (or_no_attributes ps))
with_attribute (some v) k ps = some (with_key text_eq k v (or_no_attributes ps))

unfoldable pub value_for_local_attribute : Text → Item → Option ℕ
value_for_local_attribute k i = lookup text_eq k (or_no_attributes i.local_attributes)

unfoldable pub set_value_for_local_attribute : ℕ → Option ℕ → Text → Item → Item
set_value_for_local_attribute now v k i = record i {
  local_attributes = with_attribute v k i.local_attributes;
  local_attributes_last_modified = now;
}

unfoldable pub has_local_attributes : Item → Bool
has_local_attributes i = ltb 0 (length (or_no_attributes i.local_attributes))

-- A nil claim or date answers 0.
abbrev pub claim_time : Option Claim → ℕ
claim_time none = 0
claim_time (some c) = (fields c).creation_timestamp

abbrev pub time_of : Option ℕ → ℕ
time_of none = 0
time_of (some t) = t

abbrev pub or_text : Option Text → Option Text → Option Text
or_text (some a) b = some a
or_text none b = b

-- `prepareToReplace:`: what the new item takes from the one that it replaces. `localAttributes`
-- gives a dictionary, also where there was none.
unfoldable pub prepare_to_replace : Item → Item → Item
prepare_to_replace old i = record i {
  database_id = old.database_id;
  active_sync_record_ids = old.active_sync_record_ids;
  sync_activity = old.sync_activity;
  sync_activity_counts = old.sync_activity_counts;
  parent_file_id = or_text i.parent_file_id old.parent_file_id;
  parent_local_id = old.parent_local_id;
  local_id = old.local_id;
  local_attributes =
      if ltb i.local_attributes_last_modified old.local_attributes_last_modified
      then some (or_no_attributes old.local_attributes)
      else i.local_attributes;
  local_attributes_last_modified =
      if ltb i.local_attributes_last_modified old.local_attributes_last_modified
      then old.local_attributes_last_modified
      else i.local_attributes_last_modified;
  file_claim =
      if ltb (claim_time i.file_claim) (claim_time old.file_claim)
      then old.file_claim
      else i.file_claim;
  last_used =
      if ltb (time_of i.last_used) (time_of old.last_used) then old.last_used else i.last_used;
}

unfoldable pub copy_filesystem_metadata_from : Item → Item → Item
copy_filesystem_metadata_from from i = record i {
  permissions = from.permissions;
  size = from.size;
  creation_date = from.creation_date;
  last_modified = from.last_modified;
  last_used = from.last_used;
}

unfoldable pub clear_local_copy_properties : Item → Item
clear_local_copy_properties i = record i {
  local_relative_path = none;
  local_copy_version_identifier = none;
  download_trigger_identifier = none;
  file_claim = none;
}
