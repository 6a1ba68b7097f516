-- ===== src/Item/Attributes/Replace.antt =====
-- Local attributes by name, and the item that replaces another.
use ios_sdk_develop.Prelude.{
  ℕ, ◌≡◌, refl, ap, ◌∙◌, Option, none, some, List, [], ◌∷◌, ltb, if◌then◌else◌, Text, lookup,
  without_key, set_key, lookup-set_key, text_eq, text_eq_refl, text_eq→eq, Bool-cases, inl, inr,
}
use ios_sdk_develop.Item.{Item, Activity}
use ios_sdk_develop.Item.Sync.{count_of_sync_records_with_sync_activity}
use ios_sdk_develop.Item.Attributes.{
  or_no_attributes, nil_if_no_attributes, with_attribute, value_for_local_attribute,
  set_value_for_local_attribute, prepare_to_replace,
}

or_no_attributes-nil : (ps : List (Text × ℕ)) → or_no_attributes (nil_if_no_attributes ps) ≡ ps
or_no_attributes-nil [] = refl
or_no_attributes-nil (p ∷ ps) = refl

or_no_attributes-with :
    (v : Option ℕ) (k : Text) (ps : Option (List (Text × ℕ)))
    → or_no_attributes (with_attribute v k ps) ≡ set_key text_eq k v (or_no_attributes ps)
or_no_attributes-with none k ps = or_no_attributes-nil (without_key text_eq k (or_no_attributes ps))
or_no_attributes-with (some v) k ps = refl

-- A local attribute that is set, or removed by nil, reads as it was set, and every other one reads as
-- before.
pub value_for_local_attribute-set :
    (now : ℕ) (v : Option ℕ) (k l : Text) (i : Item)
    → value_for_local_attribute l (set_value_for_local_attribute now v k i)
      ≡ (if text_eq k l then v else value_for_local_attribute l i)
unfolding value_for_local_attribute set_value_for_local_attribute
value_for_local_attribute-set now v k l i =
    ap (lookup text_eq l) (or_no_attributes-with v k i.local_attributes)
    ∙ lookup-set_key text_eq text_eq→eq text_eq_refl k l v (or_no_attributes i.local_attributes)

-- The item that replaces another has its place in the database, its identity here, and its sync records and
-- activities. It has the newer local attributes of the two, and its own if none is newer.
pub prepare_to_replace-keeps :
    (old i : Item) (a : Activity) (k : Text)
    → ((prepare_to_replace old i).database_id ≡ old.database_id)
      × ((prepare_to_replace old i).local_id ≡ old.local_id)
      × ((prepare_to_replace old i).active_sync_record_ids ≡ old.active_sync_record_ids)
      × (count_of_sync_records_with_sync_activity a (prepare_to_replace old i)
          ≡ count_of_sync_records_with_sync_activity a old)
      × (value_for_local_attribute k (prepare_to_replace old i) ≡ (
          if ltb i.local_attributes_last_modified old.local_attributes_last_modified
          then value_for_local_attribute k old
          else value_for_local_attribute k i))
unfolding prepare_to_replace count_of_sync_records_with_sync_activity value_for_local_attribute
prepare_to_replace-keeps old i a k = (
  refl,
  refl,
  refl,
  refl,
  elim (Bool-cases (ltb i.local_attributes_last_modified old.local_attributes_last_modified)) [
    | inl e ↦ rw e refl
    | inr e ↦ rw e refl
  ],
)
