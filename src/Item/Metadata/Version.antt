-- ===== src/Item/Metadata/Version.antt =====
-- The version identifier that an item stores, placeholders, and the local copy.
use ios_sdk_develop.Prelude.{
  ◌≡◌, refl, ap, sym, ◌∙◌, true, false, Option, none, some, List, [], ◌∷◌, ◌++◌, Text, text_eq,
  has_prefix, arith,
}
use ios_sdk_develop.Item.{
  Item, ItemType, VersionIdentifier, new_item, cloud_only, placeholder_prefix, e_tag_placeholder,
}
use ios_sdk_develop.Item.Metadata.{
  set_e_tag, set_file_id, placeholder_item_of_type, item_version_identifier, or_version,
  is_placeholder, cloud_status,
}

-- What is stored is the version that the item has now.
unfoldable pub IsCurrent : Item → Type 0
IsCurrent i =
    (v : VersionIdentifier)
    → i.version_identifier ≡ some v
    → v ≡ record { file_id = i.file_id; e_tag = i.e_tag }

-- A step on the identity of an item.
pub data VersionStep : Type 0 where
  sets_e_tag sets_file_id : Option Text → VersionStep
  asks_for_version : VersionStep

unfoldable pub version_step : VersionStep → Item → Item
version_step (sets_e_tag e_tag) i = set_e_tag e_tag i
version_step (sets_file_id file_id) i = set_file_id file_id i
version_step asks_for_version i = (item_version_identifier i).1

unfoldable pub version_steps : List VersionStep → Item → Item
version_steps [] i = i
version_steps (s ∷ steps) i = version_steps steps (version_step s i)

or_version-current :
    (o : Option VersionIdentifier) (made : VersionIdentifier)
    → ((v : VersionIdentifier) → o ≡ some v → v ≡ made)
    → or_version o made ≡ made
or_version-current none made h = refl
or_version-current (some v) made h = h v refl

some-IsInjective : (a b : VersionIdentifier) → some a ≡ some b → a ≡ b
some-IsInjective a b h = ap (λ o. or_version o a) h

version_step-IsCurrent : (s : VersionStep) (i : Item) → IsCurrent i → IsCurrent (version_step s i)
unfolding IsCurrent version_step set_e_tag set_file_id item_version_identifier
version_step-IsCurrent (sets_e_tag e) i h v k = cc
version_step-IsCurrent (sets_file_id f) i h v k = cc
version_step-IsCurrent asks_for_version i h v k =
    sym (some-IsInjective _ v k) ∙ or_version-current i.version_identifier _ h

version_steps-IsCurrent :
    (steps : List VersionStep) (i : Item) → IsCurrent i → IsCurrent (version_steps steps i)
unfolding version_steps
version_steps-IsCurrent [] i h = h
version_steps-IsCurrent (s ∷ steps) i h =
    version_steps-IsCurrent steps _ (version_step-IsCurrent s i h)

-- However the file identifier and the ETag of a new item were set and its version asked for, the version that the
-- item gives has the file identifier and the ETag that the item has now.
pub item_version_identifier-IsCurrent :
    (steps : List VersionStep) (local_id : Text)
    → (item_version_identifier (version_steps steps (new_item local_id))).0 ≡ record {
      file_id = (version_steps steps (new_item local_id)).file_id;
      e_tag = (version_steps steps (new_item local_id)).e_tag;
    }
unfolding IsCurrent item_version_identifier new_item
item_version_identifier-IsCurrent steps local_id =
    let i = version_steps steps (new_item local_id) in
    or_version-current i.version_identifier _
      (version_steps-IsCurrent steps (new_item local_id) (λ v k. cc))

has_prefix-append : (s t : Text) → has_prefix (s ++ t) s ≡ true
has_prefix-append [] [] = refl
has_prefix-append [] (b ∷ t) = refl
has_prefix-append (a ∷ s) t = ground (arith, has_prefix-append s t)

-- A placeholder is one whatever its identifier, has no local copy yet, and is no placeholder any more
-- once the server's ETag and an identifier without the prefix are set.
pub placeholder_item_of_type-is_placeholder :
    (local_id uuid e_tag file_id : Text) (type : ItemType)
    → text_eq e_tag e_tag_placeholder ≡ false
    → has_prefix file_id placeholder_prefix ≡ false
    → (is_placeholder (placeholder_item_of_type local_id type uuid) ≡ true)
      × (cloud_status (placeholder_item_of_type local_id type uuid) ≡ cloud_only)
      × (is_placeholder (set_e_tag (some e_tag) (placeholder_item_of_type local_id type uuid))
          ≡ true)
      × (is_placeholder (
            set_file_id
              (some file_id)
              (set_e_tag (some e_tag) (placeholder_item_of_type local_id type uuid)))
          ≡ false)
unfolding is_placeholder placeholder_item_of_type cloud_status set_e_tag set_file_id new_item
placeholder_item_of_type-is_placeholder local_id uuid e_tag file_id type he hf =
    (refl, refl, rw he (has_prefix-append placeholder_prefix uuid), rw (he, hf) refl)
