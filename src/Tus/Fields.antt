-- ===== src/Tus/Fields.antt =====
-- What header fields keep of a header.
use ios_sdk_develop.Prelude.{
  ℕ, ◌<◌, ◌^◌, ◌≡◌, refl, ap, Option, none, some, List, [], ◌∷◌, Text, Lacks, All,
  components_separated_by, components_joined_by, separated-joined,
}
use ios_sdk_develop.Tus.{
  Numbers, Header, versions_or, populate_from_http_headers, http_header_fields, map_option,
}

-- A list that header fields can carry: none, or at least one text, none with a comma.
unfoldable pub IsCarried : Option (List Text) → Type 0
IsCarried none = Unit
IsCarried (some []) = ⊥
IsCarried (some (x ∷ xs)) = All (Lacks b',') (x ∷ xs)

separated-carried :
    (l : Option (List Text))
    → IsCarried l
    → map_option (components_separated_by b',') (map_option (components_joined_by b',') l) ≡ l
unfolding IsCarried
separated-carried none h = refl
separated-carried (some []) h = absurd h
separated-carried (some (x ∷ xs)) h = ap some (separated-joined b',' x xs h)

-- A number that is there is in the range of `long long`.
abbrev pub InRange : Option ℕ → Type 0
InRange none = Unit
InRange (some k) = k < 2 ^ 63

-- A header without a list of versions has no version either: one that is alone is read as a list.
abbrev pub ListsVersions : Option Text → Option (List Text) → Type 0
ListsVersions version (some vs) = Unit
ListsVersions version none = version ≡ none

-- Numbers in the range of `long long` read as they print.
abbrev pub ReadsPrinted : Numbers → Type 0
ReadsPrinted n = (k : ℕ) → k < 2 ^ 63 → n.long_long_value (n.string_value k) ≡ k

read-printed :
    (n : Numbers)
    → ReadsPrinted n
    → (o : Option ℕ) → InRange o
    → map_option n.long_long_value (map_option n.string_value o) ≡ o
read-printed n read none h = refl
read-printed n read (some k) h = ap some (read k h)

versions_or-listed :
    (version : Option Text) (versions : Option (List Text))
    → ListsVersions version versions
    → versions_or versions version ≡ versions
versions_or-listed version (some vs) h = refl
versions_or-listed version none h = rw h refl

-- A header comes back from its header fields, without the maximum chunk size and the upload metadata:
-- these two are never read. Numbers in the range of `long long` must read as they print, the header's must
-- be in this range, its lists must be ones that fields can carry, and a header with a version must list
-- versions.
pub populate_from_http_headers-http_header_fields :
    (n : Numbers) (h : Header)
    → ReadsPrinted n
    → InRange h.maximum_size
    → InRange h.upload_offset
    → InRange h.upload_length
    → IsCarried h.versions
    → IsCarried h.extensions
    → ListsVersions h.version h.versions
    → populate_from_http_headers n (http_header_fields n h)
      ≡ record h { maximum_chunk_size = none; upload_metadata = none }
unfolding populate_from_http_headers http_header_fields
populate_from_http_headers-http_header_fields n h read size offset total hv he listed =
    rw
      (
        separated-carried h.versions hv,
        versions_or-listed h.version h.versions listed,
        separated-carried h.extensions he,
        read-printed n read h.maximum_size size,
        read-printed n read h.upload_offset offset,
        read-printed n read h.upload_length total,
      )
      refl
