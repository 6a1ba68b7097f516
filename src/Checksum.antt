-- ===== src/Checksum.antt =====
-- ownCloudSDK/File Handling/Checksums/OCChecksum.h and OCChecksum.m: checksums and their form in header
-- fields, `<algorithm>:<checksum>`. How Foundation compares without case is an argument.
pub mod Header
use ios_sdk_develop.Prelude.{
  ℕ, Bool, true, false, ◌&&◌, ◌||◌, Option, none, some, List, [], ◌∷◌, ◌++◌, Text, text_eq,
  components_separated_by,
}

pub record Checksum : Type 0 where
  pub algorithm_identifier : Text
  pub checksum : Text
  pub header_string : Option Text

-- The text is read if it has two components.
abbrev pub from_components : Text → List Text → Option Checksum
from_components s [] = none
from_components s (a ∷ []) = none
from_components s (a ∷ (c ∷ [])) =
    some (record { algorithm_identifier = a; checksum = c; header_string = some s })
from_components s (a ∷ (c ∷ (d ∷ rest))) = none

unfoldable pub init_from_header_string : Text → Option Checksum
init_from_header_string s = from_components s (components_separated_by b':' s)

unfoldable pub init_with_algorithm_identifier : Text → Text → Checksum
init_with_algorithm_identifier a c = record {
  algorithm_identifier = a;
  checksum = c;
  header_string = none;
}

abbrev pub or_made : Option Text → Text → Text
or_made none made = made
or_made (some s) made = s

-- `headerString`: the text, and the checksum with it stored.
unfoldable pub get_header_string : Checksum → Text × Checksum
get_header_string c =
    let s = or_made c.header_string (c.algorithm_identifier ++ (b':' ∷ c.checksum)) in
    (s, record c { header_string = some s })

-- `isEqual:` on two checksums.
unfoldable pub is_equal : (Text → Text → Bool) → Checksum → Checksum → Bool
is_equal same_ignoring_case c d =
    (text_eq c.algorithm_identifier d.algorithm_identifier && text_eq c.checksum d.checksum)
    || (same_ignoring_case c.algorithm_identifier d.algorithm_identifier
        && same_ignoring_case c.checksum d.checksum)
