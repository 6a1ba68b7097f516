-- ===== src/Checksum/Header.antt =====
-- Header strings and checksums.
use ios_sdk_develop.Prelude.{
  ◌≡◌, ap, ◌∙◌, sym, some, List, [], ◌∷◌, ◌++◌, Text, Lacks, components_separated_by,
  separated-joined, joined-separated, components_joined_by, arith,
}
use ios_sdk_develop.Checksum.{
  Checksum, from_components, init_from_header_string, init_with_algorithm_identifier,
  get_header_string,
}

-- A checksum that was made from an algorithm and a value comes back from its header string, which it
-- then holds, if neither text holds a colon.
pub init_from_header_string-get :
    (a c : Text)
    → Lacks b':' a
    → Lacks b':' c
    → init_from_header_string (get_header_string (init_with_algorithm_identifier a c)).0
      ≡ some (get_header_string (init_with_algorithm_identifier a c)).1
unfolding init_from_header_string get_header_string init_with_algorithm_identifier
init_from_header_string-get a c ha hc =
    ap (from_components (a ++ (b':' ∷ c))) (separated-joined b':' a (c ∷ []) (ha, (hc, tt)))

from_components-text :
    (s : Text) (ps : List Text) (c : Checksum)
    → from_components s ps ≡ some c
    → (components_joined_by b':' ps ≡ c.algorithm_identifier ++ (b':' ∷ c.checksum))
      × (c.header_string ≡ some s)
from_components-text s [] c h = cc
from_components-text s (a ∷ []) c h = cc
from_components-text s (a ∷ (b ∷ [])) c h = ground arith
from_components-text s (a ∷ (b ∷ (d ∷ ps))) c h = cc

-- A header string that is read is the algorithm, a colon and the value, and it is given as it was read.
pub get_header_string-init :
    (s : Text) (c : Checksum)
    → init_from_header_string s ≡ some c
    → (s ≡ c.algorithm_identifier ++ (b':' ∷ c.checksum)) × (get_header_string c ≡ (s, c))
unfolding init_from_header_string get_header_string
get_header_string-init s c h =
    let p = from_components-text s (components_separated_by b':' s) c h in
    (sym (joined-separated b':' s) ∙ p.0, ground (arith, p.1))
