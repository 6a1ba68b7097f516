-- ===== src/NameConflicts.antt =====
-- ownCloudSDK/Core/NameConflicts: names that are made of a name that is taken. What Foundation does with
-- texts is a parameter; of a filter that is given and the search in the cache only the answers are used.
pub mod First
pub mod Numbers
use ios_sdk_develop.Prelude.{
  ℕ, zero, suc, ◌+◌, ◌-◌, Bool, true, false, not, ◌&&◌, ◌||◌, Option, none, some, List, [], ◌∷◌,
  ◌++◌, ◌==◌, ltb, leb, length, take, any, if◌then◌else◌, Text, codes, text_eq,
}
use ios_sdk_develop.User.{last_index, substring_from}

-- `OCCoreDuplicateNameStyle`.
pub data NameStyle : Type 0 where
  no_style copy copy_localized bracketed numbered : NameStyle

-- What Foundation does: lower case, the backwards search that ignores case with the location and the length
-- that it finds, numbers as texts and back, digits, and path extensions; and the word for a copy.
pub record Foundation : Type 0 where
  pub lowercase : Text → Text
  pub range_backwards : Text → Text → Option (ℕ × ℕ)
  pub number_text : ℕ → Text
  pub integer_value : Text → ℕ
  pub is_decimal_digit : ℕ → Bool
  pub localized_copy : Text
  pub appending_path_extension : Text → Text → Text

-- What is found in a name.
pub record Found : Type 0 where
  pub style : NameStyle
  pub duplicate_count : Option ℕ
  pub base_name : Text

abbrev pub is_no_style : NameStyle → Bool
is_no_style no_style = true
is_no_style copy = false
is_no_style copy_localized = false
is_no_style bracketed = false
is_no_style numbered = false

abbrev pub is_numbered : NameStyle → Bool
is_numbered no_style = false
is_numbered copy = false
is_numbered copy_localized = false
is_numbered bracketed = false
is_numbered numbered = true

-- The base name, and the extension behind the last dot.
abbrev pub split_at : Option ℕ → Text → Text × Option Text
split_at none name = (name, none)
split_at (some i) name = (take i name, some (substring_from (suc i) name))

unfoldable pub split_into_base_name : Text → Text × Option Text
unfolding last_index
split_into_base_name name = split_at (last_index b'.' name) name

abbrev pub has_suffix : Text → Text → Bool
has_suffix suffix name =
    leb (length suffix) (length name)
    && text_eq (substring_from (length name - length suffix) name) suffix

abbrev pub ends_with_one : Foundation → Option Text → Text → Bool
ends_with_one f none name = false
ends_with_one f (some one) name = has_suffix (f.lowercase one) (f.lowercase name)

abbrev pub length_of_one : Option Text → ℕ
length_of_one none = 0
length_of_one (some one) = length one

abbrev pub is_number : Foundation → Text → Bool
is_number f t = ltb 0 (length t) && not (any (λ c. not (f.is_decimal_digit c)) t)

abbrev pub number_after : Foundation → Option (ℕ × ℕ) → Text → NameStyle → Found → Found
number_after f none suffix style d = d
number_after f (some (location, size)) suffix style d =
    let rest = substring_from (location + size) d.base_name in
    let number = take (length rest - length suffix) rest in
    if is_number f number
    then record {
      style = style;
      duplicate_count = some (f.integer_value number);
      base_name = take location d.base_name;
    }
    else d

-- `AttemptDuplicateSplit`.
unfoldable pub attempt_duplicate_split :
    Foundation → Text → Option Text → Text → NameStyle → Found → Found
attempt_duplicate_split f prefix one suffix style d =
    if ends_with_one f one d.base_name
    then record {
      style = style;
      duplicate_count = some 1;
      base_name = take (length d.base_name - length_of_one one) d.base_name;
    }
    else number_after f (f.range_backwards prefix d.base_name) suffix style d

abbrev pub nothing : Text
nothing = []

abbrev pub with_extension : Foundation → Option Text → Text → Text
with_extension f none base = base
with_extension f (some extension) base = f.appending_path_extension base extension

-- The first attempt: brackets, or the English word.
abbrev pub by_ending : Foundation → Found → Found
by_ending f d =
    if has_suffix (codes ")") d.base_name
    then attempt_duplicate_split f (codes " (") none (codes ")") bracketed d
    else attempt_duplicate_split f (codes " copy ") (some (codes " copy")) nothing copy d

abbrev pub by_localized : Foundation → Found → Found
by_localized f d =
    if is_no_style d.style
    then attempt_duplicate_split f (codes " " ++ (f.localized_copy ++ codes " "))
        (some (codes " " ++ f.localized_copy)) nothing copy_localized d
    else d

abbrev pub by_number : Foundation → Bool → Found → Found
by_number f allow_ambiguous d =
    if is_no_style d.style && allow_ambiguous
    then attempt_duplicate_split f (codes " ") none nothing numbered d
    else d

abbrev pub unknown : Text → Found
unknown base = record { style = no_style; duplicate_count = none; base_name = base }

abbrev pub put_back : Foundation → Option Text → Found → Found
put_back f extension found = record found { base_name = with_extension f extension found.base_name }

abbrev pub found_in : Foundation → Bool → Text × Option Text → Found
found_in f allow_ambiguous parts =
    put_back f parts.1
      (by_number f allow_ambiguous (by_localized f (by_ending f (unknown parts.0))))

-- `itemBaseNameWithStyle:duplicateCount:allowAmbiguous:`.
unfoldable pub item_base_name : Foundation → Bool → Text → Found
unfolding split_into_base_name attempt_duplicate_split
item_base_name f allow_ambiguous name = found_in f allow_ambiguous (split_into_base_name name)

-- What is put behind the base name.
abbrev pub addition : Foundation → NameStyle → ℕ → Text
addition f no_style n = []
addition f copy n = if n == 1 then codes " copy" else codes " copy " ++ f.number_text n
addition f copy_localized n =
    if n == 1
    then codes " " ++ f.localized_copy
    else codes " " ++ (f.localized_copy ++ (codes " " ++ f.number_text n))
addition f bracketed n = codes " (" ++ (f.number_text n ++ codes ")")
addition f numbered n = codes " " ++ f.number_text n

-- `itemDuplicateNameWithStyle:duplicateCount:`; without a style the name is left as it is.
unfoldable pub item_duplicate_name : Foundation → NameStyle → ℕ → Text → Text
unfolding split_into_base_name
item_duplicate_name f style n name =
    let parts = split_into_base_name name in
    if n == 0 || is_no_style style
    then name
    else with_extension f parts.1 (parts.0 ++ addition f style n)

-- What the search for a name goes by: the style that is asked for, the one that is used, what was counted in
-- the name and its base.
pub record Search : Type 0 where
  pub asked : NameStyle
  pub used : NameStyle
  pub counted : Option ℕ
  pub base_name : Text

abbrev pub is_after_one : Option ℕ → Bool
is_after_one none = true
is_after_one (some n) = ltb 1 n

-- In the numbered style the number 1 is skipped, unless the name had the number 0 or 1.
abbrev pub skipped : Search → ℕ → ℕ
skipped q n = if is_numbered q.asked && (n == 1 && is_after_one q.counted) then suc n else n

abbrev pub suggested_name : Foundation → Search → ℕ → Text
suggested_name f q n =
    if n == 0 then q.base_name else item_duplicate_name f q.used (skipped q n) q.base_name

-- A name that the filter does not let through, or that is taken.
abbrev pub is_refused : Option (Text → Bool) → (Text → Bool) → Text → Bool
is_refused none exists name = exists name
is_refused (some filter) exists name = not (filter name) || exists name

-- The loop, of at most so many rounds, with the names that were refused.
unfoldable pub find_unused :
    ℕ → Foundation → Search → (Text → Bool) → ℕ → List Text → Option (Text × List Text)
find_unused zero f q refused n names = none
find_unused (suc fuel) f q refused n names =
    let name = suggested_name f q n in
    let rest = find_unused fuel f q refused (suc (skipped q n)) (names ++ (name ∷ [])) in
    if refused name then rest else some (name, names)

abbrev pub used_style : NameStyle → NameStyle → NameStyle
used_style found asked = if is_no_style found || is_numbered found then asked else found

abbrev pub search_for : NameStyle → Found → Search
search_for asked d = record {
  asked = asked;
  used = used_style d.style asked;
  counted = d.duplicate_count;
  base_name = d.base_name;
}

abbrev pub count_or_zero : Option ℕ → ℕ
count_or_zero none = 0
count_or_zero (some n) = n

abbrev pub suggest_from :
    ℕ
    → Foundation
    → NameStyle
    → Option (Text → Bool)
    → (Text → Bool)
    → Found
    → Option (Text × List Text)
suggest_from fuel f asked filter exists found =
    find_unused fuel f (search_for asked found) (is_refused filter exists)
      (count_or_zero found.duplicate_count) []

-- `_suggestUnusedNameBasedOn:atPath:isDirectory:usingNameStyle:filteredBy:resultHandler:` at a path whose names
-- in the cache are given: what the handler gets, or none where the rounds are used up.
unfoldable pub suggest_unused_name :
    ℕ
    → Foundation
    → Text
    → Bool
    → NameStyle
    → Option (Text → Bool)
    → (Text → Bool)
    → Option (Text × List Text)
unfolding item_base_name find_unused
suggest_unused_name fuel f name is_directory asked filter exists =
    suggest_from fuel f asked filter exists (item_base_name f is_directory name)
