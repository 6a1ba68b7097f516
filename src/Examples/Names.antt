-- ===== src/Examples/Names.antt =====
-- Names that are taken, with numbers of one digit.
use ios_sdk_develop.Prelude.{
  ℕ, suc, ◌+◌, ◌-◌, ◌≡◌, refl, Bool, true, false, ◌&&◌, Option, none, some, [], ◌∷◌, ◌++◌, leb,
  length, any, if◌then◌else◌, arith, Text, codes, text_eq, has_prefix,
}
use ios_sdk_develop.NameConflicts.{
  no_style, copy, bracketed, numbered, Foundation, Found, item_base_name, item_duplicate_name,
  suggest_unused_name,
}
use ios_sdk_develop.NameConflicts.First.{suggest_unused_name-first, suggest_unused_name-endless}
use ios_sdk_develop.NameConflicts.Numbers.{item_base_name-item_duplicate_name}

abbrev last_range : Text → Text → Option (ℕ × ℕ)
last_range prefix [] = none
last_range prefix (c ∷ t) = elim (last_range prefix t) [
  | some r ↦ some (suc r.0, r.1)
  | none ↦ if has_prefix (c ∷ t) prefix then some (0, length prefix) else none
]

abbrev value : Text → ℕ
value [] = 0
value (c ∷ t) = c - b'0'

abbrev one_digit : Foundation
one_digit = record {
  lowercase = λ t. t;
  range_backwards = last_range;
  number_text = λ n. (b'0' + n) ∷ [];
  integer_value = value;
  is_decimal_digit = λ c. leb b'0' c && leb c b'9';
  localized_copy = codes "Kopie";
  appending_path_extension = λ t e. t ++ (b'.' ∷ e);
}

abbrev is_taken : Text → Bool
is_taken t = any (λ u. text_eq u t) (codes "a.txt" ∷ (codes "a (1).txt" ∷ []))

abbrev found_a : Found
found_a = record { style = no_style; duplicate_count = none; base_name = codes "a.txt" }

suggest_unused_name-first_example :
    suggest_unused_name 5 one_digit (codes "a.txt") false bracketed none is_taken
    ≡ some (codes "a (2).txt", codes "a.txt" ∷ (codes "a (1).txt" ∷ []))
unfolding item_base_name item_duplicate_name
suggest_unused_name-first_example =
    suggest_unused_name-first 5 2 one_digit (codes "a.txt") false bracketed none is_taken found_a
      refl (omega arith) (refl, (refl, tt)) refl

suggest_unused_name-endless_example :
    suggest_unused_name 100 one_digit (codes "a.txt") false no_style none is_taken ≡ none
unfolding item_base_name
suggest_unused_name-endless_example =
    suggest_unused_name-endless 100 one_digit (codes "a.txt") false none is_taken found_a refl refl
      refl

item_base_name-item_duplicate_name_example :
    item_base_name one_digit true (item_duplicate_name one_digit bracketed 7 (codes "a b"))
    ≡ record { style = bracketed; duplicate_count = some 7; base_name = codes "a b" }
item_base_name-item_duplicate_name_example =
    item_base_name-item_duplicate_name one_digit (codes "a b") 7 true refl
      (refl, (refl, (refl, tt))) (refl, tt) refl refl refl

-- In the numbered style a folder without a number goes on with 2.
skips_one :
    suggest_unused_name 5 one_digit (codes "b") true numbered none (text_eq (codes "b"))
    ≡ some (codes "b 2", codes "b" ∷ [])
unfolding suggest_unused_name item_duplicate_name
skips_one = refl

counts_on :
    suggest_unused_name 5 one_digit
      (codes "b Kopie 3")
      false
      copy
      none
      (text_eq (codes "b Kopie 3"))
    ≡ some (codes "b Kopie 4", codes "b Kopie 3" ∷ [])
unfolding suggest_unused_name item_duplicate_name
counts_on = refl
