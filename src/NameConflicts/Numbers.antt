-- ===== src/NameConflicts/Numbers.antt =====
-- Numbers in brackets, put behind a name and found again.
use ios_sdk_develop.Prelude.{
  ℕ, zero, suc, ◌+◌, ◌-◌, ◌≡◌, refl, sym, ap, ◌∙◌, Bool, true, false, Option, none, some, [], ◌∷◌,
  ◌++◌, ◌==◌, leb, take, length, length-append, Lacks, Text, text_eq_refl, codes, arith,
}
use mathlib.Core.List.{append_assoc}
use ios_sdk_develop.User.{last_index, substring_from}
use ios_sdk_develop.NameConflicts.{
  bracketed, Foundation, split_into_base_name, split_at, has_suffix, is_number, number_after,
  attempt_duplicate_split, by_ending, by_localized, by_number, unknown, put_back, found_in,
  with_extension, addition, item_base_name, item_duplicate_name,
}

last_index-lacking : (c : ℕ) (t : Text) → Lacks c t → last_index c t ≡ none
unfolding last_index
last_index-lacking c [] h = refl
last_index-lacking c (x ∷ t) h = rw (last_index-lacking c t h.1, h.0) refl

Lacks-append : (c : ℕ) (s t : Text) → Lacks c s → Lacks c t → Lacks c (s ++ t)
Lacks-append c [] t h k = k
Lacks-append c (x ∷ s) t h k = (h.0, Lacks-append c s t h.1 k)

take-append : (s t : Text) → take (length s) (s ++ t) ≡ s
take-append [] t = refl
take-append (x ∷ s) t = ap (λ l. x ∷ l) (take-append s t)

substring_from-append :
    (s t : Text) (n m : ℕ) → m ≡ length s + n → substring_from m (s ++ t) ≡ substring_from n t
substring_from-append [] t n m e =
    let same : m ≡ n = omega arith in ap (λ k. substring_from k t) same
substring_from-append (x ∷ s) t n zero e = absurd (omega arith)
substring_from-append (x ∷ s) t n (suc m) e = substring_from-append s t n m (omega arith)

length-one_more : (s : Text) (c : ℕ) → length (s ++ (c ∷ [])) ≡ suc (length s)
length-one_more s c = omega (arith, length-append s (c ∷ []))

take-one_less : (s : Text) (c : ℕ) → take (length (s ++ (c ∷ [])) - 1) (s ++ (c ∷ [])) ≡ s
take-one_less s c =
    let less : length (s ++ (c ∷ [])) - 1 ≡ length s = omega (arith, length-one_more s c) in
    ap (λ n. take n (s ++ (c ∷ []))) less ∙ take-append s (c ∷ [])

has_suffix-append : (s : Text) (c : ℕ) → has_suffix (c ∷ []) (s ++ (c ∷ [])) ≡ true
has_suffix-append s c =
    let one : leb 1 (length (s ++ (c ∷ []))) ≡ true = ground (arith, length-one_more s c) in
    rw
      (
        one,
        substring_from-append s (c ∷ []) 0 (length (s ++ (c ∷ [])) - 1)
            (omega (arith, length-one_more s c)),
      )
      (text_eq_refl (c ∷ []))

split_into_base_name-lacking : (t : Text) → Lacks b'.' t → split_into_base_name t ≡ (t, none)
unfolding split_into_base_name
split_into_base_name-lacking t h = ap (λ o. split_at o t) (last_index-lacking b'.' t h)

abbrev pub in_brackets : Text → Text → Text
in_brackets name number = name ++ (codes " (" ++ (number ++ codes ")"))

in_brackets-lacking :
    (name number : Text)
    → Lacks b'.' name
    → Lacks b'.' number
    → Lacks b'.' (in_brackets name number)
in_brackets-lacking name number plain digits =
    Lacks-append b'.' name (codes " (" ++ (number ++ codes ")")) plain
      (refl, (refl, Lacks-append b'.' number (codes ")") digits (refl, tt)))

in_brackets-has_suffix :
    (name number : Text) → has_suffix (codes ")") (in_brackets name number) ≡ true
in_brackets-has_suffix name number =
    ap (has_suffix (codes ")")) (sym (append_assoc name (codes " (" ++ number) (codes ")")))
    ∙ has_suffix-append (name ++ (codes " (" ++ number)) b')'

number_after-in_brackets :
    (f : Foundation) (name number : Text) (n : ℕ)
    → is_number f number ≡ true
    → f.integer_value number ≡ n
    → number_after f
        (some (length name, 2))
        (codes ")")
        bracketed
        (unknown (in_brackets name number))
      ≡ record { style = bracketed; duplicate_count = some n; base_name = name }
number_after-in_brackets f name number n numeric value =
    rw
      (
        substring_from-append name (codes " (" ++ (number ++ codes ")")) 2 (length name + 2)
            (omega arith),
        take-one_less number b')',
        numeric,
        value,
        take-append name (codes " (" ++ (number ++ codes ")")),
      )
      refl

by_ending-in_brackets :
    (f : Foundation) (name number : Text) (n : ℕ)
    → is_number f number ≡ true
    → f.integer_value number ≡ n
    → f.range_backwards (codes " (") (in_brackets name number) ≡ some (length name, 2)
    → by_ending f (unknown (in_brackets name number))
      ≡ record { style = bracketed; duplicate_count = some n; base_name = name }
unfolding attempt_duplicate_split
by_ending-in_brackets f name number n numeric value found =
    rw (in_brackets-has_suffix name number) (
      ap (λ o. number_after f o (codes ")") bracketed (unknown (in_brackets name number))) found
      ∙ number_after-in_brackets f name number n numeric value)

item_duplicate_name-in_brackets :
    (f : Foundation) (name : Text) (n : ℕ)
    → (n == 0) ≡ false
    → Lacks b'.' name
    → item_duplicate_name f bracketed n name ≡ in_brackets name (f.number_text n)
unfolding item_duplicate_name
item_duplicate_name-in_brackets f name n positive plain = rw positive (
    ap
      (λ (parts : Text × Option Text). with_extension f parts.1 (parts.0 ++ addition f bracketed n))
      (split_into_base_name-lacking name plain))

-- A name without a dot that gets a number in brackets is found again with its style and its number, where
-- the number is written in digits that are read as this number, and the backwards search finds the last
-- bracket behind a space.
pub item_base_name-item_duplicate_name :
    (f : Foundation) (name : Text) (n : ℕ) (ambiguous : Bool)
    → (n == 0) ≡ false
    → Lacks b'.' name
    → Lacks b'.' (f.number_text n)
    → is_number f (f.number_text n) ≡ true
    → f.integer_value (f.number_text n) ≡ n
    → f.range_backwards (codes " (") (in_brackets name (f.number_text n)) ≡ some (length name, 2)
    → item_base_name f ambiguous (item_duplicate_name f bracketed n name)
      ≡ record { style = bracketed; duplicate_count = some n; base_name = name }
unfolding item_base_name
item_base_name-item_duplicate_name f name n ambiguous positive plain digits numeric value found =
    let whole = in_brackets name (f.number_text n) in
    ap (item_base_name f ambiguous) (item_duplicate_name-in_brackets f name n positive plain)
    ∙ (ap (found_in f ambiguous) (
          split_into_base_name-lacking whole
            (in_brackets-lacking name (f.number_text n) plain digits))
        ∙ ap (λ d. put_back f none (by_number f ambiguous (by_localized f d)))
            (by_ending-in_brackets f name (f.number_text n) n numeric value found))
