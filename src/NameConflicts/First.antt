-- ===== src/NameConflicts/First.antt =====
-- The names that the search for an unused one goes through.
use ios_sdk_develop.Prelude.{
  ℕ, zero, suc, ◌<◌, ◌≡◌, refl, ap, ◌∙◌, Bool, true, false, Bool-cases, inl, inr, Option, none,
  some, List, [], ◌∷◌, ◌++◌, ◌==◌, All, Text, arith, append_nil,
}
use mathlib.Core.List.{append_assoc}
use ios_sdk_develop.NameConflicts.{
  NameStyle, no_style, Foundation, Found, Search, suggested_name, skipped, find_unused,
  item_duplicate_name, item_base_name, search_for, is_refused, suggest_unused_name, suggest_from,
  count_or_zero, used_style,
}

-- What is counted after a number of rounds, and the names of these rounds.
abbrev pub count_after : Search → ℕ → ℕ → ℕ
count_after q zero n = n
count_after q (suc k) n = count_after q k (suc (skipped q n))

abbrev pub tried_names : Foundation → Search → ℕ → ℕ → List Text
tried_names f q zero n = []
tried_names f q (suc k) n = suggested_name f q n ∷ tried_names f q k (suc (skipped q n))

find_unused-first :
    (fuel : ℕ) (f : Foundation) (q : Search) (refused : Text → Bool) (k n : ℕ) (names : List Text)
    → k < fuel
    → All (λ t. refused t ≡ true) (tried_names f q k n)
    → refused (suggested_name f q (count_after q k n)) ≡ false
    → find_unused fuel f q refused n names
      ≡ some (suggested_name f q (count_after q k n), names ++ tried_names f q k n)
unfolding find_unused
find_unused-first zero f q refused k n names h taken free = absurd (omega arith)
find_unused-first (suc fuel) f q refused zero n names h taken free =
    rw (free, append_nil names) refl
find_unused-first (suc fuel) f q refused (suc k) n names h taken free =
    rw
      (
        taken.0,
        find_unused-first fuel f q refused k (suc (skipped q n))
            (names ++ (suggested_name f q n ∷ [])) (omega arith) taken.1 free,
      )
      (ap (λ l. some (suggested_name f q (count_after q k (suc (skipped q n))), l))
        (append_assoc names (suggested_name f q n ∷ []) (tried_names f q k (suc (skipped q n)))))

-- Where the names of some first rounds are refused, by the filter or as they are taken, and the name of the
-- next round is not, this name is suggested with the list of those before it, in any number of rounds that
-- suffices.
pub suggest_unused_name-first :
    (fuel k : ℕ) (f : Foundation) (name : Text) (is_directory : Bool) (asked : NameStyle)
    (filter : Option (Text → Bool)) (exists : Text → Bool) (found : Found)
    → item_base_name f is_directory name ≡ found
    → k < fuel
    → All
        (λ t. is_refused filter exists t ≡ true)
        (tried_names f (search_for asked found) k (count_or_zero found.duplicate_count))
    → is_refused filter exists (
        suggested_name f
          (search_for asked found)
          (count_after (search_for asked found) k (count_or_zero found.duplicate_count)))
      ≡ false
    → suggest_unused_name fuel f name is_directory asked filter exists
      ≡ some (
        suggested_name f
            (search_for asked found)
            (count_after (search_for asked found) k (count_or_zero found.duplicate_count)),
        tried_names f (search_for asked found) k (count_or_zero found.duplicate_count),
      )
unfolding suggest_unused_name
suggest_unused_name-first fuel k f name is_directory asked filter exists found base h taken free =
    ap (suggest_from fuel f asked filter exists) base
    ∙ (find_unused-first fuel f (search_for asked found) (is_refused filter exists) k
        (count_or_zero found.duplicate_count) [] h taken free)

item_duplicate_name-no_style :
    (f : Foundation) (n : ℕ) (t : Text) → item_duplicate_name f no_style n t ≡ t
unfolding item_duplicate_name
item_duplicate_name-no_style f n t = elim (Bool-cases (n == 0)) [
  | inl e ↦ rw e refl
  | inr e ↦ rw e refl
]

no_style-suggested :
    (f : Foundation) (q : Search) (n : ℕ) → q.used ≡ no_style → suggested_name f q n ≡ q.base_name
no_style-suggested f q n h = elim (Bool-cases (n == 0)) [
  | inl e ↦ rw e refl
  | inr e ↦ rw (e, h) (item_duplicate_name-no_style f (skipped q n) q.base_name)
]

find_unused-endless :
    (fuel : ℕ) (f : Foundation) (q : Search) (refused : Text → Bool) (n : ℕ) (names : List Text)
    → q.used ≡ no_style
    → refused q.base_name ≡ true
    → find_unused fuel f q refused n names ≡ none
unfolding find_unused
find_unused-endless zero f q refused n names h taken = refl
find_unused-endless (suc fuel) f q refused n names h taken =
    let again = ap refused (no_style-suggested f q n h) ∙ taken in
    rw again (
      find_unused-endless fuel f q refused (suc (skipped q n))
        (names ++ (suggested_name f q n ∷ [])) h taken)

-- Where no style is asked for and the name has none, and the name is taken, the search does not end: no
-- number of rounds suffices.
pub suggest_unused_name-endless :
    (fuel : ℕ) (f : Foundation) (name : Text) (is_directory : Bool) (filter : Option (Text → Bool))
    (exists : Text → Bool) (found : Found)
    → item_base_name f is_directory name ≡ found
    → found.style ≡ no_style
    → is_refused filter exists found.base_name ≡ true
    → suggest_unused_name fuel f name is_directory no_style filter exists ≡ none
unfolding suggest_unused_name
suggest_unused_name-endless fuel f name is_directory filter exists found base plain taken =
    ap (suggest_from fuel f no_style filter exists) base
    ∙ (find_unused-endless fuel f (search_for no_style found) (is_refused filter exists)
        (count_or_zero found.duplicate_count) [] (by_style found.style plain) taken)
  where
    by_style : (s : NameStyle) → s ≡ no_style → used_style s no_style ≡ no_style
    by_style s e = rw e refl
