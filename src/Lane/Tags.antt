-- ===== src/Lane/Tags.antt =====
-- When a lane covers a set of tags, and what the tags of a new lane are.
use ios_sdk_develop.Prelude.{
  ℕ, ◌+◌, ◌≡◌, refl, ◌∙◌, inl, inr, Bool, true, not, ◌&&◌, ◌||◌, some, List, [], ◌∷◌, arith, ltb,
  keep, any, Bool-cases, if◌then◌else◌,
}
use ios_sdk_develop.Lane.{
  Tag, root, tag_eq, has_prefix, Lane, Matches, match_tag, match_tags, covers_tags, has_tag, union,
  extend_with_tags, new_lane,
}

-- Two tags are the same, or one is a prefix of the other.
abbrev pub related : Tag → Tag → Bool
related check t = tag_eq t check || (has_prefix t check || has_prefix check t)

-- Some tag of the first set but the root is related to one of the second set.
abbrev pub overlaps : List Tag → List Tag → Bool
overlaps checks tags = any (λ c. not (tag_eq c root) && any (related c) tags) checks

abbrev found : Matches → Bool
found m = ltb 0 m.identical || ltb 0 m.prefix

found-match_tag :
    (c : Tag) (ts : List Tag) (m : Matches)
    → found (match_tag c ts m) ≡ (found m || any (related c) ts)
unfolding match_tag
found-match_tag c [] m = ground arith
found-match_tag c (t ∷ ts) m =
    found-match_tag c ts (
      if tag_eq t c
      then record m { identical = m.identical + 1 }
      else (if has_prefix t c || has_prefix c t then record m { prefix = m.prefix + 1 } else m))
    ∙ ground arith

found-match_tags :
    (cs ts : List Tag) (m : Matches) → found (match_tags cs ts m) ≡ (found m || overlaps cs ts)
unfolding match_tags
found-match_tags [] ts m = ground arith
found-match_tags (c ∷ cs) ts m =
    found-match_tags cs ts (if tag_eq c root then m else match_tag c ts m)
    ∙ ground (arith, found-match_tag c ts m)

-- A lane covers a set of tags exactly when some tag of the set but the root is the same as a tag of
-- the lane, or one of the two is a prefix of the other.
pub covers_tags-overlaps :
    (l : Lane) (checks : List Tag) → (covers_tags l (some checks)).0 ≡ overlaps checks l.tags
unfolding covers_tags
covers_tags-overlaps l checks =
    found-match_tags checks l.tags (record { identical = 0; prefix = 0 })

pub tag_eq_refl : (t : Tag) → tag_eq t t ≡ true
unfolding tag_eq
tag_eq_refl [] = refl
tag_eq_refl (a ∷ as_) = ground (arith, tag_eq_refl as_)

pub tag_eq→eq : (s t : Tag) → tag_eq s t ≡ true → s ≡ t
unfolding tag_eq
tag_eq→eq [] [] h = refl
tag_eq→eq [] (b ∷ bs) h = cc
tag_eq→eq (a ∷ as_) [] h = cc
tag_eq→eq (a ∷ as_) (b ∷ bs) h = ground (arith, tag_eq→eq as_ bs)

pub tag_eq_sym : (s t : Tag) → tag_eq s t ≡ tag_eq t s
unfolding tag_eq
tag_eq_sym [] [] = refl
tag_eq_sym [] (b ∷ bs) = refl
tag_eq_sym (a ∷ as_) [] = refl
tag_eq_sym (a ∷ as_) (b ∷ bs) = ground (arith, tag_eq_sym as_ bs)

pub related_sym : (s t : Tag) → related s t ≡ related t s
related_sym s t = ground (arith, tag_eq_sym s t)

any-keep : (p q : Tag → Bool) (xs : List Tag) → any p (keep q xs) ≡ any (λ x. q x && p x) xs
any-keep p q [] = refl
any-keep p q (x ∷ xs) = ground (arith, any-keep p q xs)

has_tag-any :
    (p : Tag → Bool) (t : Tag) (xs : List Tag) → has_tag t xs ≡ true → p t ≡ true → any p xs ≡ true
unfolding has_tag
has_tag-any p t [] h pt = cc
has_tag-any p t (x ∷ xs) h pt = elim (Bool-cases (tag_eq x t)) [
  | inl e ↦ rw (tag_eq→eq x t e, pt)
  | inr e ↦ ground (arith, has_tag-any p t xs)
]

any-union : (p : Tag → Bool) (xs ts : List Tag) → any p (union xs ts) ≡ (any p xs || any p ts)
unfolding union
any-union p xs [] = ground arith
any-union p xs (t ∷ ts) =
    any-union p (if has_tag t xs then xs else t ∷ xs) ts ∙ ground (arith, has_tag-any p t xs)

-- A test holds of some tag of a new lane if it holds of some tag but the root that it is made for.
pub any-new_lane :
    (p : Tag → Bool) (i : ℕ) (ts : List Tag) (after_ids : List ℕ)
    → any p (new_lane i ts after_ids).tags ≡ any (λ t. not (tag_eq t root) && p t) ts
unfolding new_lane extend_with_tags
any-new_lane p i ts after_ids =
    any-keep p (λ t. not (tag_eq t root)) (union [] ts)
    ∙ any-union (λ t. not (tag_eq t root) && p t) [] ts
