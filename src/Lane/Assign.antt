-- ===== src/Lane/Assign.antt =====
-- The lane that a set of tags is assigned to has all of its tags.
use mathlib.Core.Path.{subst}
use mathlib.Core.List.{Memᴰ}
use ios_sdk_develop.Prelude.{
  ℕ, ◌+◌, ◌≤◌, ◌<◌, ◌≡◌, refl, sym, ◌∙◌, inl, inr, ◌⊎◌, Bool, true, false, not, ◌&&◌, ◌||◌, none,
  some, List, [], ◌∷◌, ◌++◌, arith, ◌==◌, length, keep, any, All, Bool-cases, Option-cases,
  if◌then◌else◌, All-snoc, All-map,
}
use ios_sdk_develop.Lane.{
  Tag, root, tag_eq, has_prefix, has_tag, Lane, LaneTable, Matches, Search, union, extend_with_tags,
  match_tag, match_tags, covers_tags, check_lane, search_lanes, new_lane, add_sync_lane,
  create_lane, lane_for_tags,
}
use ios_sdk_develop.Lane.Tags.{any-new_lane, tag_eq→eq, tag_eq_refl}

-- No tag stands twice in a set.
abbrev pub DistinctTags : List Tag → Type 0
DistinctTags [] = Unit {0}
DistinctTags (t ∷ ts) = (has_tag t ts ≡ false) × DistinctTags ts

abbrev occurrences : Tag → List Tag → ℕ
occurrences c [] = 0
occurrences c (t ∷ ts) = (if tag_eq t c then 1 else 0) + occurrences c ts

abbrev total : List Tag → List Tag → ℕ
total [] ts = 0
total (c ∷ cs) ts = (if tag_eq c root then 0 else occurrences c ts) + total cs ts

identical-match_tag :
    (c : Tag) (ts : List Tag) (m : Matches)
    → (match_tag c ts m).identical ≡ m.identical + occurrences c ts
unfolding match_tag
identical-match_tag c [] m = omega arith
identical-match_tag c (t ∷ ts) m =
    identical-match_tag c ts (
      if tag_eq t c
      then record m { identical = m.identical + 1 }
      else (if has_prefix t c || has_prefix c t then record m { prefix = m.prefix + 1 } else m))
    ∙ ground arith

identical-match_tags :
    (cs ts : List Tag) (m : Matches) → (match_tags cs ts m).identical ≡ m.identical + total cs ts
unfolding match_tags
identical-match_tags [] ts m = omega arith
identical-match_tags (c ∷ cs) ts m =
    identical-match_tags cs ts (if tag_eq c root then m else match_tag c ts m)
    ∙ ground (arith, identical-match_tag c ts m)

occurrences_absent : (c : Tag) (ts : List Tag) → has_tag c ts ≡ false → occurrences c ts ≡ 0
unfolding has_tag
occurrences_absent c [] h = refl
occurrences_absent c (t ∷ ts) h = ground (arith, occurrences_absent c ts)

tag_eq_trans_absent :
    (c t : Tag) (ts : List Tag) → tag_eq t c ≡ true → has_tag t ts ≡ false → has_tag c ts ≡ false
tag_eq_trans_absent c t ts e h = rw (← tag_eq→eq t c e) h

occurrences_le : (c : Tag) (ts : List Tag) → DistinctTags ts → occurrences c ts ≤ 1
occurrences_le c [] d = omega arith
occurrences_le c (t ∷ ts) d = elim (Bool-cases (tag_eq t c)) [
  | inl e ↦ rw e (omega (arith, occurrences_absent c ts (tag_eq_trans_absent c t ts e d.0)))
  | inr e ↦ rw e (omega (arith, occurrences_le c ts d.1))
]

total_le : (cs ts : List Tag) → DistinctTags ts → total cs ts ≤ length cs
total_le [] ts d = omega arith
total_le (c ∷ cs) ts d = ground (arith, occurrences_le c ts d, total_le cs ts d)

has_tag_occurs : (c : Tag) (ts : List Tag) → 0 < occurrences c ts → has_tag c ts ≡ true
unfolding has_tag
has_tag_occurs c [] h = absurd (omega arith)
has_tag_occurs c (t ∷ ts) h = ground (arith, has_tag_occurs c ts)

-- As many identical tags as there are tags: all of them are there.
total-All :
    (cs ts : List Tag)
    → DistinctTags ts
    → total cs ts ≡ length cs
    → All (λ c. has_tag c ts ≡ true) cs
total-All [] ts d h = tt
total-All (c ∷ cs) ts d h = (
  has_tag_occurs c ts (ground (arith, occurrences_le c ts d, total_le cs ts d)),
  total-All cs ts d (ground (arith, occurrences_le c ts d, total_le cs ts d)),
)

union-DistinctTags : (xs ts : List Tag) → DistinctTags xs → DistinctTags (union xs ts)
unfolding union
union-DistinctTags xs [] d = d
union-DistinctTags xs (t ∷ ts) d = elim (Bool-cases (has_tag t xs)) [
  | inl e ↦ rw e (union-DistinctTags xs ts d)
  | inr e ↦ rw e (union-DistinctTags (t ∷ xs) ts (e, d))
]

has_tag-keep :
    (q : Tag → Bool) (t : Tag) (xs : List Tag)
    → has_tag t xs ≡ false
    → has_tag t (keep q xs) ≡ false
unfolding has_tag
has_tag-keep q t [] h = refl
has_tag-keep q t (x ∷ xs) h = ground (arith, has_tag-keep q t xs)

keep-DistinctTags : (q : Tag → Bool) (xs : List Tag) → DistinctTags xs → DistinctTags (keep q xs)
keep-DistinctTags q [] d = tt
keep-DistinctTags q (x ∷ xs) d = elim (Bool-cases (q x)) [
  | inl e ↦ rw e (has_tag-keep q x xs d.0, keep-DistinctTags q xs d.1)
  | inr e ↦ rw e (keep-DistinctTags q xs d.1)
]

new_lane-DistinctTags :
    (i : ℕ) (tags : List Tag) (after_ids : List ℕ) → DistinctTags (new_lane i tags after_ids).tags
unfolding new_lane extend_with_tags
new_lane-DistinctTags i tags after_ids =
    keep-DistinctTags _ (union [] tags) (union-DistinctTags [] tags tt)

check_lane-some :
    (tags : List Tag) (l x : Lane) (s : Search)
    → (check_lane false tags l s).return_lane ≡ some x
    → (s.return_lane ≡ some x)
      ⊎ ((l ≡ x) × (((covers_tags l (some tags)).1.identical == length tags) ≡ true))
unfolding check_lane
check_lane-some tags l x s h = ground arith

-- The lane has every tag, except that the root need not be among them.
abbrev pub Holds : List Tag → Lane → Type 0
Holds tags l = All (λ c. (tag_eq c root || has_tag c l.tags) ≡ true) tags

identical-Holds :
    (tags : List Tag) (l : Lane)
    → DistinctTags l.tags
    → ((covers_tags l (some tags)).1.identical == length tags) ≡ true
    → Holds tags l
unfolding covers_tags
identical-Holds tags l d h =
    All-map tags (λ c e. ground arith)
      (total-All tags l.tags d
        (ground (arith, identical-match_tags tags l.tags (record { identical = 0; prefix = 0 }))))

-- The lane that a search returns is one of those searched.
search_lanes-some :
    (tags : List Tag) (ls : List Lane) (s : Search) (x : Lane)
    → All (λ l. DistinctTags l.tags) ls
    → (search_lanes false tags ls s).return_lane ≡ some x
    → (s.return_lane ≡ some x) ⊎ (Memᴰ x ls × Holds tags x)
unfolding search_lanes
search_lanes-some tags [] s x d h = inl h
search_lanes-some tags (l ∷ ls) s x d h =
    elim (search_lanes-some tags ls (check_lane false tags l s) x d.1 h) [
      | inr (m, k) ↦ inr (Memᴰ.tail m, k)
      | inl e ↦ elim (check_lane-some tags l x s e) [
        | inl old ↦ inl old
        | inr (same, i) ↦
            inr (Memᴰ.head (sym same), subst (Holds tags) same (identical-Holds tags l d.0 i))
      ]
    ]

has_tag-any : (c : Tag) (us : List Tag) → has_tag c us ≡ any (λ u. tag_eq u c) us
unfolding has_tag
has_tag-any c [] = refl
has_tag-any c (u ∷ us) = ground (arith, has_tag-any c us)

any-Memᴰ : (p : Tag → Bool) (ts : List Tag) (c : Tag) → Memᴰ c ts → p c ≡ true → any p ts ≡ true
any-Memᴰ p [] c m h = elim m [ ]
any-Memᴰ p (t ∷ ts) c (Memᴰ.head e) h = rw (← e, h)
any-Memᴰ p (t ∷ ts) c (Memᴰ.tail m) h = ground (arith, any-Memᴰ p ts c m h)

All-of-mem {ℓ κ} :
    {A : Type ℓ} (P : A → Type κ) (xs : List A) → ((x : A) → Memᴰ x xs → P x) → All P xs
All-of-mem P [] f = tt
All-of-mem P (x ∷ xs) f = (f x (Memᴰ.head refl), All-of-mem P xs (λ y m. f y (Memᴰ.tail m)))

-- A new lane has the tags that it is made for.
new_lane-Holds :
    (i : ℕ) (tags : List Tag) (after_ids : List ℕ) → Holds tags (new_lane i tags after_ids)
new_lane-Holds i tags after_ids = All-of-mem _ tags λ c m. elim (Bool-cases (tag_eq c root)) [
  | inl e ↦ rw e
  | inr e ↦ rw e (
      has_tag-any c (new_lane i tags after_ids).tags
      ∙ any-new_lane (λ u. tag_eq u c) i tags after_ids
      ∙ any-Memᴰ (λ t. not (tag_eq t root) && tag_eq t c) tags c m (ground (arith, tag_eq_refl c)))
]

snoc-Memᴰ {ℓ} : {A : Type ℓ} (xs : List A) (y : A) → Memᴰ y (xs ++ (y ∷ []))
snoc-Memᴰ [] y = Memᴰ.head refl
snoc-Memᴰ (x ∷ xs) y = Memᴰ.tail (snoc-Memᴰ xs y)

abbrev start : Search
start = record { return_lane = none; after_lane_ids = [] }

-- Where the database answers, every non-empty set of tags is assigned to a lane that stands in the
-- table afterwards and has all the tags (the root aside), an old lane or a new one; and the tags of
-- each lane in the table stay distinct.
pub lane_for_tags_assigns :
    (t : LaneTable) (g : Tag) (gs : List Tag)
    → All (λ l. DistinctTags l.tags) t.lanes
    → let r = lane_for_tags t true true false (g ∷ gs) in
      ((l : Lane) × (r.lane ≡ some l) × Memᴰ l r.table.lanes × Holds (g ∷ gs) l)
      × All (λ l. DistinctTags l.tags) r.table.lanes
unfolding lane_for_tags create_lane
lane_for_tags_assigns t g gs d =
    elim (Option-cases (search_lanes false (g ∷ gs) t.lanes start).return_lane) [
      | inr (x, e) ↦ rw (e, create_lane) ((x, refl, old x e, holds x e), d)
      | inl e ↦ rw (e, create_lane) ((l, refl, new, new_lane-Holds t.next_id (g ∷ gs) ids), kept)
    ]
  where
    ids : List ℕ
    ids = (search_lanes false (g ∷ gs) t.lanes start).after_lane_ids

    l : Lane
    l = new_lane t.next_id (g ∷ gs) ids

    found :
        (x : Lane)
        → (search_lanes false (g ∷ gs) t.lanes start).return_lane ≡ some x
        → Memᴰ x t.lanes × Holds (g ∷ gs) x
    found x e = elim (search_lanes-some (g ∷ gs) t.lanes start x d e) [ inl h ↦ cc | inr h ↦ h ]

    old :
        (x : Lane)
        → (search_lanes false (g ∷ gs) t.lanes start).return_lane ≡ some x
        → Memᴰ x t.lanes
    old x e = (found x e).0

    holds :
        (x : Lane)
        → (search_lanes false (g ∷ gs) t.lanes start).return_lane ≡ some x
        → Holds (g ∷ gs) x
    holds x e = (found x e).1

    new : Memᴰ l (add_sync_lane t l).lanes
    new = unfold add_sync_lane in snoc-Memᴰ t.lanes l

    kept : All (λ m. DistinctTags m.tags) (add_sync_lane t l).lanes
    kept =
        unfold add_sync_lane in
        All-snoc _ t.lanes l d (new_lane-DistinctTags t.next_id (g ∷ gs) ids)
