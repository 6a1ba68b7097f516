-- ===== src/Lane/Overlaps.antt =====
-- What the search for a lane finds, and which lanes it collects.
use ios_sdk_develop.Prelude.{
  ℕ, ◌≡◌, inl, inr, true, false, none, some, List, [], ◌∷◌, arith, ◌==◌, length, contains, All,
  Bool-cases,
}
use ios_sdk_develop.Lane.{Tag, Lane, Search, covers_tags, check_lane, search_lanes}
use ios_sdk_develop.Lane.Tags.{overlaps, covers_tags-overlaps}

-- What one step of the search adds.
check_lane-after :
    (tags : List Tag) (l : Lane) (s : Search) (i : ℕ)
    → contains i s.after_lane_ids ≡ true
    → contains i (check_lane false tags l s).after_lane_ids ≡ true
unfolding check_lane
check_lane-after tags l s i h = ground arith

check_lane-none :
    (tags : List Tag) (l : Lane) (s : Search)
    → (check_lane false tags l s).return_lane ≡ none
    → s.return_lane ≡ none
unfolding check_lane
check_lane-none tags l s h = ground arith

check_lane-covering :
    (tags : List Tag) (l : Lane) (s : Search)
    → (check_lane false tags l s).return_lane ≡ none
    → overlaps tags l.tags ≡ true
    → contains l.identifier (check_lane false tags l s).after_lane_ids ≡ true
unfolding check_lane
check_lane-covering tags l s h o = ground (arith, covers_tags-overlaps l tags)

check_lane-All {ℓ} :
    (P : ℕ → Type ℓ) (tags : List Tag) (l : Lane) (s : Search)
    → P l.identifier
    → All P s.after_lane_ids
    → All P (check_lane false tags l s).after_lane_ids
unfolding check_lane
check_lane-All P tags l s p h = elim (Bool-cases (covers_tags l (some tags)).0) [
  | inr e ↦ rw e h
  | inl e ↦ elim (Bool-cases ((covers_tags l (some tags)).1.identical == length tags)) [
    | inl same ↦ rw (e, same) h
    | inr other ↦ rw (e, other) (p, h)
  ]
]

search_lanes-none :
    (tags : List Tag) (ls : List Lane) (s : Search)
    → (search_lanes false tags ls s).return_lane ≡ none
    → s.return_lane ≡ none
unfolding search_lanes
search_lanes-none tags [] s h = h
search_lanes-none tags (l ∷ ls) s h =
    check_lane-none tags l s (search_lanes-none tags ls (check_lane false tags l s) h)

search_lanes-after :
    (tags : List Tag) (ls : List Lane) (s : Search) (i : ℕ)
    → contains i s.after_lane_ids ≡ true
    → contains i (search_lanes false tags ls s).after_lane_ids ≡ true
unfolding search_lanes
search_lanes-after tags [] s i h = h
search_lanes-after tags (l ∷ ls) s i h =
    search_lanes-after tags ls (check_lane false tags l s) i (check_lane-after tags l s i h)

-- If no lane had the identical tags, every lane that covers them is to be waited for.
pub search_lanes-covering :
    (tags : List Tag) (ls : List Lane) (s : Search)
    → (search_lanes false tags ls s).return_lane ≡ none
    → All
        (λ l.
          overlaps tags l.tags ≡ true
          → contains l.identifier (search_lanes false tags ls s).after_lane_ids ≡ true)
        ls
unfolding search_lanes
search_lanes-covering tags [] s h = tt
search_lanes-covering tags (l ∷ ls) s h = (
  λ o.
      search_lanes-after tags ls (check_lane false tags l s) l.identifier
        (check_lane-covering tags l s (search_lanes-none tags ls (check_lane false tags l s) h) o),
  search_lanes-covering tags ls (check_lane false tags l s) h,
)

pub search_lanes-All {ℓ} :
    (P : ℕ → Type ℓ) (tags : List Tag) (ls : List Lane) (s : Search)
    → All (λ l. P l.identifier) ls
    → All P s.after_lane_ids
    → All P (search_lanes false tags ls s).after_lane_ids
unfolding search_lanes
search_lanes-All P tags [] s p h = h
search_lanes-All P tags (l ∷ ls) s p h =
    search_lanes-All P tags ls (check_lane false tags l s) p.1 (check_lane-All P tags l s p.0 h)
