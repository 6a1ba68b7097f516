-- ===== src/Lane/Order.antt =====
-- Lanes whose tags overlap wait for one another, and never in a circle.
use ios_sdk_develop.Prelude.{
  ℕ, suc, ◌<◌, ◌≡◌, refl, ap, ◌∙◌, inl, inr, Bool, true, false, not, ◌||◌, none, List, [], ◌∷◌,
  ◌++◌, arith, keep, any, contains, All, Bool-cases, Option-cases, if◌then◌else◌, All-keep,
  All-snoc, All-map, All-zip,
}
use ios_sdk_develop.Lane.{
  Tag, Lane, LaneTable, Search, search_lanes, new_lane, add_sync_lane, remove_sync_lane,
  create_lane, lane_for_tags, extend_with_tags,
}
use ios_sdk_develop.Lane.Tags.{related, overlaps, any-new_lane}
use ios_sdk_develop.Lane.Overlaps.{search_lanes-covering, search_lanes-All}

-- A tag of one lane is related to a tag of the other.
abbrev pub conflict : Lane → Lane → Bool
conflict l m = any (λ t. any (related t) l.tags) m.tags

-- The later lane has the larger identifier, and waits for the earlier one if their tags conflict.
abbrev pub Before : Lane → Lane → Type 0
Before l m =
    (l.identifier < m.identifier)
    × ((not (conflict l m) || contains l.identifier m.after_lanes) ≡ true)

abbrev pub Chain : List Lane → Type 0
Chain [] = Unit {0}
Chain (l ∷ ls) = All (Before l) ls × Chain ls

-- A lane waits for lanes that are older than itself only.
abbrev pub Older : Lane → Type 0
Older l = All (λ a. a < l.identifier) l.after_lanes

pub record Inv (t : LaneTable) : Type 0 where
  pub chain : Chain t.lanes
  pub below : All (λ l. l.identifier < t.next_id) t.lanes
  pub older : All Older t.lanes

keep-Chain : (q : Lane → Bool) (ls : List Lane) → Chain ls → Chain (keep q ls)
keep-Chain q [] h = tt
keep-Chain q (l ∷ ls) h = elim (Bool-cases (q l)) [
  | inl e ↦ rw e (All-keep (Before l) q ls h.0, keep-Chain q ls h.1)
  | inr e ↦ rw e (keep-Chain q ls h.1)
]

snoc-Chain :
    (ls : List Lane) (m : Lane) → Chain ls → All (λ l. Before l m) ls → Chain (ls ++ (m ∷ []))
snoc-Chain [] m h a = (tt, tt)
snoc-Chain (l ∷ ls) m h a = (All-snoc (Before l) ls m h.0 a.0, snoc-Chain ls m h.1 a.1)

conflict-new_lane :
    (l : Lane) (i : ℕ) (tags : List Tag) (after_ids : List ℕ)
    → conflict l (new_lane i tags after_ids) ≡ overlaps tags l.tags
conflict-new_lane l i tags after_ids = any-new_lane (λ t. any (related t) l.tags) i tags after_ids

Before-new_lane :
    (m : Lane) (i : ℕ) (tags : List Tag) (after_ids : List ℕ)
    → m.identifier < i
    → (overlaps tags m.tags ≡ true → contains m.identifier after_ids ≡ true)
    → Before m (new_lane i tags after_ids)
unfolding new_lane extend_with_tags
Before-new_lane m i tags after_ids h k = elim (Bool-cases (overlaps tags m.tags)) [
  | inl o ↦ (h, waits (conflict m (new_lane i tags after_ids)) (k o))
  | inr o ↦ (
    h,
    ap (λ b. not b || contains m.identifier after_ids) (conflict-new_lane m i tags after_ids ∙ o),
  )
]
  where
    waits :
        (b : Bool)
        → contains m.identifier after_ids ≡ true
        → (not b || contains m.identifier after_ids) ≡ true
    waits b q = ground (arith, q)

Older-new_lane :
    (i : ℕ) (tags : List Tag) (after_ids : List ℕ)
    → All (λ a. a < i) after_ids
    → Older (new_lane i tags after_ids)
unfolding new_lane extend_with_tags
Older-new_lane i tags after_ids h = h

identifier-new_lane :
    (i : ℕ) (tags : List Tag) (after_ids : List ℕ) → (new_lane i tags after_ids).identifier ≡ i
unfolding new_lane extend_with_tags
identifier-new_lane i tags after_ids = refl

abbrev start : Search
start = record { return_lane = none; after_lane_ids = [] }

-- The invariant after a lane was added that the search asked for.
add_sync_lane-Inv :
    (t : LaneTable) (tags : List Tag)
    → (search_lanes false tags t.lanes start).return_lane ≡ none
    → Inv t
    → Inv (
        add_sync_lane t
          (new_lane t.next_id tags (search_lanes false tags t.lanes start).after_lane_ids))
unfolding add_sync_lane
add_sync_lane-Inv t tags none_found v = record {
  chain = snoc-Chain t.lanes l v.chain before;
  below =
      All-snoc (λ m. m.identifier < suc t.next_id) t.lanes l
        (All-map t.lanes (λ m h. omega arith) v.below)
        (omega (arith, identifier-new_lane t.next_id tags ids));
  older = All-snoc Older t.lanes l v.older (
      Older-new_lane t.next_id tags ids
        (search_lanes-All (λ a. a < t.next_id) tags t.lanes start v.below tt));
}
  where
    ids : List ℕ
    ids = (search_lanes false tags t.lanes start).after_lane_ids

    l : Lane
    l = new_lane t.next_id tags ids

    before : All (λ m. Before m l) t.lanes
    before =
        All-map t.lanes (λ m h. Before-new_lane m t.next_id tags ids h.0 h.1)
          (All-zip _ _ t.lanes v.below (search_lanes-covering tags t.lanes start none_found))

-- Removing a lane keeps the order of the others.
pub remove_sync_lane-Inv : (t : LaneTable) (i : ℕ) → Inv t → Inv (remove_sync_lane t i)
unfolding remove_sync_lane
remove_sync_lane-Inv t i v = record {
  chain = keep-Chain _ t.lanes v.chain;
  below = All-keep _ _ t.lanes v.below;
  older = All-keep _ _ t.lanes v.older;
}

create_lane-Inv :
    (t : LaneTable) (inserts : Bool) (tags : List Tag)
    → Inv t
    → Inv (create_lane t inserts false tags (search_lanes false tags t.lanes start)).table
unfolding create_lane
create_lane-Inv t inserts tags v =
    elim (Option-cases (search_lanes false tags t.lanes start).return_lane) [
      | inr (l, e) ↦ rw (e, create_lane) v
      | inl e ↦ elim (Bool-cases inserts) [
        | inl i ↦ rw (e, create_lane, i) (add_sync_lane-Inv t tags e v)
        | inr i ↦ rw (e, create_lane, i) v
      ]
    ]

-- Where the lanes can be read, finding a lane for a set of tags keeps the lanes in order: lanes have
-- rising identifiers below the next one, wait only for older lanes, and of two lanes whose tags
-- conflict the newer one waits for the older one.
pub lane_for_tags-Inv :
    (t : LaneTable) (inserts : Bool) (tags : List Tag)
    → Inv t
    → Inv (lane_for_tags t true inserts false tags).table
unfolding lane_for_tags
lane_for_tags-Inv t inserts [] v = v
lane_for_tags-Inv t inserts (g ∷ gs) v = create_lane-Inv t inserts (g ∷ gs) v

-- A read-only search leaves the lanes as they are.
pub lane_for_tags_read_only :
    (t : LaneTable) (reads inserts : Bool) (tags : List Tag)
    → (lane_for_tags t reads inserts true tags).table ≡ t
unfolding lane_for_tags
lane_for_tags_read_only t reads inserts [] = refl
lane_for_tags_read_only t reads inserts (g ∷ gs) =
    split (search_lanes true (g ∷ gs) (if reads then t.lanes else []) start)
  where
    split : (s : Search) → (create_lane t inserts true (g ∷ gs) s).table ≡ t
    split s = unfold create_lane in ground arith
