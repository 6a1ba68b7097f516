-- ===== src/Lane.antt =====
-- ownCloudSDK/Core/Sync/Record/OCSyncLane.m, and the lanes in ownCloudSDK/Vaults/Database/OCDatabase.m.
-- A tag is the list of its characters, and a set of tags or lane identifiers a list without
-- repetition. A missing set of lanes to wait for is empty, as the code asks for its count.
-- The lane table holds the lanes by their identifiers, with the identifier that the database gives
-- to the next one; whether a query of the database succeeds is an argument.
pub mod Tags
pub mod Overlaps
pub mod Order
pub mod Assign
use ios_sdk_develop.Prelude.{
  ℕ, suc, ◌+◌, Bool, true, false, not, ◌&&◌, ◌||◌, Option, none, some, List, [], ◌∷◌, ◌++◌, ◌==◌,
  ltb, length, keep, contains, if◌then◌else◌,
}

abbrev pub Tag : Type 0
Tag = List ℕ

abbrev pub root : Tag
root = b'/' ∷ []

unfoldable pub tag_eq : Tag → Tag → Bool
tag_eq [] [] = true
tag_eq [] (b ∷ bs) = false
tag_eq (a ∷ as_) [] = false
tag_eq (a ∷ as_) (b ∷ bs) = a == b && tag_eq as_ bs

starts_with : Tag → Tag → Bool
starts_with s [] = true
starts_with [] (b ∷ bs) = false
starts_with (a ∷ as_) (b ∷ bs) = a == b && starts_with as_ bs

-- `[s hasPrefix:p]` answers NO for an empty `p`.
unfoldable pub has_prefix : Tag → Tag → Bool
unfolding starts_with
has_prefix s [] = false
has_prefix s (b ∷ bs) = starts_with s (b ∷ bs)

pub record Lane : Type 0 where
  pub identifier : ℕ
  pub after_lanes : List ℕ
  pub tags : List Tag

pub record Matches : Type 0 where
  pub identical : ℕ
  pub prefix : ℕ

-- The inner loop, over the lane's tags.
match_tag : Tag → List Tag → Matches → Matches
match_tag check [] m = m
match_tag check (t ∷ ts) m = match_tag check ts (
    if tag_eq t check
    then record m { identical = m.identical + 1 }
    else (if has_prefix t check || has_prefix check t
        then record m { prefix = m.prefix + 1 }
        else m))

-- The outer loop, over the tags that are checked.
unfoldable pub match_tags : List Tag → List Tag → Matches → Matches
unfolding match_tag
match_tags [] tags m = m
match_tags (check ∷ checks) tags m =
    match_tags checks tags (if tag_eq check root then m else match_tag check tags m)

-- The answer, and what the two out parameters receive.
unfoldable pub covers_tags : Lane → Option (List Tag) → Bool × Matches
unfolding match_tags
covers_tags l none = (false, record { identical = 0; prefix = 0 })
covers_tags l (some checks) =
    let m = match_tags checks l.tags (record { identical = 0; prefix = 0 }) in
    (ltb 0 m.identical || ltb 0 m.prefix, m)

unfoldable pub has_tag : Tag → List Tag → Bool
unfolding tag_eq
has_tag t [] = false
has_tag t (u ∷ us) = tag_eq u t || has_tag t us

-- `unionSet:`.
unfoldable pub union : List Tag → List Tag → List Tag
unfolding has_tag
union xs [] = xs
union xs (t ∷ ts) = union (if has_tag t xs then xs else t ∷ xs) ts

unfoldable pub extend_with_tags : Lane → Option (List Tag) → Lane
unfolding union
extend_with_tags l none = l
extend_with_tags l (some ts) = record l { tags = keep (λ t. not (tag_eq t root)) (union l.tags ts) }

pub record LaneTable : Type 0 where
  pub lanes : List Lane
  pub next_id : ℕ

-- The loop over the lanes: the lane whose tags are identical, if one was found, and the identifiers
-- of the lanes that overlap otherwise.
pub record Search : Type 0 where
  pub return_lane : Option Lane
  pub after_lane_ids : List ℕ

check_lane : Bool → List Tag → Lane → Search → Search
unfolding covers_tags
check_lane read_only tags l s =
    let (covers, m) = covers_tags l (some tags) in
    if covers
    then (if m.identical == length tags
        then record s { return_lane = some l }
        else (if read_only
            then s
            else record s { after_lane_ids = l.identifier ∷ s.after_lane_ids }))
    else s

unfoldable pub search_lanes : Bool → List Tag → List Lane → Search → Search
unfolding check_lane
search_lanes read_only tags [] s = s
search_lanes read_only tags (l ∷ ls) s =
    search_lanes read_only tags ls (check_lane read_only tags l s)

-- `addSyncLane:`: the row is inserted under the next identifier.
unfoldable pub add_sync_lane : LaneTable → Lane → LaneTable
add_sync_lane t l = record { lanes = t.lanes ++ (l ∷ []); next_id = suc t.next_id }

unfoldable pub remove_sync_lane : LaneTable → ℕ → LaneTable
remove_sync_lane t i = record t { lanes = keep (λ l. not (l.identifier == i)) t.lanes }

pub record Assigned : Type 0 where
  pub lane : Option Lane
  pub updated_lanes : Bool
  pub table : LaneTable

unfoldable pub new_lane : ℕ → List Tag → List ℕ → Lane
unfolding extend_with_tags
new_lane i tags after_ids =
    record (extend_with_tags (record { identifier = i; after_lanes = []; tags = [] }) (some tags)) {
      after_lanes = after_ids;
    }

create_lane : LaneTable → Bool → Bool → List Tag → Search → Assigned
unfolding new_lane add_sync_lane
create_lane t inserts read_only tags s = elim s.return_lane [
  | some l ↦ record { lane = some l; updated_lanes = false; table = t }
  | none ↦
      let l = new_lane t.next_id tags s.after_lane_ids in
      if not read_only && inserts
      then record { lane = some l; updated_lanes = true; table = add_sync_lane t l }
      else record { lane = none; updated_lanes = false; table = t }
]

-- `laneForTags:updatedLanes:readOnly:`. Where the lanes cannot be read, none are searched.
unfoldable pub lane_for_tags : LaneTable → Bool → Bool → Bool → List Tag → Assigned
unfolding search_lanes create_lane
lane_for_tags t reads inserts read_only [] = record {
  lane = none;
  updated_lanes = false;
  table = t;
}
lane_for_tags t reads inserts read_only (g ∷ gs) = create_lane t inserts read_only (g ∷ gs) (
    search_lanes read_only (g ∷ gs) (if reads then t.lanes else [])
      (record { return_lane = none; after_lane_ids = [] }))
