-- ===== src/Examples/Lanes.antt =====
-- Lanes of a folder, and of a file in it.
use ios_sdk_develop.Prelude.{◌≡◌, refl, true, false, some, [], ◌∷◌, arith, All}
use mathlib.Core.List.{Memᴰ}
use ios_sdk_develop.Lane.{tag_eq, has_prefix, has_tag, Lane, lane_for_tags}
use ios_sdk_develop.Lane.Order.{Inv, lane_for_tags-Inv}
use ios_sdk_develop.Lane.Assign.{DistinctTags, Holds, lane_for_tags_assigns}
use ios_sdk_develop.Examples.{file, table}

pub table-Inv : Inv table
unfolding tag_eq has_prefix
table-Inv = record {
  chain = (((ground arith, refl), tt), (tt, tt));
  below = (ground arith, (ground arith, tt));
  older = (tt, ((ground arith, tt), tt));
}

lane_for_tags-Inv_example : Inv (lane_for_tags table true true false (file ∷ [])).table
lane_for_tags-Inv_example = lane_for_tags-Inv table true (file ∷ []) table-Inv

table-DistinctTags : All (λ l. DistinctTags l.tags) table.lanes
unfolding has_tag
table-DistinctTags = ((refl, tt), ((refl, tt), tt))

lane_for_tags_assigns_example :
    let r = lane_for_tags table true true false (file ∷ []) in
    ((l : Lane) × (r.lane ≡ some l) × Memᴰ l r.table.lanes × Holds (file ∷ []) l)
    × All (λ l. DistinctTags l.tags) r.table.lanes
lane_for_tags_assigns_example = lane_for_tags_assigns table file [] table-DistinctTags
