-- ===== src/Item/Sync.antt =====
-- The sync records and sync activities of an item. An activity is given by the position of its flag.
pub mod Counts
use ios_sdk_develop.Prelude.{
  ℕ, suc, ◌+◌, Bool, true, false, not, Option, none, some, List, [], ◌∷◌, ◌++◌, ◌==◌, ltb, keep,
  if◌then◌else◌, bit, set_bit,
}
use ios_sdk_develop.Item.{Item, Activity, activity_bit}

-- `countForObject:`.
abbrev pub count_of : ℕ → List ℕ → ℕ
count_of a [] = 0
count_of a (b ∷ bs) = let rest = count_of a bs in if b == a then suc rest else rest

abbrev pub counted : ℕ → Option (List ℕ) → ℕ
counted a none = 0
counted a (some bs) = count_of a bs

-- `removeObject:` of a counted set: once.
abbrev pub remove_once : ℕ → List ℕ → List ℕ
remove_once a [] = []
remove_once a (b ∷ bs) = let rest = remove_once a bs in if b == a then bs else b ∷ rest

abbrev pub add_count : ℕ → Option (List ℕ) → Option (List ℕ)
add_count a none = some (a ∷ [])
add_count a (some bs) = some (a ∷ bs)

abbrev pub nil_if_none : List ℕ → Option (List ℕ)
nil_if_none [] = none
nil_if_none (b ∷ bs) = some (b ∷ bs)

abbrev pub remove_count : ℕ → Option (List ℕ) → Option (List ℕ)
remove_count a none = none
remove_count a (some bs) = nil_if_none (remove_once a bs)

-- The mask and the counted set.
pub record Activities : Type 0 where
  pub mask : ℕ
  pub counts : Option (List ℕ)

abbrev pub activities : Item → Activities
activities i = record { mask = i.sync_activity; counts = i.sync_activity_counts }

unfoldable pub add_activity : ℕ → Activities → Activities
add_activity a s =
    if bit a s.mask
    then record s { counts = add_count a s.counts }
    else record s { mask = set_bit a true s.mask }

unfoldable pub remove_activity : ℕ → Activities → Activities
remove_activity a s =
    if ltb 0 (counted a s.counts)
    then record s { counts = remove_count a s.counts }
    else record s { mask = set_bit a false s.mask }

unfoldable pub count : ℕ → Activities → ℕ
count a s = (if bit a s.mask then 1 else 0) + counted a s.counts

abbrev pub add_id : Option ℕ → Option (List ℕ) → Option (List ℕ)
add_id none ids = ids
add_id (some id) none = some (id ∷ [])
add_id (some id) (some ids) = some (ids ++ (id ∷ []))

-- Every occurrence is removed, and an empty list is nil.
abbrev pub remove_id : Option ℕ → Option (List ℕ) → Option (List ℕ)
remove_id none ids = ids
remove_id (some id) none = none
remove_id (some id) (some ids) = nil_if_none (keep (λ x. not (x == id)) ids)

unfoldable pub add_sync_record_id : Option ℕ → Activity → Item → Item
add_sync_record_id id a i =
    let s = add_activity (activity_bit a) (activities i) in
    record i {
      sync_activity = s.mask;
      sync_activity_counts = s.counts;
      active_sync_record_ids = add_id id i.active_sync_record_ids;
    }

unfoldable pub remove_sync_record_id : Option ℕ → Activity → Item → Item
remove_sync_record_id id a i =
    let s = remove_activity (activity_bit a) (activities i) in
    record i {
      sync_activity = s.mask;
      sync_activity_counts = s.counts;
      active_sync_record_ids = remove_id id i.active_sync_record_ids;
    }

unfoldable pub count_of_sync_records_with_sync_activity : Activity → Item → ℕ
count_of_sync_records_with_sync_activity a i = count (activity_bit a) (activities i)
