-- ===== src/Http/Pipeline/Order.antt =====
-- `_schedule` of OCHTTPPipeline.m: the order in which tasks get the slots. Sorting keeps the order of equal
-- priorities.
pub mod Members
use ios_sdk_develop.Prelude.{
  ℕ, not, Option, none, some, List, [], ◌∷◌, ◌++◌, leb, take, keep, if◌then◌else◌, Text, text_eq,
  map,
}
use ios_sdk_develop.Http.Pipeline.{Task, contains_text}
use ios_sdk_develop.Http.Pipeline.Collect.{default_group_id, group_of}

-- The comparator puts the lower number first.
abbrev pub insert_by_priority : Task → List Task → List Task
insert_by_priority t [] = t ∷ []
insert_by_priority t (u ∷ us) =
    let rest = insert_by_priority t us in
    if leb t.request.priority u.request.priority then t ∷ (u ∷ us) else u ∷ rest

abbrev pub sort_by_priority : List Task → List Task
sort_by_priority [] = []
sort_by_priority (t ∷ ts) = insert_by_priority t (sort_by_priority ts)

abbrev pub sort_default : List (Text × List Task) → List (Text × List Task)
sort_default = map (λ e. if text_eq e.0 default_group_id then (e.0, sort_by_priority e.1) else e)

abbrev pub first_of : List Task → List Task
first_of [] = []
first_of (t ∷ ts) = t ∷ []

abbrev pub without_first : List Task → List Task
without_first [] = []
without_first (t ∷ ts) = ts

-- The first task of a group, and the groups without it.
abbrev pub take_first : Text → List (Text × List Task) → List Task × List (Text × List Task)
take_first g [] = ([], [])
take_first g (e ∷ es) =
    let rest = take_first g es in
    if text_eq e.0 g then (first_of e.1, (e.0, without_first e.1) ∷ es) else (rest.0, e ∷ rest.1)

-- One task of each of the groups, in their order.
abbrev pub take_recent : List Text → List (Text × List Task) → List Task × List (Text × List Task)
take_recent [] es = ([], es)
take_recent (g ∷ gs) es =
    let first = take_first g es in let rest = take_recent gs first.1 in (first.0 ++ rest.0, rest.1)

-- The groups that were never scheduled go before those that were, the last one first.
abbrev pub take_new :
    List Text → List Task → List (Text × List Task) → List Task × List (Text × List Task)
take_new [] picked es = (picked, es)
take_new (g ∷ gs) picked es = let first = take_first g es in take_new gs (first.0 ++ picked) first.1

abbrev pub tasks_of : Text → List (Text × List Task) → List Task
tasks_of g [] = []
tasks_of g (e ∷ es) = if text_eq e.0 g then e.1 else tasks_of g es

abbrev pub new_group_ids : List Text → List (Text × List Task) → List Text
new_group_ids recent es = keep (λ g. not (contains_text g recent)) (map (λ e. e.0) es)

-- The tasks in the order in which they get the slots.
unfoldable pub picked_tasks : List Text → List (Text × List Task) → List Task
picked_tasks recent es =
    let by_recent = take_recent recent (sort_default es) in
    let by_new = take_new (new_group_ids recent es) by_recent.0 by_recent.1 in
    by_new.0 ++ tasks_of default_group_id by_new.1

abbrev pub reduce : Option ℕ → List Task → List Task
reduce none ts = ts
reduce (some slots) ts = take slots ts

abbrev pub move_to_end : Text → List Text → List Text
move_to_end g gs = keep (λ h. not (text_eq h g)) gs ++ (g ∷ [])

abbrev pub mark_recent : List Task → List Text → List Text
mark_recent [] gs = gs
mark_recent (t ∷ ts) gs = mark_recent ts (move_to_end (group_of t.group_id) gs)
