-- ===== src/Http/Pipeline/Order/Members.antt =====
-- How many tasks of a group are picked.
use ios_sdk_develop.Prelude.{
  ℕ, suc, ◌+◌, ◌≤◌, ◌≡◌, refl, ap, ◌∙◌, Bool, false, Option, none, some, List, [], ◌∷◌, ◌++◌,
  if◌then◌else◌, arith, Text, text_eq,
}
use ios_sdk_develop.Http.Pipeline.{Task}
use ios_sdk_develop.Http.Pipeline.Collect.{default_group_id}
use ios_sdk_develop.Http.Pipeline.Order.{
  insert_by_priority, sort_by_priority, sort_default, take_first, take_recent, take_new, tasks_of,
  new_group_ids, picked_tasks,
}

abbrev pub is_group : Text → Option Text → Bool
is_group g none = false
is_group g (some h) = text_eq h g

-- The number of tasks of a group in a list, and in a dictionary of lists.
abbrev pub members : Text → List Task → ℕ
members g [] = 0
members g (t ∷ ts) = if is_group g t.group_id then suc (members g ts) else members g ts

abbrev pub total : Text → List (Text × List Task) → ℕ
total g [] = 0
total g (e ∷ es) = members g e.1 + total g es

members-append : (g : Text) (ts us : List Task) → members g (ts ++ us) ≡ members g ts + members g us
members-append g [] us = ground arith
members-append g (t ∷ ts) us = ground (arith, members-append g ts us)

members-insert :
    (g : Text) (t : Task) (ts : List Task)
    → members g (insert_by_priority t ts) ≡ members g (t ∷ ts)
members-insert g t [] = refl
members-insert g t (u ∷ us) = ground (arith, members-insert g t us)

members-sort : (g : Text) (ts : List Task) → members g (sort_by_priority ts) ≡ members g ts
members-sort g [] = refl
members-sort g (t ∷ ts) =
    members-insert g t (sort_by_priority ts)
    ∙ ap (λ (n : ℕ). if is_group g t.group_id then suc n else n) (members-sort g ts)

total-sort_default :
    (g : Text) (es : List (Text × List Task)) → total g (sort_default es) ≡ total g es
total-sort_default g [] = refl
total-sort_default g (e ∷ es) = ground (arith, members-sort g e.1, total-sort_default g es)

total-take_first :
    (g k : Text) (es : List (Text × List Task))
    → members g (take_first k es).0 + total g (take_first k es).1 ≡ total g es
total-take_first g k [] = omega arith
total-take_first g k ((l, []) ∷ es) = ground (arith, total-take_first g k es)
total-take_first g k ((l, t ∷ ts) ∷ es) = ground (arith, total-take_first g k es)

total-take_recent :
    (g : Text) (ks : List Text) (es : List (Text × List Task))
    → members g (take_recent ks es).0 + total g (take_recent ks es).1 ≡ total g es
total-take_recent g [] es = omega arith
total-take_recent g (k ∷ ks) es = omega (
  arith,
  members-append g (take_first k es).0 (take_recent ks (take_first k es).1).0,
  total-take_first g k es,
  total-take_recent g ks (take_first k es).1,
)

total-take_new :
    (g : Text) (ks : List Text) (ts : List Task) (es : List (Text × List Task))
    → members g (take_new ks ts es).0 + total g (take_new ks ts es).1 ≡ members g ts + total g es
total-take_new g [] ts es = refl
total-take_new g (k ∷ ks) ts es = omega (
  arith,
  members-append g (take_first k es).0 ts,
  total-take_first g k es,
  total-take_new g ks ((take_first k es).0 ++ ts) (take_first k es).1,
)

members-tasks_of :
    (g k : Text) (es : List (Text × List Task)) → members g (tasks_of k es) ≤ total g es
members-tasks_of g k [] = omega arith
members-tasks_of g k (e ∷ es) = ground (arith, members-tasks_of g k es)

-- The tasks that are picked are among those that were collected.
pub members-picked_tasks :
    (g : Text) (recent : List Text) (es : List (Text × List Task))
    → members g (picked_tasks recent es) ≤ total g es
unfolding picked_tasks
members-picked_tasks g recent es =
    let by_recent = take_recent recent (sort_default es) in
    let by_new = take_new (new_group_ids recent es) by_recent.0 by_recent.1 in
    omega (
      arith,
      members-append g by_new.0 (tasks_of default_group_id by_new.1),
      members-tasks_of g default_group_id by_new.1,
      total-take_new g (new_group_ids recent es) by_recent.0 by_recent.1,
      total-take_recent g recent (sort_default es),
      total-sort_default g es,
    )
