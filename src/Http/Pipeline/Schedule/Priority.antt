-- ===== src/Http/Pipeline/Schedule/Priority.antt =====
-- The order in which tasks without a group are taken up.
use ios_sdk_develop.Prelude.{
  ◌≤◌, ◌≡◌, refl, ap, sym, ◌∙◌, Bool, true, false, ◌||◌, List, [], ◌∷◌, ◌++◌, append_nil, arith,
  Bool-cases, inl, inr, Text, text_eq, text_eq→eq, text_eq_refl,
}
use mathlib.Core.Path.{subst}
use mathlib.Core.List.{append_assoc}
use ios_sdk_develop.Http.Pipeline.{Task, contains_text}
use ios_sdk_develop.Http.Pipeline.Collect.{default_group_id}
use ios_sdk_develop.Http.Pipeline.Order.{
  insert_by_priority, sort_by_priority, first_of, without_first, take_recent, picked_tasks,
}

-- The numbers of the priorities rise.
abbrev pub IsRising : List Task → Type 0
IsRising [] = Unit
IsRising (t ∷ []) = Unit
IsRising (t ∷ (u ∷ us)) = (t.request.priority ≤ u.request.priority) × IsRising (u ∷ us)

insert_by_priority-IsRising :
    (t : Task) (ts : List Task) → IsRising ts → IsRising (insert_by_priority t ts)
insert_by_priority-IsRising t [] h = tt
insert_by_priority-IsRising t (u ∷ []) h = ground arith
insert_by_priority-IsRising t (u ∷ (v ∷ vs)) h =
    ground (arith, insert_by_priority-IsRising t (v ∷ vs))

sort_by_priority-IsRising : (ts : List Task) → IsRising (sort_by_priority ts)
sort_by_priority-IsRising [] = tt
sort_by_priority-IsRising (t ∷ ts) =
    insert_by_priority-IsRising t (sort_by_priority ts) (sort_by_priority-IsRising ts)

first_and_rest : (ts : List Task) → first_of ts ++ without_first ts ≡ ts
first_and_rest [] = refl
first_and_rest (t ∷ ts) = refl

abbrev only_default : List Task → List (Text × List Task)
only_default us = (default_group_id, us) ∷ []

-- What the loop over the recent groups takes of the tasks without a group, and what it leaves.
record Splits (ks : List Text) (us : List Task) : Type 0 where
  taken : List Task
  left : List Task
  by_loop : take_recent ks (only_default us) ≡ (taken, only_default left)
  whole : taken ++ left ≡ us
  untouched : contains_text default_group_id ks ≡ false → taken ≡ []

split_recent : (ks : List Text) (us : List Task) → Splits ks us
split_recent [] us = record {
  taken = [];
  left = us;
  by_loop = refl;
  whole = refl;
  untouched = λ h. refl;
}
split_recent (k ∷ ks) us = elim (Bool-cases (text_eq default_group_id k)) [
  | inl e ↦ own e (split_recent ks (without_first us))
  | inr e ↦ other e (split_recent ks us)
]
  where
    own : text_eq default_group_id k ≡ true → Splits ks (without_first us) → Splits (k ∷ ks) us
    own e r = record {
      taken = first_of us ++ r.taken;
      left = r.left;
      by_loop =
          rw e
            (ap (λ (q : List Task × List (Text × List Task)). (first_of us ++ q.0, q.1)) r.by_loop);
      whole =
          append_assoc (first_of us) r.taken r.left
          ∙ (ap (λ l. first_of us ++ l) r.whole ∙ first_and_rest us);
      untouched = λ h. absurd (
          clash (text_eq k default_group_id) (contains_text default_group_id ks) h (
            ap (λ x. text_eq x default_group_id) (sym (text_eq→eq default_group_id k e))
            ∙ text_eq_refl default_group_id));
    }
      where
        clash : (a b : Bool) → (a || b) ≡ false → a ≡ true → ⊥
        clash a b p q = ground arith

    other : text_eq default_group_id k ≡ false → Splits ks us → Splits (k ∷ ks) us
    other e r = record {
      taken = r.taken;
      left = r.left;
      by_loop = rw e r.by_loop;
      whole = r.whole;
      untouched = λ h. r.untouched (ground arith);
    }

picked_tasks-sorted :
    (recent : List Text) (ts : List Task)
    → picked_tasks recent (only_default ts) ≡ sort_by_priority ts
unfolding picked_tasks
picked_tasks-sorted recent ts =
    by_recent (contains_text default_group_id recent) refl
      (split_recent recent (sort_by_priority ts))
  where
    by_recent :
        (b : Bool)
        → contains_text default_group_id recent ≡ b
        → Splits recent (sort_by_priority ts)
        → picked_tasks recent (only_default ts) ≡ sort_by_priority ts
    by_recent true e r = rw (e, r.by_loop) r.whole
    by_recent false e r =
        rw (e, r.by_loop)
          (rw (r.untouched e) (
            rw (append_nil (first_of r.left)) (first_and_rest r.left ∙ left_whole (r.untouched e))))
      where
        left_whole : r.taken ≡ [] → r.left ≡ sort_by_priority ts
        left_whole k = ap (λ l. l ++ r.left) (sym k) ∙ r.whole

-- Where all tasks that can be scheduled are without a group, they are taken up in rising order of the
-- numbers of their priorities: those with the lowest priority first.
pub picked_tasks-IsRising :
    (recent : List Text) (ts : List Task)
    → IsRising (picked_tasks recent ((default_group_id, ts) ∷ []))
picked_tasks-IsRising recent ts =
    subst IsRising (sym (picked_tasks-sorted recent ts)) (sort_by_priority-IsRising ts)
