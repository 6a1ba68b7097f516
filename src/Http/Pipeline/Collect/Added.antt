-- ===== src/Http/Pipeline/Collect/Added.antt =====
-- How many tasks of a group are added.
use ios_sdk_develop.Prelude.{
  ◌≤◌, ◌≡◌, refl, ap, ◌∙◌, Bool, true, false, Option, none, some, List, [], ◌∷◌, ◌++◌,
  if◌then◌else◌, arith, Bool-cases, if-both, inl, inr, Text, text_eq, text_eq→eq, text_eq_refl, All,
}
use mathlib.Core.Path.{subst}
use ios_sdk_develop.Http.Pipeline.{Task}
use ios_sdk_develop.Http.Pipeline.Collect.{group_of, is_none, add_schedulable, remove_group}
use ios_sdk_develop.Http.Pipeline.Order.Members.{is_group, members, total}

-- The tasks of a group stand under its own key.
abbrev pub StandsApart : Text → Text × List Task → Type 0
StandsApart g e = text_eq e.0 g ≡ false → members g e.1 ≡ 0

members-snoc_other :
    (g : Text) (ts : List Task) (t : Task)
    → is_group g t.group_id ≡ false
    → members g (ts ++ (t ∷ [])) ≡ members g ts
members-snoc_other g [] t h = rw h refl
members-snoc_other g (u ∷ us) t h = ground (arith, members-snoc_other g us t h)

-- What a group's list becomes when a task is added.
abbrev grown : Task → List Task → List Task
grown t ts = if is_none t.group_id then ts ++ (t ∷ []) else ts

members-grown :
    (g : Text) (t : Task) (ts : List Task)
    → is_group g t.group_id ≡ false
    → members g (grown t ts) ≡ members g ts
members-grown g t ts h =
    if-both (λ (us : List Task). members g us ≡ members g ts) (is_none t.group_id)
      (members-snoc_other g ts t h) refl

pub total-add_other :
    (g : Text) (t : Task) (es : List (Text × List Task))
    → is_group g t.group_id ≡ false
    → total g (add_schedulable t es) ≡ total g es
total-add_other g t [] h = rw h (omega arith)
total-add_other g t (e ∷ es) h = elim (Bool-cases (text_eq e.0 (group_of t.group_id))) [
  | inl k ↦ rw k (omega (arith, members-grown g t e.1 h))
  | inr k ↦ rw k (omega (arith, total-add_other g t es h))
]

pub add_other-StandsApart :
    (g : Text) (t : Task) (es : List (Text × List Task))
    → is_group g t.group_id ≡ false
    → All (StandsApart g) es
    → All (StandsApart g) (add_schedulable t es)
add_other-StandsApart g t [] h a = ((λ apart. rw h refl), tt)
add_other-StandsApart g t (e ∷ es) h a = elim (Bool-cases (text_eq e.0 (group_of t.group_id))) [
  | inl k ↦ rw k ((λ apart. members-grown g t e.1 h ∙ a.0 apart), a.1)
  | inr k ↦ rw k (a.0, add_other-StandsApart g t es h a.1)
]

pub group_of-own :
    (g : Text) (o : Option Text) → is_group g o ≡ true → (group_of o ≡ g) × (is_none o ≡ false)
group_of-own g none h = cc
group_of-own g (some k) h = (text_eq→eq k g h, refl)

-- A task of the group is added only where the group has none.
pub total-add_own :
    (g : Text) (t : Task) (es : List (Text × List Task))
    → is_group g t.group_id ≡ true
    → All (StandsApart g) es
    → total g es ≤ 1
    → total g (add_schedulable t es) ≤ 1
total-add_own g t [] h a l = rw h (omega arith)
total-add_own g t (e ∷ es) h a l =
    let own = group_of-own g t.group_id h in
    elim (Bool-cases (text_eq e.0 (group_of t.group_id))) [
      | inl k ↦ rw (k, own.1) l
      | inr k ↦
          let k' : text_eq e.0 g ≡ false = subst (λ x. text_eq e.0 x ≡ false) own.0 k in
          rw k (omega (arith, a.0 k', total-add_own g t es h a.1 (omega arith)))
    ]

pub add_own-StandsApart :
    (g : Text) (t : Task) (es : List (Text × List Task))
    → is_group g t.group_id ≡ true
    → All (StandsApart g) es
    → All (StandsApart g) (add_schedulable t es)
add_own-StandsApart g t [] h a =
    let own = group_of-own g t.group_id h in
    ((λ apart. absurd (same apart (ap (λ x. text_eq x g) own.0 ∙ text_eq_refl g))), tt)
  where
    same : {b : Bool} → b ≡ false → b ≡ true → ⊥
    same p q = cc
add_own-StandsApart g t (e ∷ es) h a =
    let own = group_of-own g t.group_id h in
    elim (Bool-cases (text_eq e.0 (group_of t.group_id))) [
      | inl k ↦ rw (k, own.1) a
      | inr k ↦ rw k (a.0, add_own-StandsApart g t es h a.1)
    ]

pub remove_group-StandsApart :
    (g k : Text) (es : List (Text × List Task))
    → All (StandsApart g) es
    → All (StandsApart g) (remove_group k es)
remove_group-StandsApart g k [] a = tt
remove_group-StandsApart g k (e ∷ es) a = elim (Bool-cases (text_eq e.0 k)) [
  | inl l ↦ rw l (remove_group-StandsApart g k es a.1)
  | inr l ↦ rw l (a.0, remove_group-StandsApart g k es a.1)
]

pub total-remove_group :
    (g k : Text) (es : List (Text × List Task)) → total g (remove_group k es) ≤ total g es
total-remove_group g k [] = omega arith
total-remove_group g k (e ∷ es) = ground (arith, total-remove_group g k es)

total-remove_own :
    (g : Text) (es : List (Text × List Task))
    → All (StandsApart g) es
    → total g (remove_group g es) ≡ 0
total-remove_own g [] a = refl
total-remove_own g (e ∷ es) a = elim (Bool-cases (text_eq e.0 g)) [
  | inl l ↦ rw l (total-remove_own g es a.1)
  | inr l ↦ rw l (omega (arith, a.0 l, total-remove_own g es a.1))
]
