-- ===== src/ItemPolicy/Selection.antt =====
-- The items that the policies of a processor select.
use ios_sdk_develop.Prelude.{
  ◌≡◌, refl, ap, ◌∙◌, Bool, false, ◌||◌, Option, none, some, List, [], ◌∷◌, any, keep,
}
use ios_sdk_develop.Item.{PropertyName}
use ios_sdk_develop.Query.{Condition, Conditions, done, next, Scalar}
use ios_sdk_develop.Query.Fulfilled.{Comparisons, fulfilled, some_fulfilled}
use ios_sdk_develop.ItemPolicy.{
  ItemPolicy, Processor, add_condition, policy_conditions, any_or_nil, listed, is_of_kind,
  nil_if_empty, set_policies, update_with_policies,
}

module _ (t : Comparisons) (item : PropertyName → Option Scalar) where
  -- The item fulfils the condition, where there is one.
  abbrev pub selects : Option Condition → Bool
  selects none = false
  selects (some c) = fulfilled t item c

  selects-any_or_nil : (cs : Conditions) → selects (any_or_nil cs) ≡ some_fulfilled t item cs
  unfolding fulfilled
  selects-any_or_nil done = refl
  selects-any_or_nil (next c cs) = refl

  selects-add :
      (o : Option Condition) (cs : Conditions)
      → some_fulfilled t item (add_condition o cs) ≡ (selects o || some_fulfilled t item cs)
  unfolding fulfilled
  selects-add none cs = refl
  selects-add (some c) cs = refl

  selects-policy_conditions :
      (ps : List ItemPolicy)
      → some_fulfilled t item (policy_conditions ps) ≡ any (λ p. selects p.condition) ps
  unfolding fulfilled
  selects-policy_conditions [] = refl
  selects-policy_conditions (p ∷ ps) =
      selects-add p.condition (policy_conditions ps)
      ∙ ap (λ b. selects p.condition || b) (selects-policy_conditions ps)

  listed-nil_if_empty : (ps : List ItemPolicy) → listed (nil_if_empty ps) ≡ ps
  listed-nil_if_empty [] = refl
  listed-nil_if_empty (p ∷ ps) = refl

  -- After an update with policies, an item fulfils the condition of the processor exactly when it fulfils the
  -- condition of one of the policies that are of the processor's kind.
  pub policy_condition-update_with_policies :
      (ps : Option (List ItemPolicy)) (r : Processor)
      → selects (update_with_policies ps r).policy_condition
        ≡ any (λ p. selects p.condition) (keep (is_of_kind r.kind) (listed ps))
  unfolding set_policies update_with_policies
  policy_condition-update_with_policies ps r =
      selects-any_or_nil (policy_conditions (listed (nil_if_empty kept)))
      ∙ selects-policy_conditions (listed (nil_if_empty kept))
      ∙ ap (any (λ p. selects p.condition)) (listed-nil_if_empty kept)
    where
      kept : List ItemPolicy
      kept = keep (is_of_kind r.kind) (listed ps)
