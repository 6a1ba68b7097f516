-- ===== src/Examples/Policies.antt =====
-- Two policies of different kinds, and a search that fails.
use ios_sdk_develop.Prelude.{
  ◌≡◌, refl, Bool, false, Option, none, some, List, [], ◌∷◌, ◌==◌, any, keep, codes,
}
use ios_sdk_develop.Item.{PropertyName, size_name}
use ios_sdk_develop.Query.{Scalar, number, Value, scalar, Condition, where_is_equal_to}
use ios_sdk_develop.Query.Fulfilled.{Comparisons}
use ios_sdk_develop.ItemPolicy.{
  ItemPolicy, no_items, removes, Processor, init_with_kind, init_processor_with_kind, is_of_kind,
  listed, update_with_policies, attempt_recovery_of_policy, perform_policies_auto_removal,
}
use ios_sdk_develop.ItemPolicy.Selection.{selects, policy_condition-update_with_policies}

abbrev equal_numbers : Scalar → Value → Bool
equal_numbers (number a) (scalar (number b)) = a == b
equal_numbers a v = false

abbrev equality : Comparisons
equality = record {
  is_descending = λ s v. false;
  is_ascending = λ s v. false;
  is_equal = equal_numbers;
  has_prefix = λ s v. false;
  has_suffix = λ s v. false;
  contains_string = λ s v. false;
}

abbrev always_three : PropertyName → Option Scalar
always_three p = some (number 3)

abbrev of_size_three : Condition
of_size_three = where_is_equal_to size_name (scalar (number 3))

abbrev offline_policy : ItemPolicy
offline_policy = record (init_with_kind (codes "offline") (some of_size_three)) {
  policy_auto_removal_method = no_items;
  policy_auto_removal_condition = some of_size_three;
}

abbrev two_policies : List ItemPolicy
two_policies = init_with_kind (codes "vacuum") none ∷ (offline_policy ∷ [])

abbrev offline_processor : Processor
offline_processor = init_processor_with_kind (codes "offline")

policy_condition-update_with_policies_example :
    selects equality always_three
      (update_with_policies (some two_policies) offline_processor).policy_condition
    ≡ any
        (λ p. selects equality always_three p.condition)
        (keep (is_of_kind offline_processor.kind) (listed (some two_policies)))
policy_condition-update_with_policies_example =
    policy_condition-update_with_policies equality always_three (some two_policies)
      offline_processor

-- A policy whose search fails is removed, as if no item had been found.
failed_search_removes :
    perform_policies_auto_removal
      (λ c. none)
      attempt_recovery_of_policy
      (record offline_processor { policies = some (offline_policy ∷ []) })
    ≡ removes offline_policy ∷ []
unfolding perform_policies_auto_removal attempt_recovery_of_policy init_with_kind
    init_processor_with_kind
failed_search_removes = refl
