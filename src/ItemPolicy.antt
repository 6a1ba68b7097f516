-- ===== src/ItemPolicy.antt =====
-- ownCloudSDK/Core/ItemPolicies/OCItemPolicy.h and .m, Processors/OCItemPolicyProcessor.h and .m: policies
-- that select items by a condition, and what the processors of all kinds share. The search of the database
-- and the recovery of a policy, which kinds have of their own, are arguments.
pub mod Selection
use ios_sdk_develop.Prelude.{
  ℕ, Bool, true, false, ◌&&◌, Option, none, some, List, [], ◌∷◌, ◌++◌, ◌==◌, keep, length,
  if◌then◌else◌, Text, text_eq,
}
use ios_sdk_develop.Query.{
  Condition, Conditions, done, next, any_of, Value, nil, scalar, text, where_starts_with,
}
use ios_sdk_develop.Item.{ItemType, file, collection, path_name, local_id_name}

-- `OCItemPolicyAutoRemovalMethod`.
pub data AutoRemovalMethod : Type 0 where
  no_removal no_items : AutoRemovalMethod

-- `OCItemPolicy`.
pub record ItemPolicy : Type 0 where
  pub database_id : Option ℕ
  pub identifier : Option Text
  pub policy_description : Option Text
  pub path : Option Text
  pub local_id : Option Text
  pub kind : Text
  pub condition : Option Condition
  pub policy_auto_removal_method : AutoRemovalMethod
  pub policy_auto_removal_condition : Option Condition

unfoldable pub init_with_kind : Text → Option Condition → ItemPolicy
init_with_kind kind condition = record {
  database_id = none;
  identifier = none;
  policy_description = none;
  path = none;
  local_id = none;
  kind = kind;
  condition = condition;
  policy_auto_removal_method = no_removal;
  policy_auto_removal_condition = none;
}

abbrev pub value_of : Option Text → Value
value_of none = nil
value_of (some t) = scalar (text t)

abbrev pub condition_for : ItemType → Option Text → Option Text → Condition
condition_for collection path local_id = where_starts_with path_name (value_of path)
condition_for file path local_id = where_starts_with local_id_name (value_of local_id)

-- `initWithKind:item:`, with the type, the path and the local ID of the item.
unfoldable pub init_with_kind_and_item : Text → ItemType → Option Text → Option Text → ItemPolicy
unfolding init_with_kind
init_with_kind_and_item kind type path local_id =
    init_with_kind kind (some (condition_for type path local_id))

-- `OCItemPolicyProcessor`, as far as all kinds have it.
pub record Processor : Type 0 where
  pub kind : Text
  pub policies : Option (List ItemPolicy)
  pub policy_condition : Option Condition
  pub match_condition : Option Condition
  pub cleanup_condition : Option Condition
  pub localized_name : Option Text
  pub custom_query_condition : Option Condition

unfoldable pub init_processor_with_kind : Text → Processor
init_processor_with_kind kind = record {
  kind = kind;
  policies = none;
  policy_condition = none;
  match_condition = none;
  cleanup_condition = none;
  localized_name = none;
  custom_query_condition = none;
}

abbrev pub add_condition : Option Condition → Conditions → Conditions
add_condition none cs = cs
add_condition (some c) cs = next c cs

abbrev pub policy_conditions : List ItemPolicy → Conditions
policy_conditions [] = done
policy_conditions (p ∷ ps) = add_condition p.condition (policy_conditions ps)

abbrev pub any_or_nil : Conditions → Option Condition
any_or_nil done = none
any_or_nil (next c cs) = some (any_of (next c cs))

abbrev pub listed : Option (List ItemPolicy) → List ItemPolicy
listed none = []
listed (some ps) = ps

unfoldable pub set_policies : Option (List ItemPolicy) → Processor → Processor
set_policies ps r = record r {
  policies = ps;
  policy_condition = any_or_nil (policy_conditions (listed ps));
}

abbrev pub is_of_kind : Text → ItemPolicy → Bool
is_of_kind kind p = text_eq p.kind kind

abbrev pub nil_if_empty : List ItemPolicy → Option (List ItemPolicy)
nil_if_empty [] = none
nil_if_empty (p ∷ ps) = some (p ∷ ps)

unfoldable pub update_with_policies : Option (List ItemPolicy) → Processor → Processor
unfolding set_policies
update_with_policies ps r = set_policies (nil_if_empty (keep (is_of_kind r.kind) (listed ps))) r

-- What is asked of the core.
pub data Change : Type 0 where
  updates adds removes : ItemPolicy → Change

abbrev pub finds_none : (Condition → Option ℕ) → Option Condition → Bool
finds_none search none = false
finds_none search (some c) = elim (search c) [ none ↦ true | some n ↦ n == 0 ]

-- The search gives the number of items, or none where it fails.
abbrev pub is_removable : (Condition → Option ℕ) → ItemPolicy → AutoRemovalMethod → Bool
is_removable search p no_removal = false
is_removable search p no_items = finds_none search p.policy_auto_removal_condition

-- What is done at once, and whether the policy is removed in the end.
abbrev pub recover : Option ItemPolicy → List Change × Bool
recover none = ([], true)
recover (some q) = elim q.database_id [
  | none ↦ (adds q ∷ [], true)
  | some i ↦ (updates q ∷ [], false)
]

abbrev pub policy_outcome :
    (Condition → Option ℕ) → (ItemPolicy → Option ItemPolicy) → ItemPolicy → List Change × Bool
policy_outcome search recovery p =
    if is_removable search p p.policy_auto_removal_method then recover (recovery p) else ([], false)

abbrev pub changes_at_once :
    (Condition → Option ℕ) → (ItemPolicy → Option ItemPolicy) → List ItemPolicy → List Change
changes_at_once search recovery [] = []
changes_at_once search recovery (p ∷ ps) =
    (policy_outcome search recovery p).0 ++ changes_at_once search recovery ps

abbrev pub removals :
    (Condition → Option ℕ) → (ItemPolicy → Option ItemPolicy) → List ItemPolicy → List Change
removals search recovery [] = []
removals search recovery (p ∷ ps) =
    let rest = removals search recovery ps in
    if (policy_outcome search recovery p).1 then removes p ∷ rest else rest

-- `performPoliciesAutoRemoval`: what is asked of the core, in order.
unfoldable pub perform_policies_auto_removal :
    (Condition → Option ℕ) → (ItemPolicy → Option ItemPolicy) → Processor → List Change
perform_policies_auto_removal search recovery r =
    changes_at_once search recovery (listed r.policies)
    ++ removals search recovery (listed r.policies)

-- `attemptRecoveryOfPolicy:` of the base class.
unfoldable pub attempt_recovery_of_policy : ItemPolicy → Option ItemPolicy
attempt_recovery_of_policy p = none
