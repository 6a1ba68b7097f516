-- ===== src/Examples/Requests.antt =====
-- Requests, conditions and issues.
use ios_sdk_develop.Prelude.{
  Bool, List, Option, ◌≡◌, ◌↔◌, ◌≤◌, refl, true, false, none, some, [], ◌∷◌, ◌++◌, ◌==◌, length,
  Text, codes,
}
use ios_sdk_develop.Item.{PropertyName, type_name, name_name}
use ios_sdk_develop.Query.{
  Scalar, number, text, Conditions, Value, next, done, scalar, where_is_equal_to, where_starts_with,
  any_of, require, negating,
}
use ios_sdk_develop.Query.Fulfilled.{Comparisons, fulfilled}
use ios_sdk_develop.Query.Fulfilled.Junctions.{
  FulfilsSome, FulfilsAll, FulfilsNone, fulfilled-junctions,
}
use ios_sdk_develop.Query.Sql.{Texts, Built, itself, pattern_text, build}
use ios_sdk_develop.Query.Sql.Placeholders.{placeholders_of, build-placeholders}
use ios_sdk_develop.Issue.{Group, new_issue, generic, informal, approve, reject, issue_for_issues}
use ios_sdk_develop.Issue.Decisions.{GroupStep, group_decides, child_does, decides, group_steps}
use ios_sdk_develop.Issue.Decisions.Once.{group_calls, group_steps_calls_once}

abbrev listed_values : List (Text × Text) → Text
listed_values [] = []
listed_values (p ∷ ps) = p.0 ++ (codes "=" ++ (p.1 ++ listed_values ps))

abbrev with_query : Option Text → List (Text × Text) → Option Text
with_query none ps = none
with_query (some url) ps = some (url ++ (codes "?" ++ listed_values ps))

-- Comparisons of numbers; texts are never equal, and nothing is a part of anything.
abbrev same_scalar : Scalar → Value → Bool
same_scalar (number a) (scalar (number b)) = a == b
same_scalar a v = false

abbrev only_equal : Comparisons
only_equal = record {
  is_descending = λ s v. false;
  is_ascending = λ s v. false;
  is_equal = same_scalar;
  has_prefix = λ s v. false;
  has_suffix = λ s v. false;
  contains_string = λ s v. false;
}

abbrev always_one : PropertyName → Option Scalar
always_one p = some (number 1)

abbrev two_conditions : Conditions
two_conditions =
    next (where_is_equal_to type_name (scalar (number 1)))
      (next (where_starts_with name_name (scalar (text (codes "a")))) done)

fulfilled-junctions_example :
    ((fulfilled only_equal always_one (any_of two_conditions) ≡ true)
      ↔ FulfilsSome only_equal always_one two_conditions)
    × ((fulfilled only_equal always_one (require two_conditions) ≡ true)
        ↔ FulfilsAll only_equal always_one two_conditions)
    × ((fulfilled only_equal always_one (negating true (any_of two_conditions)) ≡ true)
        ↔ FulfilsNone only_equal always_one two_conditions)
    × (fulfilled only_equal always_one (negating true (negating true (any_of two_conditions)))
        ≡ fulfilled only_equal always_one (any_of two_conditions))
fulfilled-junctions_example =
    fulfilled-junctions only_equal always_one two_conditions (any_of two_conditions)

abbrev columns : Texts
columns = record { column = λ p. some (codes "c"); digits = λ n. codes "9"; escaped = λ t. t }

abbrev built : Built
built = record {
  query = some (codes "((c = ?) AND (c LIKE ?))");
  parameters = itself (scalar (number 1)) ∷ (pattern_text (codes "a%") ∷ []);
}

build-placeholders_example : placeholders_of built.query ≡ length built.parameters
unfolding build
build-placeholders_example =
    build-placeholders columns (require two_conditions) built (λ p. refl) (λ n. refl) refl

abbrev two_issues : Group
two_issues =
    issue_for_issues (new_issue generic informal (some 1) ∷ (new_issue generic informal none ∷ []))
      (some 2)

abbrev three_decisions : List GroupStep
three_decisions =
    child_does 0 (decides approve) ∷ (child_does 1 (decides reject) ∷ (group_decides approve ∷ []))

group_steps_calls_once_example : group_calls (group_steps three_decisions two_issues).1 ≤ 1
unfolding issue_for_issues
group_steps_calls_once_example = group_steps_calls_once three_decisions two_issues
