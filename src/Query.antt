-- ===== src/Query.antt =====
-- ownCloudSDK/Query/Condition: conditions on items, whether an item fulfils one, and the SQL that they are
-- turned to.
pub mod Fulfilled
pub mod Sql
use ios_sdk_develop.Prelude.{
  ℕ, Bool, true, false, Option, none, some, List, [], ◌∷◌, Text, if◌then◌else◌,
}
use ios_sdk_develop.Item.{PropertyName}

-- `OCQueryConditionOperator`.
pub data Operator : Type 0 where
  property_greater_than_value property_less_than_value property_equal_to_value : Operator
  property_not_equal_to_value property_has_prefix property_has_suffix property_contains : Operator
  any_condition all_conditions negate : Operator

-- What the value of a property or of a condition can be: a number, also a date or a flag, or a text.
pub data Scalar : Type 0 where
  number : ℕ → Scalar
  text : Text → Scalar

-- The sorting hint and the limit.
pub record Modifiers : Type 0 where
  pub sort_by : Option PropertyName
  pub sort_ascending : Bool
  pub max_result_count : Option ℕ

-- A condition, its value, which is nil, a scalar, a condition or an array of conditions, and arrays of
-- conditions.
mutual
  pub data Condition : Type 0 where
    condition : Operator → Option PropertyName → Value → Modifiers → Condition

  pub data Value : Type 0 where
    nil : Value
    scalar : Scalar → Value
    one : Condition → Value
    many : Conditions → Value

  pub data Conditions : Type 0 where
    done : Conditions
    next : Condition → Conditions → Conditions

abbrev pub unmodified : Modifiers
unmodified = record { sort_by = none; sort_ascending = false; max_result_count = none }

abbrev pub init_with_operator : Operator → Option PropertyName → Value → Condition
init_with_operator o p v = condition o p v unmodified

abbrev pub where_is_greater_than : PropertyName → Value → Condition
where_is_greater_than p v = init_with_operator property_greater_than_value (some p) v

abbrev pub where_is_less_than : PropertyName → Value → Condition
where_is_less_than p v = init_with_operator property_less_than_value (some p) v

abbrev pub where_is_equal_to : PropertyName → Value → Condition
where_is_equal_to p v = init_with_operator property_equal_to_value (some p) v

abbrev pub where_is_not_equal_to : PropertyName → Value → Condition
where_is_not_equal_to p v = init_with_operator property_not_equal_to_value (some p) v

abbrev pub where_starts_with : PropertyName → Value → Condition
where_starts_with p v = init_with_operator property_has_prefix (some p) v

abbrev pub where_ends_with : PropertyName → Value → Condition
where_ends_with p v = init_with_operator property_has_suffix (some p) v

abbrev pub where_contains : PropertyName → Value → Condition
where_contains p v = init_with_operator property_contains (some p) v

abbrev pub any_of : Conditions → Condition
any_of cs = init_with_operator any_condition none (many cs)

abbrev pub require : Conditions → Condition
require cs = init_with_operator all_conditions none (many cs)

abbrev pub negating : Bool → Condition → Condition
negating true c = init_with_operator negate none (one c)
negating false c = c

abbrev pub sorted_by : PropertyName → Bool → Condition → Condition
sorted_by p ascending (condition o q v m) =
    condition o q v (record m { sort_by = some p; sort_ascending = ascending })

abbrev pub limited_to_max_result_count : ℕ → Condition → Condition
limited_to_max_result_count n (condition o q v m) =
    condition o q v (record m { max_result_count = some n })
