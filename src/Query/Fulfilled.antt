-- ===== src/Query/Fulfilled.antt =====
-- ownCloudSDK/Query/Condition/OCQueryCondition+Item.m: whether an item fulfils a condition. The value of
-- a property of the item, and how Foundation compares two values, are arguments.
pub mod Junctions
use ios_sdk_develop.Prelude.{
  ◌≡◌, refl, Bool, true, false, not, ◌&&◌, ◌||◌, Option, none, some, arith,
}
use ios_sdk_develop.Item.{PropertyName}
use ios_sdk_develop.Query.{
  Operator, property_greater_than_value, property_less_than_value, property_equal_to_value,
  property_not_equal_to_value, property_has_prefix, property_has_suffix, property_contains,
  any_condition, all_conditions, negate, Scalar, Condition, Value, Conditions, nil, scalar, one,
  many, done, next, condition, where_is_equal_to, where_is_not_equal_to, any_of, require, negating,
  sorted_by,
}

-- The comparisons, which say no where the value of the property does not respond to the selector.
pub record Comparisons : Type 0 where
  pub is_descending : Scalar → Value → Bool
  pub is_ascending : Scalar → Value → Bool
  pub is_equal : Scalar → Value → Bool
  pub has_prefix : Scalar → Value → Bool
  pub has_suffix : Scalar → Value → Bool
  pub contains_string : Scalar → Value → Bool

abbrev pub is_nil : Value → Bool
is_nil nil = true
is_nil (scalar s) = false
is_nil (one c) = false
is_nil (many cs) = false

-- The cases of the switch for a property whose value is not nil.
abbrev pub compares : Comparisons → Operator → Scalar → Value → Bool
compares t property_greater_than_value p v = t.is_descending p v
compares t property_less_than_value p v = t.is_ascending p v
compares t property_equal_to_value p v = t.is_equal p v
compares t property_not_equal_to_value p v = not (t.is_equal p v)
compares t property_has_prefix p v = not (is_nil v) && t.has_prefix p v
compares t property_has_suffix p v = not (is_nil v) && t.has_suffix p v
compares t property_contains p v = t.contains_string p v
compares t any_condition p v = false
compares t all_conditions p v = false
compares t negate p v = false

-- The same for nil.
abbrev pub compares_nil : Operator → Bool
compares_nil property_greater_than_value = false
compares_nil property_less_than_value = false
compares_nil property_equal_to_value = false
compares_nil property_not_equal_to_value = true
compares_nil property_has_prefix = false
compares_nil property_has_suffix = false
compares_nil property_contains = false
compares_nil any_condition = false
compares_nil all_conditions = false
compares_nil negate = false

abbrev pub compares_property : Comparisons → Operator → Option Scalar → Value → Bool
compares_property t o none v = compares_nil o
compares_property t o (some p) v = compares t o p v

abbrev pub property_value : (PropertyName → Option Scalar) → Option PropertyName → Option Scalar
property_value item none = none
property_value item (some p) = item p

-- The switch, given what the conditions of the value come to: some of them, all of them, the one
-- negated; each is no if the value is of another kind.
abbrev pub decides : Operator → Bool → Bool → Bool → Bool → Bool
decides any_condition some_fulfilled all_fulfilled negated compared = some_fulfilled
decides all_conditions some_fulfilled all_fulfilled negated compared = all_fulfilled
decides negate some_fulfilled all_fulfilled negated compared = negated
decides property_greater_than_value some_fulfilled all_fulfilled negated compared = compared
decides property_less_than_value some_fulfilled all_fulfilled negated compared = compared
decides property_equal_to_value some_fulfilled all_fulfilled negated compared = compared
decides property_not_equal_to_value some_fulfilled all_fulfilled negated compared = compared
decides property_has_prefix some_fulfilled all_fulfilled negated compared = compared
decides property_has_suffix some_fulfilled all_fulfilled negated compared = compared
decides property_contains some_fulfilled all_fulfilled negated compared = compared

unfoldable mutual
  pub fulfilled : Comparisons → (PropertyName → Option Scalar) → Condition → Bool
  fulfilled t item (condition o p v m) =
      decides o (some_in_value t item v) (all_in_value t item v) (negated_value t item v)
        (compares_property t o (property_value item p) v)

  pub some_in_value : Comparisons → (PropertyName → Option Scalar) → Value → Bool
  some_in_value t item nil = false
  some_in_value t item (scalar s) = false
  some_in_value t item (one c) = false
  some_in_value t item (many cs) = some_fulfilled t item cs

  pub all_in_value : Comparisons → (PropertyName → Option Scalar) → Value → Bool
  all_in_value t item nil = false
  all_in_value t item (scalar s) = false
  all_in_value t item (one c) = false
  all_in_value t item (many cs) = all_fulfilled t item cs

  pub negated_value : Comparisons → (PropertyName → Option Scalar) → Value → Bool
  negated_value t item nil = false
  negated_value t item (scalar s) = false
  negated_value t item (one c) = not (fulfilled t item c)
  negated_value t item (many cs) = false

  pub some_fulfilled : Comparisons → (PropertyName → Option Scalar) → Conditions → Bool
  some_fulfilled t item done = false
  some_fulfilled t item (next c cs) = fulfilled t item c || some_fulfilled t item cs

  pub all_fulfilled : Comparisons → (PropertyName → Option Scalar) → Conditions → Bool
  all_fulfilled t item done = true
  all_fulfilled t item (next c cs) = fulfilled t item c && all_fulfilled t item cs

-- Every condition negated.
abbrev pub negate_all : Conditions → Conditions
negate_all done = done
negate_all (next c cs) = next (negating true c) (negate_all cs)

module _ (t : Comparisons) (item : PropertyName → Option Scalar) where
  not-some :
      (cs : Conditions) → not (some_fulfilled t item cs) ≡ all_fulfilled t item (negate_all cs)
  unfolding fulfilled
  not-some done = refl
  not-some (next c cs) = let rest = not-some cs in ground (arith, rest)

  not-all :
      (cs : Conditions) → not (all_fulfilled t item cs) ≡ some_fulfilled t item (negate_all cs)
  unfolding fulfilled
  not-all done = refl
  not-all (next c cs) = let rest = not-all cs in ground (arith, rest)

  not_twice : (b : Bool) → not (not b) ≡ b
  not_twice true = refl
  not_twice false = refl

-- An item fulfils the negation of a disjunction exactly if it fulfils all the negated conditions, the
-- negation of a conjunction exactly if it fulfils one of them, and a condition negated twice exactly if
-- it fulfils the condition.
pub fulfilled-negating :
    (t : Comparisons) (item : PropertyName → Option Scalar) (cs : Conditions) (c : Condition)
    → (fulfilled t item (negating true (any_of cs)) ≡ fulfilled t item (require (negate_all cs)))
      × (fulfilled t item (negating true (require cs)) ≡ fulfilled t item (any_of (negate_all cs)))
      × (fulfilled t item (negating true (negating true c)) ≡ fulfilled t item c)
unfolding fulfilled
fulfilled-negating t item cs c =
    (not-some t item cs, not-all t item cs, not_twice t item (fulfilled t item c))

-- A property is not equal to a value exactly where the negation of the equality holds, also where the
-- item has no value for it; sorting and a limit make no difference to what fulfils a condition.
pub fulfilled-not_equal :
    (t : Comparisons) (item : PropertyName → Option Scalar) (p : PropertyName) (v : Value)
    (c : Condition)
    → (ascending : Bool)
    → (fulfilled t item (where_is_not_equal_to p v)
        ≡ fulfilled t item (negating true (where_is_equal_to p v)))
      × (fulfilled t item (sorted_by p ascending c) ≡ fulfilled t item c)
unfolding fulfilled
fulfilled-not_equal t item p v (condition o q w m) ascending = (not_equal (item p), refl)
  where
    not_equal :
        (s : Option Scalar)
        → compares_property t property_not_equal_to_value s v
          ≡ not (compares_property t property_equal_to_value s v)
    not_equal none = refl
    not_equal (some s) = refl
