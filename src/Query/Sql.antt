-- ===== src/Query/Sql.antt =====
-- ownCloudSDK/Query/Condition/OCQueryCondition+SQLBuilder.m: the SQL of a condition and its parameters.
-- The columns of the properties, the digits of a number and the escaping for LIKE are arguments.
pub mod Placeholders
use ios_sdk_develop.Prelude.{
  ℕ, Bool, true, false, Option, none, some, List, [], ◌∷◌, ◌++◌, Text, codes, if◌then◌else◌,
}
use ios_sdk_develop.Item.{PropertyName}
use ios_sdk_develop.Query.{
  Operator, property_greater_than_value, property_less_than_value, property_equal_to_value,
  property_not_equal_to_value, property_has_prefix, property_has_suffix, property_contains,
  any_condition, all_conditions, negate, Scalar, number, text, Modifiers, Condition, Value,
  Conditions, nil, scalar, one, many, done, next, condition,
}

pub record Texts : Type 0 where
  pub column : PropertyName → Option Text
  pub digits : ℕ → Text
  pub escaped : Text → Text

-- A parameter: the value itself, or a pattern for LIKE.
pub data Parameter : Type 0 where
  itself : Value → Parameter
  pattern_text : Text → Parameter

-- The query, which may be nil, and its parameters.
pub record Built : Type 0 where
  pub query : Option Text
  pub parameters : List Parameter

-- `%@` of a text that may be nil.
abbrev pub or_null : Option Text → Text
or_null none = codes "(null)"
or_null (some t) = t

abbrev pub column_name : Texts → Option PropertyName → Text
column_name x none = codes "(null)"
column_name x (some p) = or_null (x.column p)

abbrev pub comparison : Texts → Option PropertyName → Text → List Parameter → Option Built
comparison x p operator ps =
    some (record { query = some (codes "(" ++ (column_name x p ++ operator)); parameters = ps })

-- An array of the value, which cannot be made of nil.
abbrev pub with_value : Texts → Option PropertyName → Text → Value → Option Built
with_value x p operator nil = none
with_value x p operator (scalar s) = comparison x p operator (itself (scalar s) ∷ [])
with_value x p operator (one c) = comparison x p operator (itself (one c) ∷ [])
with_value x p operator (many cs) = comparison x p operator (itself (many cs) ∷ [])

-- A pattern of the escaped text; what is no text cannot be escaped.
abbrev pub with_pattern : Texts → Option PropertyName → Text → Value → Text → Option Built
with_pattern x p before nil after =
    comparison x p (codes " LIKE ?)") (pattern_text (before ++ (codes "(null)" ++ after)) ∷ [])
with_pattern x p before (scalar (number n)) after = none
with_pattern x p before (scalar (text t)) after =
    comparison x p (codes " LIKE ?)") (pattern_text (before ++ (x.escaped t ++ after)) ∷ [])
with_pattern x p before (one c) after = none
with_pattern x p before (many cs) after = none

-- The query of a junction so far, and the next condition's.
abbrev pub joined : Text → Text → Text → Text
joined operator [] q = q
joined operator (a ∷ so_far) q = (a ∷ so_far) ++ (operator ++ q)

abbrev pub add_query : Text → Built → Option Text → List Parameter → Built
add_query operator so_far none ps = so_far
add_query operator so_far (some q) ps = record {
  query = some (joined operator (or_null so_far.query) q);
  parameters = so_far.parameters ++ ps;
}

abbrev pub add_built : Text → Built → Built → Built
add_built operator so_far b = add_query operator so_far b.query b.parameters

abbrev pub nothing : Built
nothing = record { query = none; parameters = [] }

abbrev pub in_parentheses : Built → Built
in_parentheses b = record b { query = some (codes "(" ++ (or_null b.query ++ codes ")")) }

abbrev pub not_built : Built → Built
not_built b = record b { query = some (codes "(NOT " ++ (or_null b.query ++ codes ")")) }

abbrev pub map_built : (Built → Built) → Option Built → Option Built
map_built f none = none
map_built f (some b) = some (f b)

abbrev pub column_of : Texts → Option PropertyName → Option Text
column_of x none = none
column_of x (some p) = x.column p

-- The order by a column, if there is one.
abbrev pub order : Option Text → Bool → Text → Text
order none ascending q = q
order (some c) ascending q =
    q ++ (codes " ORDER BY " ++ (c ++ (if ascending then codes " ASC" else codes " DESC")))

abbrev pub limit : Texts → Option ℕ → Text → Text
limit x none q = q
limit x (some n) q = q ++ (codes " LIMIT " ++ x.digits n)

abbrev pub modify_query : Texts → Modifiers → Option Text → Option Text
modify_query x m none = none
modify_query x m (some q) =
    some (limit x m.max_result_count (order (column_of x m.sort_by) m.sort_ascending q))

-- A query that is nil stays nil.
abbrev pub modify : Texts → Modifiers → Built → Built
modify x m b = record b { query = modify_query x m b.query }

-- The loop over what the conditions of a junction give.
abbrev pub join : Text → List Built → Built → Built
join operator [] so_far = so_far
join operator (b ∷ bs) so_far = join operator bs (add_built operator so_far b)

abbrev pub empty_query : Built
empty_query = record { query = some []; parameters = [] }

abbrev pub join_all : Text → Option (List Built) → Option Built
join_all operator none = none
join_all operator (some bs) = some (in_parentheses (join operator bs empty_query))

abbrev pub with_built : Option Built → Option (List Built) → Option (List Built)
with_built none bs = none
with_built (some b) none = none
with_built (some b) (some bs) = some (b ∷ bs)

-- The cases of the switch, given the junctions and the negation of the value.
abbrev pub query_of :
    Texts
    → Operator
    → Option PropertyName
    → Value
    → Option Built
    → Option Built
    → Option Built
    → Option Built
query_of x property_greater_than_value p v all_built any_built negated =
    with_value x p (codes " > ?)") v
query_of x property_less_than_value p v all_built any_built negated =
    with_value x p (codes " < ?)") v
query_of x property_equal_to_value p v all_built any_built negated =
    with_value x p (codes " = ?)") v
query_of x property_not_equal_to_value p v all_built any_built negated =
    with_value x p (codes " IS NOT ?)") v
query_of x property_has_prefix p v all_built any_built negated = with_pattern x p [] v (codes "%")
query_of x property_has_suffix p v all_built any_built negated = with_pattern x p (codes "%") v []
query_of x property_contains p v all_built any_built negated =
    with_pattern x p (codes "%") v (codes "%")
query_of x any_condition p v all_built any_built negated = any_built
query_of x all_conditions p v all_built any_built negated = all_built
query_of x negate p v all_built any_built negated = negated

-- `buildSQLQueryWithPropertyColumnNameMap:parameters:error:`; none where it raises an exception.
unfoldable mutual
  pub build : Texts → Condition → Option Built
  build x (condition o p v m) = map_built (modify x m) (
      query_of x o p v (joined_value x (codes " AND ") v) (joined_value x (codes " OR ") v)
        (negated_value x v))

  pub joined_value : Texts → Text → Value → Option Built
  joined_value x operator nil = some nothing
  joined_value x operator (scalar s) = some nothing
  joined_value x operator (one c) = some nothing
  joined_value x operator (many cs) = join_all operator (build_all x cs)

  pub negated_value : Texts → Value → Option Built
  negated_value x nil = some nothing
  negated_value x (scalar s) = some nothing
  negated_value x (one c) = map_built not_built (build x c)
  negated_value x (many cs) = some nothing

  pub build_all : Texts → Conditions → Option (List Built)
  build_all x done = some []
  build_all x (next c cs) = with_built (build x c) (build_all x cs)
