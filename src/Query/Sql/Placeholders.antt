-- ===== src/Query/Sql/Placeholders.antt =====
-- The placeholders of a query and its parameters.
use ios_sdk_develop.Prelude.{
  ℕ, suc, ◌+◌, ◌≡◌, refl, ap, sym, ◌∙◌, Bool, true, false, Option, none, some, List, [], ◌∷◌, ◌++◌,
  ◌==◌, length, length-append, All, Text, codes, if◌then◌else◌, arith,
}
use mathlib.Core.Path.{subst}
use ios_sdk_develop.Item.{PropertyName}
use ios_sdk_develop.Query.{
  Operator, property_greater_than_value, property_less_than_value, property_equal_to_value,
  property_not_equal_to_value, property_has_prefix, property_has_suffix, property_contains,
  any_condition, all_conditions, negate, number, text, Modifiers, Condition, Value, Conditions, nil,
  scalar, one, many, done, next, condition,
}
use ios_sdk_develop.Query.Sql.{
  Texts, Parameter, Built, or_null, column_name, comparison, with_value, with_pattern, joined,
  add_built, nothing, in_parentheses, not_built, map_built, column_of, order, limit, modify_query,
  modify, add_query, join_all, empty_query, with_built, build_all, itself, pattern_text, query_of,
  build, joined_value, negated_value, join,
}

-- How many placeholders stand in a text.
abbrev pub placeholders : Text → ℕ
placeholders [] = 0
placeholders (c ∷ s) = let rest = placeholders s in if c == b'?' then suc rest else rest

abbrev pub placeholders_of : Option Text → ℕ
placeholders_of none = 0
placeholders_of (some t) = placeholders t

placeholders-append : (s t : Text) → placeholders (s ++ t) ≡ placeholders s + placeholders t
placeholders-append [] t = omega arith
placeholders-append (c ∷ s) t = let rest = placeholders-append s t in ground (arith, rest)

-- There are as many placeholders as parameters.
unfoldable IsBalanced : Option Built → Type 0
IsBalanced none = Unit
IsBalanced (some b) = placeholders_of b.query ≡ length b.parameters

unfoldable AllBalanced : Option (List Built) → Type 0
AllBalanced none = Unit
AllBalanced (some bs) = All (λ b. IsBalanced (some b)) bs

balanced : (b : Built) → IsBalanced (some b) → placeholders_of b.query ≡ length b.parameters
unfolding IsBalanced
balanced b h = h

module _ (x : Texts) (columns : (p : PropertyName) → placeholders_of (x.column p) ≡ 0)
    (numbers : (n : ℕ) → placeholders (x.digits n) ≡ 0) where
  placeholders-or_null : (o : Option Text) → placeholders (or_null o) ≡ placeholders_of o
  placeholders-or_null none = refl
  placeholders-or_null (some t) = refl

  placeholders-column : (p : Option PropertyName) → placeholders (column_name x p) ≡ 0
  placeholders-column none = refl
  placeholders-column (some p) = placeholders-or_null (x.column p) ∙ columns p

  comparison-IsBalanced :
      (p : Option PropertyName) (operator : Text) (a : Parameter)
      → placeholders operator ≡ 1
      → IsBalanced (comparison x p operator (a ∷ []))
  unfolding IsBalanced
  comparison-IsBalanced p operator a h =
      placeholders-append (column_name x p) operator ∙ rw (placeholders-column p, h) refl

  with_value-IsBalanced :
      (p : Option PropertyName) (operator : Text) (v : Value)
      → placeholders operator ≡ 1
      → IsBalanced (with_value x p operator v)
  unfolding IsBalanced
  with_value-IsBalanced p operator nil h = tt
  with_value-IsBalanced p operator (scalar s) h =
      comparison-IsBalanced p operator (itself (scalar s)) h
  with_value-IsBalanced p operator (one c) h = comparison-IsBalanced p operator (itself (one c)) h
  with_value-IsBalanced p operator (many cs) h =
      comparison-IsBalanced p operator (itself (many cs)) h

  with_pattern-IsBalanced :
      (p : Option PropertyName) (before : Text) (v : Value) (after : Text)
      → IsBalanced (with_pattern x p before v after)
  unfolding IsBalanced
  with_pattern-IsBalanced p before nil after =
      comparison-IsBalanced p (codes " LIKE ?)")
        (pattern_text (before ++ (codes "(null)" ++ after))) refl
  with_pattern-IsBalanced p before (scalar (number n)) after = tt
  with_pattern-IsBalanced p before (scalar (text t)) after =
      comparison-IsBalanced p (codes " LIKE ?)") (pattern_text (before ++ (x.escaped t ++ after)))
        refl
  with_pattern-IsBalanced p before (one c) after = tt
  with_pattern-IsBalanced p before (many cs) after = tt

  placeholders-joined :
      (operator a q : Text)
      → placeholders operator ≡ 0
      → placeholders (joined operator a q) ≡ placeholders a + placeholders q
  placeholders-joined operator [] q h = omega arith
  placeholders-joined operator (c ∷ a) q h =
      placeholders-append (c ∷ a) (operator ++ q)
      ∙ ap (λ n. placeholders (c ∷ a) + n) (placeholders-append operator q ∙ omega (arith, h))

  in_parentheses-IsBalanced :
      (b : Built) → IsBalanced (some b) → IsBalanced (some (in_parentheses b))
  unfolding IsBalanced
  in_parentheses-IsBalanced b h =
      placeholders-append (or_null b.query) (codes ")")
      ∙ rw (placeholders-or_null b.query) (omega (arith, h))

  not_built-IsBalanced : (o : Option Built) → IsBalanced o → IsBalanced (map_built not_built o)
  unfolding IsBalanced
  not_built-IsBalanced none h = tt
  not_built-IsBalanced (some b) h =
      placeholders-append (or_null b.query) (codes ")")
      ∙ rw (placeholders-or_null b.query) (omega (arith, h))

  placeholders-limit : (o : Option ℕ) (q : Text) → placeholders (limit x o q) ≡ placeholders q
  placeholders-limit none q = refl
  placeholders-limit (some n) q =
      placeholders-append q (codes " LIMIT " ++ x.digits n) ∙ rw (numbers n) (omega arith)

  placeholders-column_of : (o : Option PropertyName) → placeholders_of (column_of x o) ≡ 0
  placeholders-column_of none = refl
  placeholders-column_of (some p) = columns p

  placeholders-order :
      (c : Option Text) (ascending : Bool) (q : Text)
      → placeholders_of c ≡ 0
      → placeholders (order c ascending q) ≡ placeholders q
  placeholders-order none ascending q h = refl
  placeholders-order (some c) true q h =
      placeholders-append q (codes " ORDER BY " ++ (c ++ codes " ASC"))
      ∙ rw (placeholders-append c (codes " ASC"), h) (omega arith)
  placeholders-order (some c) false q h =
      placeholders-append q (codes " ORDER BY " ++ (c ++ codes " DESC"))
      ∙ rw (placeholders-append c (codes " DESC"), h) (omega arith)

  placeholders-modify_query :
      (m : Modifiers) (q : Option Text) → placeholders_of (modify_query x m q) ≡ placeholders_of q
  placeholders-modify_query m none = refl
  placeholders-modify_query m (some q) =
      placeholders-limit m.max_result_count (order (column_of x m.sort_by) m.sort_ascending q)
      ∙ placeholders-order (column_of x m.sort_by) m.sort_ascending q
          (placeholders-column_of m.sort_by)

  modify-IsBalanced :
      (m : Modifiers) (o : Option Built) → IsBalanced o → IsBalanced (map_built (modify x m) o)
  unfolding IsBalanced
  modify-IsBalanced m none h = tt
  modify-IsBalanced m (some b) h = placeholders-modify_query m b.query ∙ h

  add_query-IsBalanced :
      (operator : Text) (a : Built) (q : Option Text) (ps : List Parameter)
      → placeholders operator ≡ 0
      → IsBalanced (some a)
      → placeholders_of q ≡ length ps
      → IsBalanced (some (add_query operator a q ps))
  unfolding IsBalanced
  add_query-IsBalanced operator a none ps h ha hb = ha
  add_query-IsBalanced operator a (some q) ps h ha hb =
      placeholders-joined operator (or_null a.query) q h
      ∙ rw (placeholders-or_null a.query, ha, hb) (sym (length-append a.parameters ps))

  join-IsBalanced :
      (operator : Text) (bs : List Built) (so_far : Built)
      → placeholders operator ≡ 0
      → AllBalanced (some bs)
      → IsBalanced (some so_far)
      → IsBalanced (some (join operator bs so_far))
  unfolding AllBalanced
  join-IsBalanced operator [] so_far h k l = l
  join-IsBalanced operator (b ∷ bs) so_far h k l =
      join-IsBalanced operator bs (add_built operator so_far b) h k.1 (add_balanced k.0)
    where
      add_balanced : IsBalanced (some b) → IsBalanced (some (add_built operator so_far b))
      add_balanced kb =
          add_query-IsBalanced operator so_far b.query b.parameters h l (balanced b kb)

  join_all-IsBalanced :
      (operator : Text) (o : Option (List Built))
      → placeholders operator ≡ 0
      → AllBalanced o
      → IsBalanced (join_all operator o)
  unfolding IsBalanced
  join_all-IsBalanced operator none h k = tt
  join_all-IsBalanced operator (some bs) h k =
      in_parentheses-IsBalanced (join operator bs empty_query)
        (join-IsBalanced operator bs empty_query h k refl)

  with_built-AllBalanced :
      (o : Option Built) (bs : Option (List Built))
      → IsBalanced o
      → AllBalanced bs
      → AllBalanced (with_built o bs)
  unfolding AllBalanced
  with_built-AllBalanced none bs h k = tt
  with_built-AllBalanced (some b) none h k = tt
  with_built-AllBalanced (some b) (some bs) h k = (h, k)

  query_of-IsBalanced :
      (o : Operator) (p : Option PropertyName) (v : Value)
      (all_built any_built negated : Option Built)
      → IsBalanced all_built
      → IsBalanced any_built
      → IsBalanced negated
      → IsBalanced (query_of x o p v all_built any_built negated)
  query_of-IsBalanced property_greater_than_value p v a b n ha hb hn =
      with_value-IsBalanced p (codes " > ?)") v refl
  query_of-IsBalanced property_less_than_value p v a b n ha hb hn =
      with_value-IsBalanced p (codes " < ?)") v refl
  query_of-IsBalanced property_equal_to_value p v a b n ha hb hn =
      with_value-IsBalanced p (codes " = ?)") v refl
  query_of-IsBalanced property_not_equal_to_value p v a b n ha hb hn =
      with_value-IsBalanced p (codes " IS NOT ?)") v refl
  query_of-IsBalanced property_has_prefix p v a b n ha hb hn =
      with_pattern-IsBalanced p [] v (codes "%")
  query_of-IsBalanced property_has_suffix p v a b n ha hb hn =
      with_pattern-IsBalanced p (codes "%") v []
  query_of-IsBalanced property_contains p v a b n ha hb hn =
      with_pattern-IsBalanced p (codes "%") v (codes "%")
  query_of-IsBalanced any_condition p v a b n ha hb hn = hb
  query_of-IsBalanced all_conditions p v a b n ha hb hn = ha
  query_of-IsBalanced negate p v a b n ha hb hn = hn

nothing-IsBalanced : IsBalanced (some nothing)
unfolding IsBalanced
nothing-IsBalanced = refl

mutual
  unfolding build AllBalanced

  build-IsBalanced :
      (x : Texts) (columns : (p : PropertyName) → placeholders_of (x.column p) ≡ 0)
      (numbers : (n : ℕ) → placeholders (x.digits n) ≡ 0) (c : Condition)
      → IsBalanced (build x c)
  build-IsBalanced x columns numbers (condition o p v m) = modify-IsBalanced x columns numbers m _ (
      query_of-IsBalanced x columns numbers o p v _ _ _
        (joined_value-IsBalanced x columns numbers (codes " AND ") v refl)
        (joined_value-IsBalanced x columns numbers (codes " OR ") v refl)
        (negated_value-IsBalanced x columns numbers v))

  joined_value-IsBalanced :
      (x : Texts) (columns : (p : PropertyName) → placeholders_of (x.column p) ≡ 0)
      (numbers : (n : ℕ) → placeholders (x.digits n) ≡ 0) (operator : Text) (v : Value)
      → placeholders operator ≡ 0
      → IsBalanced (joined_value x operator v)
  joined_value-IsBalanced x columns numbers operator nil h = nothing-IsBalanced
  joined_value-IsBalanced x columns numbers operator (scalar s) h = nothing-IsBalanced
  joined_value-IsBalanced x columns numbers operator (one c) h = nothing-IsBalanced
  joined_value-IsBalanced x columns numbers operator (many cs) h =
      join_all-IsBalanced x columns numbers operator _ h
        (build_all-AllBalanced x columns numbers cs)

  negated_value-IsBalanced :
      (x : Texts) (columns : (p : PropertyName) → placeholders_of (x.column p) ≡ 0)
      (numbers : (n : ℕ) → placeholders (x.digits n) ≡ 0) (v : Value)
      → IsBalanced (negated_value x v)
  negated_value-IsBalanced x columns numbers nil = nothing-IsBalanced
  negated_value-IsBalanced x columns numbers (scalar s) = nothing-IsBalanced
  negated_value-IsBalanced x columns numbers (one c) =
      not_built-IsBalanced x columns numbers _ (build-IsBalanced x columns numbers c)
  negated_value-IsBalanced x columns numbers (many cs) = nothing-IsBalanced

  build_all-AllBalanced :
      (x : Texts) (columns : (p : PropertyName) → placeholders_of (x.column p) ≡ 0)
      (numbers : (n : ℕ) → placeholders (x.digits n) ≡ 0) (cs : Conditions)
      → AllBalanced (build_all x cs)
  build_all-AllBalanced x columns numbers done = tt
  build_all-AllBalanced x columns numbers (next c cs) =
      with_built-AllBalanced x columns numbers _ _ (build-IsBalanced x columns numbers c)
        (build_all-AllBalanced x columns numbers cs)

-- Where the query of a condition is built, it has as many placeholders as parameters, if no column and
-- no number has a placeholder in its text.
pub build-placeholders :
    (x : Texts) (c : Condition) (b : Built)
    → ((p : PropertyName) → placeholders_of (x.column p) ≡ 0)
    → ((n : ℕ) → placeholders (x.digits n) ≡ 0)
    → build x c ≡ some b
    → placeholders_of b.query ≡ length b.parameters
unfolding IsBalanced
build-placeholders x c b columns numbers built =
    subst IsBalanced built (build-IsBalanced x columns numbers c)
