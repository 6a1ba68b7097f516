-- ===== src/Claim/Create/Combined.antt =====
-- When a combined claim means what its operator says.
use ios_sdk_develop.Prelude.{◌≡◌, refl, ◌≢◌, ◌⊎◌, Bool, true, false, ◌&&◌, ◌||◌, arith}
use ios_sdk_develop.Claim.{
  group, Operator, and_op, or_op, Fields, Claim, Claims, claim, nil, cons, nonempty, Env, is_valid,
  all_valid, any_valid, fields, group_claims,
}
use ios_sdk_develop.Claim.Create.{Fresh, adding_object, combined_with_claim}

all_valid-adding_object :
    (e : Env) (cs : Claims) (d : Claim)
    → all_valid e (adding_object cs d) ≡ (all_valid e cs && is_valid e d)
unfolding all_valid adding_object
all_valid-adding_object e nil d = ground arith
all_valid-adding_object e (cons c cs) d = ground (arith, all_valid-adding_object e cs d)

any_valid-adding_object :
    (e : Env) (cs : Claims) (d : Claim)
    → any_valid e (adding_object cs d) ≡ (any_valid e cs || is_valid e d)
unfolding any_valid adding_object
any_valid-adding_object e nil d = ground arith
any_valid-adding_object e (cons c cs) d = ground (arith, any_valid-adding_object e cs d)

nonempty-adding_object : (cs : Claims) (d : Claim) → nonempty (adding_object cs d) ≡ true
unfolding adding_object
nonempty-adding_object nil d = refl
nonempty-adding_object (cons c cs) d = refl

abbrev pub apply : Operator → Bool → Bool → Bool
apply and_op a b = a && b
apply or_op a b = a || b

-- The claims to which another one can be added by `op` without a change of meaning: all but groups,
-- and the groups that are joined by `op` themselves, are not inverted and hold a claim.
abbrev pub Joins : Operator → Claim → Type 0
Joins op c =
    ((fields c).type ≢ group)
    ⊎ (((fields c).group_operator ≡ op)
        × ((fields c).inverted ≡ false)
        × (nonempty (group_claims c) ≡ true))

-- If the first claim is no group, or a group of the same operator that is not inverted and not
-- empty, then the combination is valid exactly when the operator says so of the two claims.
pub is_valid-combined_with_claim :
    (e : Env) (n : Fresh) (c d : Claim) (op : Operator)
    → Joins op c
    → is_valid e (combined_with_claim n c d op) ≡ apply op (is_valid e c) (is_valid e d)
unfolding is_valid combined_with_claim
is_valid-combined_with_claim e n (claim f cs) d op j = ground (
  arith,
  all_valid-adding_object e cs d,
  any_valid-adding_object e cs d,
  nonempty-adding_object cs d,
)

-- Adding a claim by OR to a group that is joined by AND turns the whole group into an OR group: the
-- combination is valid as soon as a single member of the group is, also if neither the group nor the
-- added claim is valid.
pub combined_with_claim-or_of_and :
    (e : Env) (n : Fresh) (f : Fields) (cs : Claims) (d : Claim)
    → f.type ≡ group
    → f.group_operator ≡ and_op
    → any_valid e cs ≡ true
    → is_valid e (combined_with_claim n (claim f cs) d or_op) ≡ true
unfolding is_valid combined_with_claim
combined_with_claim-or_of_and e n f cs d t o a = ground (arith, any_valid-adding_object e cs d)
