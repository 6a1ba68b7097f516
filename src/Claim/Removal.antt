-- ===== src/Claim/Removal.antt =====
-- OCClaim.m: removing claims from a group, cleaning a claim up, and searching it.
pub mod Removed
pub mod CleanUp
use ios_sdk_develop.Prelude.{
  ℕ, Bool, true, false, not, ◌&&◌, Option, none, some, ◌==◌, if◌then◌else◌,
}
use ios_sdk_develop.Process.{ProcessManager}
use ios_sdk_develop.Claim.{
  ClaimType, process, expires, explicit, core_lifetime, group, LockType, no_lock, Operator, and_op,
  or_op, Fields, Claim, Claims, claim, nil, cons, fields, Env, is_valid, is_group, is_or_group,
}
use ios_sdk_develop.Claim.Create.{Fresh, group_of_claims}

-- `removeObject:` removes every entry that is the object.
remove_object : ℕ → Claims → Claims
remove_object a nil = nil
remove_object a (cons c cs) =
    let rest = remove_object a cs in if (fields c).address == a then rest else cons c rest

-- The loop over the group: the claims still to visit, and `filteredClaims`, nil at first.
filter_loop : (Claim → Bool) → Bool → Claims → Claims → Option Claims → Option Claims
unfolding remove_object
filter_loop matcher once all nil filtered = filtered
filter_loop matcher once all (cons c cs) filtered =
    let removed = remove_object (fields c).address (elim filtered [ none ↦ all | some l ↦ l ]) in
    let go_on = filter_loop matcher once all cs (some removed) in
    let skip = filter_loop matcher once all cs filtered in
    if matcher c then (if once then some removed else go_on) else skip

regroup : Fresh → Fields → Claims → Option Claims → Option Claim
unfolding group_of_claims
regroup n f cs none = some (claim f cs)
regroup n f cs (some nil) = none
regroup n f cs (some (cons d ds)) = some (group_of_claims n (cons d ds) f.group_operator)

unfoldable pub removing_claims_matching : Fresh → (Claim → Bool) → Bool → Claim → Option Claim
unfolding filter_loop regroup
removing_claims_matching n matcher once (claim f cs) =
    if matcher (claim f cs)
    then none
    else (if is_group f.type
        then regroup n f cs (filter_loop matcher once cs cs none)
        else some (claim f cs))

abbrev pub has_identifier : ℕ → Claim → Bool
has_identifier i c = (fields c).identifier == i

abbrev opt_eq : Option ℕ → ℕ → Bool
opt_eq none i = false
opt_eq (some j) i = j == i

abbrev pub has_explicit_identifier : ℕ → Claim → Bool
has_explicit_identifier i c = opt_eq (fields c).explicit_identifier i

unfoldable pub removing_claim_with_identifier : Fresh → ℕ → Claim → Option Claim
unfolding removing_claims_matching
removing_claim_with_identifier n i = removing_claims_matching n (has_identifier i) true

unfoldable pub removing_claims_with_explicit_identifier : Fresh → ℕ → Claim → Option Claim
unfolding removing_claims_matching
removing_claims_with_explicit_identifier n i =
    removing_claims_matching n (has_explicit_identifier i) false

unfoldable pub cleaned_up_claim : Env → Fresh → Claim → Option Claim
cleaned_up_claim e n (claim f cs) =
    if not (is_valid e (claim f cs))
    then none
    else (if is_or_group f
        then removing_claims_matching n (λ c. not (is_valid e c)) false (claim f cs)
        else some (claim f cs))

or_next : Option Claim → Option Claim → Option Claim
or_next none next = next
or_next (some c) next = some c

unfoldable mutual
  unfolding or_next

  pub claim_with_filter : (Claim → Bool) → Claim → Option Claim
  claim_with_filter p (claim f cs) =
      let below = first_with_filter p cs in if p (claim f cs) then some (claim f cs) else below

  pub first_with_filter : (Claim → Bool) → Claims → Option Claim
  first_with_filter p nil = none
  first_with_filter p (cons c cs) = or_next (claim_with_filter p c) (first_with_filter p cs)
