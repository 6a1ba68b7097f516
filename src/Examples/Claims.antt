-- ===== src/Examples/Claims.antt =====
-- Claims on an item: an explicit one, one that has expired, and groups of them.
use ios_sdk_develop.Prelude.{ℕ, ◌≡◌, refl, inl, Bool, true, false, none, some, []}
use ios_sdk_develop.Claim.{
  explicit, expires, group, no_lock, read_lock, write_lock, Operator, and_op, or_op, Fields, Claim,
  Claims, claim, nil, cons, Env, is_valid, any_valid,
}
use ios_sdk_develop.Claim.Create.{Fresh, combined_with_claim}
use ios_sdk_develop.Claim.Create.Combined.{
  apply, is_valid-combined_with_claim, combined_with_claim-or_of_and,
}
use ios_sdk_develop.Claim.Removal.{cleaned_up_claim}
use ios_sdk_develop.Claim.Removal.CleanUp.{cleaned_up_claim_inverted}
use ios_sdk_develop.Examples.{manager}

abbrev env : Env
env = record { manager = manager true; now = 100; active_run_identifiers = [] }

abbrev fresh : ℕ → Fresh
fresh n = record { address = n; identifier = n; timestamp = 100 }

abbrev base : ℕ → Fields
base n = record {
  address = n;
  type = explicit;
  type_of_lock = read_lock;
  identifier = n;
  creation_timestamp = 0;
  process_session = none;
  explicit_identifier = some n;
  expiry_date = none;
  core_run_identifier = none;
  group_operator = and_op;
  inverted = false;
}

abbrev kept_claim : Claim
kept_claim = claim (base 1) nil

abbrev expired_claim : Claim
expired_claim =
    claim (record (base 2) { type = expires; type_of_lock = write_lock; expiry_date = some 50 }) nil

abbrev members : Claims
members = cons kept_claim (cons expired_claim nil)

abbrev group_fields : Operator → Bool → Fields
group_fields op inverted = record (base 3) {
  type = group;
  group_operator = op;
  type_of_lock = no_lock;
  inverted = inverted;
}

is_valid-combined_with_claim_example :
    is_valid env (combined_with_claim (fresh 9) kept_claim expired_claim and_op)
    ≡ apply and_op (is_valid env kept_claim) (is_valid env expired_claim)
is_valid-combined_with_claim_example =
    is_valid-combined_with_claim env (fresh 9) kept_claim expired_claim and_op (inl (λ e. cc))

combined_with_claim-or_of_and_example :
    is_valid env (
      combined_with_claim (fresh 9) (claim (group_fields and_op false) members) expired_claim or_op)
    ≡ true
unfolding any_valid
combined_with_claim-or_of_and_example =
    combined_with_claim-or_of_and env (fresh 9) (group_fields and_op false) members expired_claim
      refl refl refl

cleaned_up_claim_inverted_example :
    cleaned_up_claim env (fresh 9) (claim (group_fields or_op true) (cons expired_claim nil)) ≡ none
unfolding is_valid
cleaned_up_claim_inverted_example =
    cleaned_up_claim_inverted env (fresh 9) (group_fields or_op true) (cons expired_claim nil) refl
      refl refl (tt, tt) refl
