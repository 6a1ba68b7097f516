-- ===== src/Claim/Create.antt =====
-- OCClaim.m: the initialisers, and the combination of claims into groups.
pub mod Combined
use ios_sdk_develop.Prelude.{
  ℕ, Bool, true, false, not, ◌&&◌, Option, none, some, ◌==◌, if◌then◌else◌,
}
use ios_sdk_develop.Process.{ProcessManager}
use ios_sdk_develop.Claim.{
  ClaimType, process, expires, explicit, core_lifetime, group, LockType, no_lock, Operator, and_op,
  or_op, Fields, Claim, Claims, claim, nil, cons, fields, Env, is_valid, is_group,
}

-- What `init` draws for a new object: its address, its UUID and the time of its creation.
pub record Fresh : Type 0 where
  pub address : ℕ
  pub identifier : ℕ
  pub timestamp : ℕ

-- `init`, with the fields that the initialisers leave at nil, zero or NO.
unfoldable pub init : Fresh → Fields
init n = record {
  address = n.address;
  type = process;
  type_of_lock = no_lock;
  identifier = n.identifier;
  creation_timestamp = n.timestamp;
  process_session = none;
  explicit_identifier = none;
  expiry_date = none;
  core_run_identifier = none;
  group_operator = and_op;
  inverted = false;
}

unfoldable pub process_claim : Fresh → ProcessManager → LockType → Claim
unfolding init
process_claim n m lock =
    claim
      (record (init n) {
        type = process;
        type_of_lock = lock;
        process_session = some m.process_session;
      })
      nil

unfoldable pub explicit_claim : Fresh → ℕ → LockType → Claim
unfolding init
explicit_claim n identifier lock =
    claim
      (record (init n) {
        type = explicit;
        type_of_lock = lock;
        explicit_identifier = some identifier;
      })
      nil

unfoldable pub claim_expiring_at_date : Fresh → ℕ → LockType → Claim
unfolding init
claim_expiring_at_date n date lock =
    claim (record (init n) { type = expires; type_of_lock = lock; expiry_date = some date }) nil

with_explicit : Option ℕ → Claim → Claim
with_explicit x (claim f cs) = claim (record f { explicit_identifier = x }) cs

core_claim : Fresh → ProcessManager → ℕ → LockType → Claim
unfolding init
core_claim n m run lock =
    claim
      (record (init n) {
        type = core_lifetime;
        type_of_lock = lock;
        core_run_identifier = some run;
        process_session = some m.process_session;
      })
      nil

-- The core is its flag `isManaged` and its run identifier.
unfoldable pub claim_for_lifetime_of_core :
    Fresh → ProcessManager → Bool → ℕ → Option ℕ → LockType → Claim
unfolding process_claim core_claim with_explicit
claim_for_lifetime_of_core n m is_managed run x lock =
    with_explicit x (if is_managed then core_claim n m run lock else process_claim n m lock)

unfoldable pub group_of_claims : Fresh → Claims → Operator → Claim
unfolding init
group_of_claims n cs op = claim (record (init n) { type = group; group_operator = op }) cs

-- `arrayByAddingObject:`.
unfoldable pub adding_object : Claims → Claim → Claims
adding_object nil d = cons d nil
adding_object (cons c cs) d = cons c (adding_object cs d)

unfoldable pub combined_with_claim : Fresh → Claim → Claim → Operator → Claim
unfolding group_of_claims adding_object
combined_with_claim n (claim f cs) d op =
    group_of_claims n
      (if is_group f.type then adding_object cs d else cons (claim f cs) (cons d nil)) op

unfoldable pub combining : Fresh → Option Claim → Option Claim → Operator → Option Claim
unfolding combined_with_claim
combining n none other op = other
combining n (some c) none op = some c
combining n (some c) (some d) op = some (combined_with_claim n c d op)

unfoldable pub claim_for_process_expiring_at_date :
    Fresh → Fresh → Fresh → ProcessManager → ℕ → LockType → Option Claim
unfolding process_claim claim_expiring_at_date combining
claim_for_process_expiring_at_date n₁ n₂ n₃ m date lock =
    combining n₃ (some (process_claim n₁ m lock)) (some (claim_expiring_at_date n₂ date lock))
      and_op
