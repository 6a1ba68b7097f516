-- ===== src/Claim.antt =====
-- ownCloudSDK/Core/Claims/OCClaim.m: claims that keep the local copy of an item alive, and groups of
-- them. UUIDs, explicit identifiers, run identifiers and dates are numbers; `address` is the identity
-- of the object, by which `removeObject:` compares, since `OCClaim` does not override `isEqual:`.
pub mod Create
pub mod Removal
pub mod Locks
use ios_sdk_develop.Prelude.{
  ℕ, suc, Bool, true, false, not, ◌&&◌, ◌||◌, Option, none, some, List, [], ◌∷◌, ◌==◌, ltb,
  if◌then◌else◌, contains,
}
use ios_sdk_develop.Process.{ProcessSession, ProcessManager, is_session_valid}

pub data ClaimType : Type 0 where
  process expires explicit core_lifetime group : ClaimType

pub data LockType : Type 0 where
  no_lock delete_lock read_lock write_lock : LockType

pub data Operator : Type 0 where
  and_op or_op : Operator

-- The raw value of the enumeration, by which lock types are compared.
abbrev pub lock_level : LockType → ℕ
lock_level no_lock = 0
lock_level delete_lock = 1
lock_level read_lock = 2
lock_level write_lock = 3

pub record Fields : Type 0 where
  pub address : ℕ
  pub type : ClaimType
  pub type_of_lock : LockType
  pub identifier : ℕ
  pub creation_timestamp : ℕ
  pub process_session : Option ProcessSession
  pub explicit_identifier : Option ℕ
  pub expiry_date : Option ℕ
  pub core_run_identifier : Option ℕ
  pub group_operator : Operator
  pub inverted : Bool

-- A claim and the claims of its group, in order; the group of any other claim is empty.
mutual
  pub data Claim : Type 0 where
    claim : Fields → Claims → Claim

  pub data Claims : Type 0 where
    nil : Claims
    cons : Claim → Claims → Claims

abbrev pub fields : Claim → Fields
fields (claim f cs) = f

abbrev pub group_claims : Claim → Claims
group_claims (claim f cs) = cs

-- What `isValid` reads outside of the claim: the process manager, the clock, and the run
-- identifiers of the cores that the core manager runs.
pub record Env : Type 0 where
  pub manager : ProcessManager
  pub now : ℕ
  pub active_run_identifiers : List ℕ

session_valid : Env → Option ProcessSession → Bool
unfolding is_session_valid
session_valid e s = (is_session_valid e.manager s true).0

abbrev same_session : Env → Option ProcessSession → Bool
same_session e none = false
same_session e (some s) = e.manager.process_session.uuid == s.uuid

abbrev is_active_run : Env → Option ℕ → Bool
is_active_run e none = false
is_active_run e (some r) = contains r e.active_run_identifiers

abbrev not_expired : Env → Option ℕ → Bool
not_expired e none = false
not_expired e (some d) = ltb e.now d

-- The `switch` of `isValid`. The last two arguments are what the two loops over the group find:
-- whether all of at least one claim are valid, and whether some claim is.
check_type : ClaimType → Env → Fields → Bool → Bool → Bool
unfolding session_valid
check_type process e f all some_valid = session_valid e f.process_session
check_type expires e f all some_valid = not_expired e f.expiry_date
check_type explicit e f all some_valid = true
check_type core_lifetime e f all some_valid =
    if session_valid e f.process_session
    then (if same_session e f.process_session then is_active_run e f.core_run_identifier else true)
    else false
check_type group e f all some_valid = elim f.group_operator [ and_op ↦ all | or_op ↦ some_valid ]

-- `_groupClaims.count > 0`.
abbrev pub nonempty : Claims → Bool
nonempty nil = false
nonempty (cons c cs) = true

abbrev pub invert : Bool → Bool → Bool
invert inverted b = if inverted then not b else b

unfoldable mutual
  unfolding check_type

  pub is_valid : Env → Claim → Bool
  is_valid e (claim f cs) =
      invert f.inverted (check_type f.type e f (nonempty cs && all_valid e cs) (any_valid e cs))

  pub all_valid : Env → Claims → Bool
  all_valid e nil = true
  all_valid e (cons c cs) = is_valid e c && all_valid e cs

  pub any_valid : Env → Claims → Bool
  any_valid e nil = false
  any_valid e (cons c cs) = is_valid e c || any_valid e cs

abbrev pub is_group : ClaimType → Bool
is_group group = true
is_group _ = false

abbrev pub stronger : LockType → LockType → LockType
stronger found lock = if ltb (lock_level lock) (lock_level found) then found else lock

unfoldable mutual
  pub type_of_lock : Env → Claim → LockType
  type_of_lock e (claim f cs) = if is_group f.type then max_lock e no_lock cs else f.type_of_lock

  -- The loop, with the strongest lock found so far.
  pub max_lock : Env → LockType → Claims → LockType
  max_lock e lock nil = lock
  max_lock e lock (cons c cs) =
      max_lock e (if is_valid e c then stronger (type_of_lock e c) lock else lock) cs

abbrev pub is_or_group : Fields → Bool
is_or_group f = is_group f.type && elim f.group_operator [ or_op ↦ true | and_op ↦ false ]
