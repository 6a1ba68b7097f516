-- ===== src/KeyValueStack.antt =====
-- ownCloudSDK/KV Store/OCKeyValueStack.m: values that are current for as long as a claim is valid.
-- The head of the list is index 0. An out parameter that is not written is `none`.
pub mod Current
use ios_sdk_develop.Prelude.{
  ℕ, Bool, true, false, Option, none, some, List, [], ◌∷◌, ◌==◌, if◌then◌else◌,
}
use ios_sdk_develop.Claim.{Claim, fields, Env, is_valid}

pub record Entry {ℓ} (V : Type ℓ) : Type ℓ where
  pub claim : Claim
  pub value : Option V

-- What `determineFirstValidObject:` leaves behind and gives back.
pub record Found {ℓ} (V : Type ℓ) : Type ℓ where
  pub entries : List (Entry V)
  pub found : Option (Entry V)
  pub removed_invalid_entries : Bool

module _ {ℓ} {V : Type ℓ} where
  abbrev pub identifier : Entry V → ℕ
  identifier x = (fields x.claim).identifier

  unfoldable pub push_object : Option V → Claim → List (Entry V) → List (Entry V)
  push_object v c entries = record { claim = c; value = v } ∷ entries

  -- The enumeration stops at the first entry with the identifier, which is then removed.
  unfoldable pub pop_object_with_claim_id : ℕ → List (Entry V) → List (Entry V)
  pop_object_with_claim_id i [] = []
  pop_object_with_claim_id i (x ∷ xs) =
      let rest = pop_object_with_claim_id i xs in if identifier x == i then xs else x ∷ rest

  -- The enumeration, and the removal of the indexes that it collected.
  unfoldable pub determine_first_valid_object : Env → List (Entry V) → Found V
  determine_first_valid_object e [] = record {
    entries = [];
    found = none;
    removed_invalid_entries = false;
  }
  determine_first_valid_object e (x ∷ xs) =
      let rest = determine_first_valid_object e xs in
      if is_valid e x.claim
      then record { entries = x ∷ xs; found = some x; removed_invalid_entries = false }
      else record rest { removed_invalid_entries = true }
