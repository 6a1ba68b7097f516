-- ===== src/KeyValueStack/Current.antt =====
-- The current value of a stack, and what the calls keep.
use ios_sdk_develop.Prelude.{
  ◌≡◌, refl, ap, Bool, true, false, Option, none, some, List, [], ◌∷◌, ◌++◌, All, Bool-cases, inl,
  inr, ==_refl,
}
use ios_sdk_develop.Claim.{Claim, fields, Env, is_valid}
use ios_sdk_develop.KeyValueStack.{
  Entry, push_object, pop_object_with_claim_id, determine_first_valid_object,
}

abbrev pub Stale {ℓ} : {V : Type ℓ} → Env → Entry V → Type 0
Stale e x = is_valid e x.claim ≡ false

abbrev pub some_stale {ℓ} : {A : Type ℓ} → List A → Bool
some_stale [] = false
some_stale (x ∷ xs) = true

-- The entry that was found is valid and on top of what is left; if none was found, nothing is left.
abbrev pub OnTop {ℓ} : {V : Type ℓ} → Env → Option (Entry V) → List (Entry V) → Type ℓ
OnTop e none entries = entries ≡ []
OnTop {V} e (some x) entries =
    (below : List (Entry V)) × (is_valid e x.claim ≡ true) × (entries ≡ x ∷ below)

module _ {ℓ} {V : Type ℓ} (e : Env) where
  -- The call removes a run of entries from the top whose claims are not valid, and reports whether
  -- there were any. The entry that it finds is then on top, and valid; if it finds none, the stack
  -- is empty.
  pub determine_first_valid_object_splits :
      (xs : List (Entry V))
      → let r = determine_first_valid_object e xs in
        (stale : List (Entry V)) × All (Stale e) stale
        × (xs ≡ stale ++ r.entries)
        × (r.removed_invalid_entries ≡ some_stale stale)
        × OnTop e r.found r.entries
  unfolding determine_first_valid_object
  determine_first_valid_object_splits [] = ([], tt, refl, refl, refl)
  determine_first_valid_object_splits (x ∷ xs) = elim (Bool-cases (is_valid e x.claim)) [
    | inl v ↦ rw v ([], tt, refl, refl, (xs, v, refl))
    | inr i ↦
        let (stale, all, split, removed, top) = determine_first_valid_object_splits xs in
        rw i (x ∷ stale, (i, all), ap (◌∷◌ x) split, refl, top)
  ]

  -- A value that is pushed with a valid claim is the current value, and nothing is removed.
  pub determine_first_valid_object-push_object :
      (v : Option V) (c : Claim) (xs : List (Entry V))
      → is_valid e c ≡ true
      → determine_first_valid_object e (push_object v c xs) ≡ record {
        entries = push_object v c xs;
        found = some (record { claim = c; value = v });
        removed_invalid_entries = false;
      }
  unfolding determine_first_valid_object push_object
  determine_first_valid_object-push_object v c xs h = rw h

  -- While the claims stay as they are, a second call finds the same entry and removes nothing.
  pub determine_first_valid_object_twice :
      (xs : List (Entry V))
      → let r = determine_first_valid_object e xs in
        determine_first_valid_object e r.entries ≡ record r { removed_invalid_entries = false }
  unfolding determine_first_valid_object
  determine_first_valid_object_twice [] = refl
  determine_first_valid_object_twice (x ∷ xs) = elim (Bool-cases (is_valid e x.claim)) [
    | inl v ↦ rw v (rw v)
    | inr i ↦ rw i (determine_first_valid_object_twice xs)
  ]

-- Pushing under a claim and popping that claim's identifier restores the stack.
pub pop-push {ℓ} :
    {V : Type ℓ} (v : Option V) (c : Claim) (xs : List (Entry V))
    → pop_object_with_claim_id (fields c).identifier (push_object v c xs) ≡ xs
unfolding pop_object_with_claim_id push_object
pop-push v c xs = rw (==_refl (fields c).identifier)
