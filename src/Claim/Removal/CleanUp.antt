-- ===== src/Claim/Removal/CleanUp.antt =====
-- What cleaning up a claim keeps.
use ios_sdk_develop.Prelude.{
  ◌≡◌, refl, sym, ◌∙◌, ◌⊎◌, inl, inr, Bool, true, false, not, none, some, arith, Bool-cases,
}
use ios_sdk_develop.Claim.{
  group, or_op, LockType, no_lock, Fields, Claim, Claims, claim, nil, cons, is_or_group, Env,
  is_valid, any_valid, type_of_lock, max_lock, nonempty, stronger,
}
use ios_sdk_develop.Claim.Create.{Fresh, group_of_claims}
use ios_sdk_develop.Claim.Removal.{cleaned_up_claim, removing_claims_matching}
use ios_sdk_develop.Claim.Removal.Removed.{
  Distinct, survivors, any_match, group_or_none, removing_claims_matching_group,
}

abbrev invalid : Env → Claim → Bool
invalid e c = not (is_valid e c)

any_valid-survivors :
    (e : Env) (cs : Claims) → any_valid e (survivors false (invalid e) cs) ≡ any_valid e cs
unfolding any_valid
any_valid-survivors e nil = refl
any_valid-survivors e (cons c cs) = ground (arith, any_valid-survivors e cs)

max_lock-survivors :
    (e : Env) (lock : LockType) (cs : Claims)
    → max_lock e lock (survivors false (invalid e) cs) ≡ max_lock e lock cs
unfolding max_lock
max_lock-survivors e lock nil = refl
max_lock-survivors e lock (cons c cs) = elim (Bool-cases (is_valid e c)) [
  | inl v ↦ rw (v, v) (max_lock-survivors e (stronger (type_of_lock e c) lock) cs)
  | inr i ↦ rw (i) (max_lock-survivors e lock cs)
]

cleaned_up_or :
    (e : Env) (n : Fresh) (f : Fields) (cs : Claims)
    → is_or_group f ≡ true
    → is_valid e (claim f cs) ≡ true
    → cleaned_up_claim e n (claim f cs) ≡ removing_claims_matching n (invalid e) false (claim f cs)
unfolding cleaned_up_claim
cleaned_up_or e n f cs o v = rw (v, o)

cleaned_up_other :
    (e : Env) (n : Fresh) (f : Fields) (cs : Claims)
    → is_or_group f ≡ false
    → is_valid e (claim f cs) ≡ true
    → cleaned_up_claim e n (claim f cs) ≡ some (claim f cs)
unfolding cleaned_up_claim
cleaned_up_other e n f cs o v = rw (v, o)

or_group :
    (e : Env) (f : Fields) (cs : Claims)
    → is_or_group f ≡ true
    → f.inverted ≡ false
    → is_valid e (claim f cs) ≡ true
    → (f.type ≡ group) × (f.group_operator ≡ or_op) × (any_valid e cs ≡ true)
unfolding is_valid
or_group e f cs o i v = ground arith

-- A new OR group of claims of which one is valid is valid, and is not nil.
group_or_none_valid :
    (e : Env) (n : Fresh) (f : Fields) (ds : Claims)
    → f.group_operator ≡ or_op
    → any_valid e ds ≡ true
    → (c : Claim) × (group_or_none n f ds ≡ some c)
      × (is_valid e c ≡ true)
      × (type_of_lock e c ≡ max_lock e no_lock ds)
unfolding is_valid type_of_lock group_of_claims
group_or_none_valid e n f nil o a = cc
group_or_none_valid e n f (cons d ds) o a =
    (group_of_claims n (cons d ds) f.group_operator, refl, ground arith, refl)

type_of_lock_lem :
    (e : Env) (f : Fields) (cs : Claims)
    → f.type ≡ group
    → type_of_lock e (claim f cs) ≡ max_lock e no_lock cs
unfolding type_of_lock
type_of_lock_lem e f cs t = ground arith

-- A claim that is valid and not an inverted OR group, whose group holds no object twice, is cleaned
-- up to a claim that is valid and stands for the same lock.
pub cleaned_up_claim_valid :
    (e : Env) (n : Fresh) (f : Fields) (cs : Claims)
    → (is_or_group f ≡ false) ⊎ (f.inverted ≡ false)
    → Distinct cs
    → is_valid e (claim f cs) ≡ true
    → (c : Claim) × (cleaned_up_claim e n (claim f cs) ≡ some c)
      × (is_valid e c ≡ true)
      × (type_of_lock e c ≡ type_of_lock e (claim f cs))
cleaned_up_claim_valid e n f cs p d v = elim (Bool-cases (is_or_group f)) [
  | inl o ↦
      let i : f.inverted ≡ false = ground arith in
      let (t, op, a) = or_group e f cs o i v in
      let stays = removing_claims_matching_group n (invalid e) false f cs t (rw v) d in
      let (c, made, ok, lock) =
        group_or_none_valid e n f (survivors false (invalid e) cs) op
          (any_valid-survivors e cs ∙ a) in
      elim (Bool-cases (any_match (invalid e) cs)) [
        | inl m ↦ (
          c,
          cleaned_up_or e n f cs o v ∙ stays ∙ rw m made,
          ok,
          lock ∙ max_lock-survivors e no_lock cs ∙ sym (type_of_lock_lem e f cs t),
        )
        | inr m ↦ (claim f cs, cleaned_up_or e n f cs o v ∙ stays ∙ rw m, v, refl)
      ]
  | inr o ↦ (claim f cs, cleaned_up_other e n f cs o v, v, refl)
]

-- A claim that is not valid is cleaned up to nil.
pub cleaned_up_claim_invalid :
    (e : Env) (n : Fresh) (c : Claim) → is_valid e c ≡ false → cleaned_up_claim e n c ≡ none
unfolding cleaned_up_claim
cleaned_up_claim_invalid e n (claim f cs) v = rw v

inverted_or_group :
    (e : Env) (f : Fields) (cs : Claims)
    → is_or_group f ≡ true
    → f.inverted ≡ true
    → is_valid e (claim f cs) ≡ true
    → (f.type ≡ group) × (any_valid e cs ≡ false)
unfolding is_valid
inverted_or_group e f cs o i v = ground arith

survivors_none_valid :
    (e : Env) (cs : Claims)
    → any_valid e cs ≡ false
    → (survivors false (invalid e) cs ≡ nil) × (any_match (invalid e) cs ≡ nonempty cs)
unfolding any_valid
survivors_none_valid e nil a = (refl, refl)
survivors_none_valid e (cons c cs) a = ground (arith, survivors_none_valid e cs)

-- An inverted OR group that is valid, and so holds no valid claim, is cleaned up to nil if it holds
-- a claim at all and no object twice.
pub cleaned_up_claim_inverted :
    (e : Env) (n : Fresh) (f : Fields) (cs : Claims)
    → is_or_group f ≡ true
    → f.inverted ≡ true
    → nonempty cs ≡ true
    → Distinct cs
    → is_valid e (claim f cs) ≡ true
    → cleaned_up_claim e n (claim f cs) ≡ none
cleaned_up_claim_inverted e n f cs o i some_claim d v =
    let (t, a) = inverted_or_group e f cs o i v in
    let (gone, hit) = survivors_none_valid e cs a in
    cleaned_up_or e n f cs o v
    ∙ removing_claims_matching_group n (invalid e) false f cs t (rw v) d
    ∙ rw (hit, some_claim, gone)
