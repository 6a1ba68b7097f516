-- ===== src/Claim/Removal/Removed.antt =====
-- What the removal from a group leaves behind.
use ios_sdk_develop.Prelude.{
  ℕ, ◌≡◌, refl, ap, inl, inr, Bool, false, ◌||◌, some, arith, ◌==◌, if◌then◌else◌, Bool-cases,
  ==_refl, none, Option, true,
}
use ios_sdk_develop.Claim.{Claim, Claims, nil, cons, fields, group, Fields, claim}
use ios_sdk_develop.Claim.Create.{adding_object, Fresh, group_of_claims}
use ios_sdk_develop.Claim.Removal.{remove_object, filter_loop, regroup, removing_claims_matching}

abbrev pub address : Claim → ℕ
address c = (fields c).address

abbrev append : Claims → Claims → Claims
append nil ds = ds
append (cons c cs) ds = cons c (append cs ds)

abbrev Absent : ℕ → Claims → Type 0
Absent a nil = Unit {0}
Absent a (cons c cs) = ((address c == a) ≡ false) × Absent a cs

-- No object stands twice in the group.
abbrev pub Distinct : Claims → Type 0
Distinct nil = Unit {0}
Distinct (cons c cs) = Absent (address c) cs × Distinct cs

abbrev Apart : Claims → Claims → Type 0
Apart pre nil = Unit {0}
Apart pre (cons c cs) = Absent (address c) pre × Apart pre cs

abbrev pub any_match : (Claim → Bool) → Claims → Bool
any_match p nil = false
any_match p (cons c cs) = p c || any_match p cs

-- The claims that stay: all that do not match, or all but the first that matches.
abbrev pub survivors : Bool → (Claim → Bool) → Claims → Claims
survivors once p nil = nil
survivors once p (cons c cs) =
    let rest = survivors once p cs in if p c then (if once then cs else rest) else cons c rest

remove_object-Absent : (a : ℕ) (cs : Claims) → Absent a cs → remove_object a cs ≡ cs
unfolding remove_object
remove_object-Absent a nil h = refl
remove_object-Absent a (cons c cs) h = ground (arith, remove_object-Absent a cs h.1)

remove_object-append :
    (pre : Claims) (c : Claim) (cs : Claims)
    → Absent (address c) pre
    → Absent (address c) cs
    → remove_object (address c) (append pre (cons c cs)) ≡ append pre cs
unfolding remove_object
remove_object-append nil c cs hp hc =
    rw (==_refl (address c)) (remove_object-Absent (address c) cs hc)
remove_object-append (cons d pre) c cs hp hc =
    rw hp.0 (ap (cons d) (remove_object-append pre c cs hp.1 hc))

append-adding_object :
    (pre : Claims) (c : Claim) (cs : Claims)
    → append (adding_object pre c) cs ≡ append pre (cons c cs)
unfolding adding_object
append-adding_object nil c cs = refl
append-adding_object (cons d pre) c cs = ap (cons d) (append-adding_object pre c cs)

Absent-adding_object :
    (a : ℕ) (pre : Claims) (c : Claim)
    → Absent a pre
    → (address c == a) ≡ false
    → Absent a (adding_object pre c)
unfolding adding_object
Absent-adding_object a nil c hp h = (h, tt)
Absent-adding_object a (cons d pre) c hp h = (hp.0, Absent-adding_object a pre c hp.1 h)

==_false_sym : (a b : ℕ) → (a == b) ≡ false → (b == a) ≡ false
==_false_sym a b h = ground arith

Apart-adding_object :
    (pre : Claims) (c : Claim) (cs : Claims)
    → Apart pre cs
    → Absent (address c) cs
    → Apart (adding_object pre c) cs
Apart-adding_object pre c nil h hc = tt
Apart-adding_object pre c (cons d cs) h hc = (
  Absent-adding_object (address d) pre c h.0 (==_false_sym _ _ hc.0),
  Apart-adding_object pre c cs h.1 hc.1,
)

-- One round of the loop, at a claim that does not match, and at one that does.
filter_loop_skip :
    (p : Claim → Bool) (once : Bool) (all : Claims) (c : Claim) (cs : Claims)
    (filtered : Option Claims)
    → p c ≡ false
    → filter_loop p once all (cons c cs) filtered ≡ filter_loop p once all cs filtered
unfolding filter_loop
filter_loop_skip p once all c cs filtered e = rw e

filter_loop_hit :
    (p : Claim → Bool) (once : Bool) (pre : Claims) (c : Claim) (cs : Claims)
    → p c ≡ true
    → Absent (address c) pre
    → Absent (address c) cs
    → filter_loop p once (append pre (cons c cs)) (cons c cs) none ≡ (
        if once
        then some (append pre cs)
        else filter_loop p once (append pre (cons c cs)) cs (some (append pre cs)))
unfolding filter_loop
filter_loop_hit p once pre c cs e hp hc = rw (e, remove_object-append pre c cs hp hc)

filter_loop_again :
    (p : Claim → Bool) (all pre : Claims) (c : Claim) (cs : Claims)
    → p c ≡ true
    → Absent (address c) pre
    → Absent (address c) cs
    → filter_loop p false all (cons c cs) (some (append pre (cons c cs)))
      ≡ filter_loop p false all cs (some (append pre cs))
unfolding filter_loop
filter_loop_again p all pre c cs e hp hc = rw (e, remove_object-append pre c cs hp hc)

-- The loop once something was removed: `pre` are the claims that were kept so far.
filter_loop_all :
    (p : Claim → Bool) (all pre cs : Claims)
    → Distinct cs
    → Apart pre cs
    → filter_loop p false all cs (some (append pre cs)) ≡ some (append pre (survivors false p cs))
filter_loop_all p all pre nil d h = unfold filter_loop in refl
filter_loop_all p all pre (cons c cs) d h = elim (Bool-cases (p c)) [
  | inl e ↦
      rw (filter_loop_again p all pre c cs e h.0 d.0, e) (filter_loop_all p all pre cs d.1 h.1)
  | inr e ↦
      rw (filter_loop_skip p false all c cs (some (append pre (cons c cs))) e, e)
        (rw (← append-adding_object pre c cs, ← append-adding_object pre c (survivors false p cs))
          (filter_loop_all p all (adding_object pre c) cs d.1
            (Apart-adding_object pre c cs h.1 d.0)))
]

-- The loop before anything was removed.
filter_loop-none :
    (p : Claim → Bool) (once : Bool) (pre cs : Claims)
    → Distinct cs
    → Apart pre cs
    → filter_loop p once (append pre cs) cs none
      ≡ (if any_match p cs then some (append pre (survivors once p cs)) else none)
filter_loop-none p once pre nil d h = unfold filter_loop in refl
filter_loop-none p once pre (cons c cs) d h = elim (Bool-cases (p c)) [
  | inl e ↦ rw (filter_loop_hit p once pre c cs e h.0 d.0, e) (found once)
  | inr e ↦
      rw (filter_loop_skip p once (append pre (cons c cs)) c cs none e, e)
        (rw (← append-adding_object pre c cs, ← append-adding_object pre c (survivors once p cs))
          (filter_loop-none p once (adding_object pre c) cs d.1
            (Apart-adding_object pre c cs h.1 d.0)))
]
  where
    found :
        (b : Bool)
        → (if b
            then some (append pre cs)
            else filter_loop p b (append pre (cons c cs)) cs (some (append pre cs)))
          ≡ some (append pre (if b then cs else survivors b p cs))
    found true = refl
    found false = filter_loop_all p (append pre (cons c cs)) pre cs d.1 h.1

-- The claim that a list of survivors makes: none if there are none, a new group otherwise.
abbrev pub group_or_none : Fresh → Fields → Claims → Option Claim
group_or_none n f nil = none
group_or_none n f (cons d ds) = some (group_of_claims n (cons d ds) f.group_operator)

regroup-some :
    (n : Fresh) (f : Fields) (cs ds : Claims) → regroup n f cs (some ds) ≡ group_or_none n f ds
unfolding regroup
regroup-some n f cs nil = refl
regroup-some n f cs (cons d ds) = refl

-- On a group that does not match itself and holds no object twice: if no member matches, the group
-- itself is returned; otherwise a new group, joined by the same operator, of the members that stay
-- in their order (all that do not match, or all but the first match), and nil if none stays.
pub removing_claims_matching_group :
    (n : Fresh) (p : Claim → Bool) (once : Bool) (f : Fields) (cs : Claims)
    → f.type ≡ group
    → p (claim f cs) ≡ false
    → Distinct cs
    → removing_claims_matching n p once (claim f cs)
      ≡ (if any_match p cs then group_or_none n f (survivors once p cs) else some (claim f cs))
unfolding removing_claims_matching
removing_claims_matching_group n p once f cs t m d =
    simp (m, t, filter_loop-none p once nil cs d (Apart-nil cs)) (split (any_match p cs))
  where
    Apart-nil : (ds : Claims) → Apart nil ds
    Apart-nil nil = tt
    Apart-nil (cons c ds) = (tt, Apart-nil ds)

    split :
        (b : Bool)
        → regroup n f cs (if b then some (survivors once p cs) else none)
          ≡ (if b then group_or_none n f (survivors once p cs) else some (claim f cs))
    split true = regroup-some n f cs (survivors once p cs)
    split false = refl
