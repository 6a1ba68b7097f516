-- ===== src/Query/Fulfilled/Junctions.antt =====
-- What the operators that join conditions mean.
use ios_sdk_develop.Prelude.{
  ◌≡◌, ◌↔◌, refl, Bool, true, false, not, ◌&&◌, ◌||◌, Option, Bool-cases, inl, inr,
}
use ios_sdk_develop.Item.{PropertyName}
use ios_sdk_develop.Query.{Scalar, Condition, Conditions, done, next, any_of, require, negating}
use ios_sdk_develop.Query.Fulfilled.{Comparisons, fulfilled, some_fulfilled, all_fulfilled}

-- A condition stands among the conditions.
pub data In (c : Condition) : Conditions → Type 0 where
  here : {cs : Conditions} → In c (next c cs)
  there : {d : Condition} {cs : Conditions} → In c cs → In c (next d cs)

clash : false ≡ true → ⊥
clash e = cc

not-true : (b : Bool) → not b ≡ true → b ≡ false
not-true true h = cc
not-true false h = refl

not_twice : (b : Bool) → not (not b) ≡ b
not_twice true = refl
not_twice false = refl

first_true : (a b : Bool) → (a && b) ≡ true → a ≡ true
first_true true b h = refl
first_true false b h = cc

second_true : (a b : Bool) → (a && b) ≡ true → b ≡ true
second_true true b h = h
second_true false b h = cc

first_false : (a b : Bool) → (a || b) ≡ false → a ≡ false
first_false true b h = cc
first_false false b h = refl

second_false : (a b : Bool) → (a || b) ≡ false → b ≡ false
second_false true b h = cc
second_false false b h = h

module _ (t : Comparisons) (item : PropertyName → Option Scalar) where
  -- The item fulfils some of the conditions, all of them, none of them.
  abbrev pub FulfilsSome : Conditions → Type 0
  FulfilsSome cs = (c : Condition) × In c cs × (fulfilled t item c ≡ true)

  abbrev pub FulfilsAll : Conditions → Type 0
  FulfilsAll cs = (c : Condition) → In c cs → fulfilled t item c ≡ true

  abbrev pub FulfilsNone : Conditions → Type 0
  FulfilsNone cs = (c : Condition) → In c cs → fulfilled t item c ≡ false

  some-from : (cs : Conditions) → some_fulfilled t item cs ≡ true → FulfilsSome cs
  unfolding fulfilled
  some-from done h = absurd (clash h)
  some-from (next c cs) h = elim (Bool-cases (fulfilled t item c)) [
    | inl e ↦ (c, here, e)
    | inr e ↦ let (d, among, q) = some-from cs (rw e at h) in (d, there among, q)
  ]

  some-by :
      (c : Condition) (cs : Conditions)
      → In c cs
      → fulfilled t item c ≡ true
      → some_fulfilled t item cs ≡ true
  unfolding fulfilled
  some-by c done among h = elim among [ ]
  some-by c (next d cs) here h = rw h refl
  some-by c (next d cs) (there among) h = elim (Bool-cases (fulfilled t item d)) [
    | inl e ↦ rw e refl
    | inr e ↦ rw e (some-by c cs among h)
  ]

  all-from :
      (c : Condition) (cs : Conditions)
      → all_fulfilled t item cs ≡ true
      → In c cs
      → fulfilled t item c ≡ true
  unfolding fulfilled
  all-from c done h among = elim among [ ]
  all-from c (next d cs) h here = first_true (fulfilled t item d) (all_fulfilled t item cs) h
  all-from c (next d cs) h (there among) =
      all-from c cs (second_true (fulfilled t item d) (all_fulfilled t item cs) h) among

  all-by : (cs : Conditions) → FulfilsAll cs → all_fulfilled t item cs ≡ true
  unfolding fulfilled
  all-by done h = refl
  all-by (next c cs) h = rw (h c here) (all-by cs (λ d among. h d (there among)))

  none-from :
      (c : Condition) (cs : Conditions)
      → some_fulfilled t item cs ≡ false
      → In c cs
      → fulfilled t item c ≡ false
  unfolding fulfilled
  none-from c done h among = elim among [ ]
  none-from c (next d cs) h here = first_false (fulfilled t item d) (some_fulfilled t item cs) h
  none-from c (next d cs) h (there among) =
      none-from c cs (second_false (fulfilled t item d) (some_fulfilled t item cs) h) among

  none-by : (cs : Conditions) → FulfilsNone cs → some_fulfilled t item cs ≡ false
  unfolding fulfilled
  none-by done h = refl
  none-by (next c cs) h = rw (h c here) (none-by cs (λ d among. h d (there among)))

-- An item fulfils a disjunction exactly if it fulfils one of the conditions, a conjunction exactly if it
-- fulfils all of them, the negation of a disjunction exactly if it fulfils none of them, and a condition
-- negated twice exactly if it fulfils the condition.
pub fulfilled-junctions :
    (t : Comparisons) (item : PropertyName → Option Scalar) (cs : Conditions) (c : Condition)
    → ((fulfilled t item (any_of cs) ≡ true) ↔ FulfilsSome t item cs)
      × ((fulfilled t item (require cs) ≡ true) ↔ FulfilsAll t item cs)
      × ((fulfilled t item (negating true (any_of cs)) ≡ true) ↔ FulfilsNone t item cs)
      × (fulfilled t item (negating true (negating true c)) ≡ fulfilled t item c)
unfolding fulfilled
fulfilled-junctions t item cs c = (
  (some-from t item cs, λ h. some-by t item h.0 cs h.1 h.2),
  (λ h d among. all-from t item d cs h among, all-by t item cs),
  (
    λ h d among. none-from t item d cs (not-true (some_fulfilled t item cs) h) among,
    λ h. rw (none-by t item cs h) refl,
  ),
  not_twice (fulfilled t item c),
)
