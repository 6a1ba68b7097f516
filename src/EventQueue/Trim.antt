-- ===== src/EventQueue/Trim.antt =====
-- The loop that bounds the used UUIDs keeps the first hundred.
use ios_sdk_develop.Prelude.{
  ℕ, zero, suc, ◌-◌, ◌≤◌, ◌<◌, ◌≡◌, refl, sym, ap, ◌∙◌, inl, inr, true, List, [], ◌∷◌, arith, ltb,
  length, take, contains, Bool-cases,
}
use ios_sdk_develop.EventQueue.{remove_last, trim_loop, trim}

length-remove_last : (xs : List ℕ) → length (remove_last xs) ≡ length xs - 1
unfolding remove_last
length-remove_last [] = omega arith
length-remove_last (x ∷ []) = omega arith
length-remove_last (x ∷ (y ∷ ys)) = omega (arith, length-remove_last (y ∷ ys))

take-remove_last : (n : ℕ) (xs : List ℕ) → n < length xs → take n (remove_last xs) ≡ take n xs
unfolding remove_last
take-remove_last zero xs h = refl
take-remove_last (suc n) [] h = elim h [ ]
take-remove_last (suc n) (x ∷ []) h = absurd (omega arith)
take-remove_last (suc n) (x ∷ (y ∷ ys)) h = ap (◌∷◌ x) (take-remove_last n (y ∷ ys) (omega arith))

take-all : (n : ℕ) (xs : List ℕ) → length xs ≤ n → take n xs ≡ xs
take-all zero [] h = refl
take-all zero (x ∷ xs) h = absurd (omega arith)
take-all (suc n) [] h = refl
take-all (suc n) (x ∷ xs) h = ap (◌∷◌ x) (take-all n xs (omega arith))

trim_loop-take : (fuel : ℕ) (xs : List ℕ) → length xs ≤ fuel → trim_loop fuel xs ≡ take 100 xs
unfolding trim_loop
trim_loop-take zero xs h = sym (take-all 100 xs (omega arith))
trim_loop-take (suc fuel) xs h = elim (Bool-cases (ltb 100 (length xs))) [
  | inl long ↦ rw long (
      trim_loop-take fuel (remove_last xs) (ground (arith, length-remove_last xs))
      ∙ take-remove_last 100 xs (ground arith))
  | inr short ↦ rw short (sym (take-all 100 xs (ground arith)))
]

-- The loop leaves the first hundred entries.
pub trim-take : (xs : List ℕ) → trim xs ≡ take 100 xs
unfolding trim
trim-take xs = trim_loop-take (length xs) xs (omega arith)

pub length-take_le : (n : ℕ) (xs : List ℕ) → length (take n xs) ≤ n
length-take_le zero xs = omega arith
length-take_le (suc n) [] = omega arith
length-take_le (suc n) (x ∷ xs) = omega (arith, length-take_le n xs)

pub take-take : (m n : ℕ) (xs : List ℕ) → m ≤ n → take m (take n xs) ≡ take m xs
take-take zero n xs h = refl
take-take (suc m) zero xs h = absurd (omega arith)
take-take (suc m) (suc n) [] h = refl
take-take (suc m) (suc n) (x ∷ xs) h = ap (◌∷◌ x) (take-take m n xs (omega arith))

pub contains-take : (a n : ℕ) (xs : List ℕ) → contains a (take n xs) ≡ true → contains a xs ≡ true
contains-take a zero xs h = cc
contains-take a (suc n) [] h = h
contains-take a (suc n) (x ∷ xs) h = ground (arith, contains-take a n xs)

pub take-trim : (m : ℕ) (xs : List ℕ) → m ≤ 100 → take m (trim xs) ≡ take m xs
take-trim m xs h = ap (take m) (trim-take xs) ∙ take-take m 100 xs h
