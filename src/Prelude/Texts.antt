-- ===== src/Prelude/Texts.antt =====
-- Texts as lists of characters: comparison, and what Foundation does to split and join them.
use Prim.Native.Nat.{ℕ}
use Prim.Native.Char.{code}
use Prim.Native.String.{String}
use mathlib.Core.Path.{◌≡◌, refl, sym, ap, ◌∙◌}
use mathlib.Core.Logic.{inl, inr}
use mathlib.Core.Bool.{Bool, true, false, ◌&&◌}
use mathlib.Core.Option.{Option, none, some}
use mathlib.Core.List.{List, [], ◌∷◌, ◌++◌}
use native.Mathlib.Omega.{arith}
use ios_sdk_develop.Prelude.Tests.{if◌then◌else◌, ◌==◌, Bool-cases, ==_iff}
use ios_sdk_develop.Prelude.Lists.{All}

abbrev pub Text : Type 0
Text = List ℕ

-- The characters of a literal; `String` has its own `[]` and `∷`.
abbrev pub codes : String → Text
codes String.[] = []
codes (String.◌∷◌ c s) = code c ∷ codes s

-- `isEqual:`.
abbrev pub text_eq : Text → Text → Bool
text_eq [] [] = true
text_eq [] (b ∷ t) = false
text_eq (a ∷ s) [] = false
text_eq (a ∷ s) (b ∷ t) = a == b && text_eq s t

pub text_eq_refl : (s : Text) → text_eq s s ≡ true
text_eq_refl [] = refl
text_eq_refl (a ∷ s) = ground (arith, text_eq_refl s)

pub text_eq→eq : (s t : Text) → text_eq s t ≡ true → s ≡ t
text_eq→eq [] [] h = refl
text_eq→eq [] (b ∷ t) h = cc
text_eq→eq (a ∷ s) [] h = cc
text_eq→eq (a ∷ s) (b ∷ t) h = ground (arith, text_eq→eq s t)

-- A character before the first part.
abbrev pub prepend : ℕ → List Text → List Text
prepend c [] = (c ∷ []) ∷ []
prepend c (p ∷ ps) = (c ∷ p) ∷ ps

-- `componentsSeparatedByString:` with one character; there is always a part.
unfoldable pub components_separated_by : ℕ → Text → List Text
components_separated_by sep [] = [] ∷ []
components_separated_by sep (c ∷ s) =
    let rest = components_separated_by sep s in if c == sep then [] ∷ rest else prepend c rest

-- `componentsJoinedByString:`.
abbrev pub components_joined_by : ℕ → List Text → Text
components_joined_by sep [] = []
components_joined_by sep (p ∷ []) = p
components_joined_by sep (p ∷ (q ∷ ps)) = p ++ (sep ∷ components_joined_by sep (q ∷ ps))

-- The text does not hold the character.
abbrev pub Lacks : ℕ → Text → Type 0
Lacks sep = All (λ c. (c == sep) ≡ false)

components-lacking : (sep : ℕ) (p : Text) → Lacks sep p → components_separated_by sep p ≡ p ∷ []
unfolding components_separated_by
components-lacking sep [] h = refl
components-lacking sep (c ∷ p) h = rw (h.0, components-lacking sep p h.1) refl

components-append :
    (sep : ℕ) (p s : Text)
    → Lacks sep p
    → components_separated_by sep (p ++ (sep ∷ s)) ≡ p ∷ components_separated_by sep s
unfolding components_separated_by
components-append sep [] s h = ground arith
components-append sep (c ∷ p) s h = rw (h.0, components-append sep p s h.1) refl

-- Splitting what was joined gives the parts back, if there is one and none holds the separator.
pub separated-joined :
    (sep : ℕ) (p : Text) (ps : List Text)
    → All (Lacks sep) (p ∷ ps)
    → components_separated_by sep (components_joined_by sep (p ∷ ps)) ≡ p ∷ ps
separated-joined sep p [] h = components-lacking sep p h.0
separated-joined sep p (q ∷ ps) h =
    components-append sep p (components_joined_by sep (q ∷ ps)) h.0
    ∙ ap (λ l. p ∷ l) (separated-joined sep q ps h.1)

-- `hasPrefix:`.
abbrev pub has_prefix : Text → Text → Bool
has_prefix s [] = true
has_prefix [] (b ∷ t) = false
has_prefix (a ∷ s) (b ∷ t) = a == b && has_prefix s t

-- Equality of two values that may be nil, as the macro `compareVar` of the classes has it: both nil, or
-- both there and equal.
abbrev pub compare_var {ℓ} : {A : Type ℓ} → (A → A → Bool) → Option A → Option A → Bool
compare_var eq none none = true
compare_var eq none (some b) = false
compare_var eq (some a) none = false
compare_var eq (some a) (some b) = eq a b

pub compare_var_refl {ℓ} :
    {A : Type ℓ} (eq : A → A → Bool)
    → ((a : A) → eq a a ≡ true)
    → (o : Option A) → compare_var eq o o ≡ true
compare_var_refl eq r none = refl
compare_var_refl eq r (some a) = r a

joined-prepend :
    (sep c : ℕ) (ps : List Text)
    → components_joined_by sep (prepend c ps) ≡ c ∷ components_joined_by sep ps
joined-prepend sep c [] = refl
joined-prepend sep c (p ∷ []) = refl
joined-prepend sep c (p ∷ (q ∷ ps)) = refl

joined-empty :
    (sep c : ℕ) (s : Text)
    → components_joined_by sep ([] ∷ components_separated_by sep s)
      ≡ sep ∷ components_joined_by sep (components_separated_by sep s)
unfolding components_separated_by
joined-empty sep c [] = refl
joined-empty sep c (a ∷ s) = elim (Bool-cases (a == sep)) [
  | inl e ↦ rw e refl
  | inr e ↦ rw e (joined-empty_prepend a (components_separated_by sep s))
]
  where
    joined-empty_prepend :
        (a : ℕ) (ps : List Text)
        → components_joined_by sep ([] ∷ prepend a ps)
          ≡ sep ∷ components_joined_by sep (prepend a ps)
    joined-empty_prepend a [] = refl
    joined-empty_prepend a (p ∷ ps) = refl

-- Joining what was split gives the text back.
pub joined-separated :
    (sep : ℕ) (s : Text) → components_joined_by sep (components_separated_by sep s) ≡ s
unfolding components_separated_by
joined-separated sep [] = refl
joined-separated sep (a ∷ s) = elim (Bool-cases (a == sep)) [
  | inl e ↦ rw e (
      joined-empty sep a s
      ∙ rw (joined-separated sep s) (ap (λ c. c ∷ s) (sym ((==_iff a sep).0 e))))
  | inr e ↦ rw e (
      joined-prepend sep a (components_separated_by sep s)
      ∙ ap (λ t. a ∷ t) (joined-separated sep s))
]
