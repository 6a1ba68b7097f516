-- ===== src/Prelude/Dictionaries.antt =====
-- Dictionaries as lists of keys and values, in which a key stands once, with the equality of the keys as
-- an argument.
use mathlib.Core.Path.{◌≡◌, refl, sym, ap, ◌∙◌}
use mathlib.Core.Logic.{inl, inr}
use mathlib.Core.Bool.{Bool, true, false}
use mathlib.Core.Option.{Option, none, some}
use mathlib.Core.List.{List, [], ◌∷◌}
use ios_sdk_develop.Prelude.Tests.{if◌then◌else◌, Bool-cases}

module _ {ℓ κ} {K : Type ℓ} {V : Type κ} where
  -- `objectForKey:`.
  abbrev pub lookup : (K → K → Bool) → K → List (K × V) → Option V
  lookup eq k [] = none
  lookup eq k (p ∷ ps) = if eq p.0 k then some p.1 else lookup eq k ps

  -- `removeObjectForKey:`.
  abbrev pub without_key : (K → K → Bool) → K → List (K × V) → List (K × V)
  without_key eq k [] = []
  without_key eq k (p ∷ ps) = let rest = without_key eq k ps in if eq p.0 k then rest else p ∷ rest

  -- `setObject:forKey:`.
  abbrev pub with_key : (K → K → Bool) → K → V → List (K × V) → List (K × V)
  with_key eq k v ps = (k, v) ∷ without_key eq k ps

  -- A value that is set, or removed by nil.
  abbrev pub set_key : (K → K → Bool) → K → Option V → List (K × V) → List (K × V)
  set_key eq k none ps = without_key eq k ps
  set_key eq k (some v) ps = with_key eq k v ps

  -- `addEntriesFromDictionary:`, the entries of the first list in order.
  abbrev pub add_entries : (K → K → Bool) → List (K × V) → List (K × V) → List (K × V)
  add_entries eq [] ps = ps
  add_entries eq (e ∷ es) ps = add_entries eq es (with_key eq e.0 e.1 ps)

  module _ (eq : K → K → Bool) (sound : (a b : K) → eq a b ≡ true → a ≡ b) where
    lookup-without_same : (k : K) (ps : List (K × V)) → lookup eq k (without_key eq k ps) ≡ none
    lookup-without_same k [] = refl
    lookup-without_same k (p ∷ ps) = elim (Bool-cases (eq p.0 k)) [
      | inl e ↦ rw e (lookup-without_same k ps)
      | inr e ↦ rw e (rw e (lookup-without_same k ps))
    ]

    lookup-without_other :
        (k l : K) (ps : List (K × V))
        → eq k l ≡ false
        → lookup eq l (without_key eq k ps) ≡ lookup eq l ps
    lookup-without_other k l [] h = refl
    lookup-without_other k l (p ∷ ps) h = elim (Bool-cases (eq p.0 k)) [
      | inl e ↦ rw e (rw (ap (λ t. eq t l) (sound p.0 k e) ∙ h) (lookup-without_other k l ps h))
      | inr e ↦ rw e (ap (λ o. if eq p.0 l then some p.1 else o) (lookup-without_other k l ps h))
    ]

    -- A key reads as it was set, and every other one as before.
    pub lookup-set_key :
        (refl_eq : (a : K) → eq a a ≡ true) (k l : K) (v : Option V) (ps : List (K × V))
        → lookup eq l (set_key eq k v ps) ≡ (if eq k l then v else lookup eq l ps)
    lookup-set_key refl_eq k l none ps = elim (Bool-cases (eq k l)) [
      | inl e ↦ rw e (
          ap (λ t. lookup eq t (without_key eq k ps)) (sym (sound k l e))
          ∙ lookup-without_same k ps)
      | inr e ↦ rw e (lookup-without_other k l ps e)
    ]
    lookup-set_key refl_eq k l (some v) ps = elim (Bool-cases (eq k l)) [
      | inl e ↦ rw e refl
      | inr e ↦ rw e (lookup-without_other k l ps e)
    ]
