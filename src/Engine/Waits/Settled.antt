-- ===== src/Engine/Waits/Settled.antt =====
-- What a round over wait conditions leaves where none of them fails.
use ios_sdk_develop.Prelude.{
  ℕ, suc, ◌≡◌, refl, sym, ap, ◌∙◌, inl, inr, Bool, true, false, not, ◌&&◌, some, List, [], ◌∷◌,
  ◌++◌, arith, ◌==◌, Bool-cases, ==_refl, if◌then◌else◌, keep, any, All, All-snoc,
}
use mathlib.Core.Path.{subst}
use ios_sdk_develop.Record.{
  WaitCondition, SyncRecord, remove_condition, remove_wait_condition, conditions,
}
use ios_sdk_develop.Record.Transitions.{
  Absent, remove_condition-Absent, conditions-remove_wait_condition,
}
use ios_sdk_develop.Engine.{World, update_sync_record}
use ios_sdk_develop.Engine.Action.{WaitState, wait, proceed, fail, Methods}
use ios_sdk_develop.Engine.Waits.{
  WaitRun, apply_state, evaluate_conditions, evaluate_round, evaluate_rounds, rounds_of, wait_start,
  process_wait_conditions_of_sync_record,
}

-- Whether a condition waits still.
abbrev pub waits : WaitState → Bool
waits wait = true
waits proceed = false
waits fail = false

abbrev pub Unfailing : WaitState → Type 0
Unfailing wait = Unit
Unfailing proceed = Unit
Unfailing fail = ⊥

-- The addresses of the conditions differ.
abbrev pub Distinct : List WaitCondition → Type 0
Distinct [] = Unit
Distinct (x ∷ xs) = Absent x.address xs × Distinct xs

waiting : (WaitCondition → WaitState) → List WaitCondition → List WaitCondition
waiting f = keep (λ x. waits (f x))

none_waits : (WaitCondition → WaitState) → List WaitCondition → Bool
none_waits f xs = not (any (λ x. waits (f x)) xs)

snoc-append :
    (ks : List WaitCondition) (x : WaitCondition) (xs : List WaitCondition)
    → (ks ++ (x ∷ [])) ++ xs ≡ ks ++ (x ∷ xs)
snoc-append [] x xs = refl
snoc-append (k ∷ ks) x xs = ap (λ l. k ∷ l) (snoc-append ks x xs)

remove_condition-middle :
    (ks : List WaitCondition) (x : WaitCondition) (xs : List WaitCondition)
    → Absent x.address ks
    → Absent x.address xs
    → remove_condition x.address (ks ++ (x ∷ xs)) ≡ ks ++ xs
unfolding remove_condition
remove_condition-middle [] x xs h k =
    rw (==_refl x.address, remove_condition-Absent x.address xs k) refl
remove_condition-middle (y ∷ ks) x xs h k = rw (h.0, remove_condition-middle ks x xs h.1 k) refl

Apart-snoc :
    (ks : List WaitCondition) (x : WaitCondition) (xs : List WaitCondition)
    → All (λ y. Absent y.address ks) xs
    → Absent x.address xs
    → All (λ y. Absent y.address (ks ++ (x ∷ []))) xs
Apart-snoc ks x [] h k = tt
Apart-snoc ks x (y ∷ xs) h k = (
  All-snoc (λ w. (w.address == y.address) ≡ false) ks x h.0 (ground (arith, k.0)),
  Apart-snoc ks x xs h.1 k.1,
)

-- What holds after the conditions: those that wait are left, and the answer says whether there are any.
abbrev Settled :
    (WaitCondition → WaitState)
    → List WaitCondition
    → List WaitCondition
    → WaitRun
    → WaitRun
    → Type 0
Settled f ks xs s s' =
    (conditions s'.sync_record ≡ ks ++ waiting f xs)
    × (s'.can_continue ≡ (s.can_continue && none_waits f xs))
    × (s'.repeat_evaluation ≡ s.repeat_evaluation)

module _ (m : Methods) (f : WaitCondition → WaitState)
    (by_f : (w : World) (r : SyncRecord) (x : WaitCondition) → m.evaluate w r x ≡ f x) where
  evaluate_conditions-Settled :
      (ks xs : List WaitCondition) (s : WaitRun)
      → conditions s.sync_record ≡ ks ++ xs
      → All (λ y. Absent y.address ks) xs
      → Distinct xs
      → All (λ x. Unfailing (f x)) xs
      → Settled f ks xs s (evaluate_conditions m xs s)
  unfolding evaluate_conditions apply_state waiting none_waits
  evaluate_conditions-Settled ks [] s start apart distinct settles = (start, ground arith, refl)
  evaluate_conditions-Settled ks (x ∷ xs) s start apart distinct settles =
      rw (by_f s.world s.sync_record x) (
        by_state (λ ks' s' h k. evaluate_conditions-Settled ks' xs s' h k distinct.1 settles.1)
          (f x) refl)
    where
      by_state :
          ((ks' : List WaitCondition) (s' : WaitRun)
            → conditions s'.sync_record ≡ ks' ++ xs
            → All (λ y. Absent y.address ks') xs
            → Settled f ks' xs s' (evaluate_conditions m xs s'))
          → (a : WaitState) → f x ≡ a
          → Settled f ks (x ∷ xs) s (
              let (s', stops) = apply_state m x a s in
              if stops then s' else evaluate_conditions m xs s')
      by_state rest wait e =
          let s' = record s { can_continue = false; update_sync_record_in_db = true } in
          let (left, answer, repeats) =
            rest (ks ++ (x ∷ [])) s' (start ∙ sym (snoc-append ks x xs))
              (Apart-snoc ks x xs apart.1 distinct.0) in
          rw e (left ∙ snoc-append ks x (waiting f xs), ground (arith, answer), repeats)
      by_state rest proceed e =
          let s' = record s {
            sync_record = remove_wait_condition x s.sync_record;
            update_sync_record_in_db = true;
          } in
          let start' : conditions s'.sync_record ≡ ks ++ xs =
            conditions-remove_wait_condition x s.sync_record
            ∙ ap (remove_condition x.address) start
            ∙ remove_condition-middle ks x xs apart.0 distinct.0 in
          let (left, answer, repeats) = rest ks s' start' apart.1 in rw e (left, answer, repeats)
      by_state rest fail e = absurd (subst Unfailing e settles.0)

apart_from_none : (xs : List WaitCondition) → All (λ y. Absent y.address []) xs
apart_from_none [] = tt
apart_from_none (x ∷ xs) = (tt, apart_from_none xs)

conditions-update_sync_record :
    (w : World) (r : SyncRecord) → conditions (update_sync_record w r).1 ≡ conditions r
unfolding update_sync_record
conditions-update_sync_record w r = ground arith

evaluate_round-Settled :
    (m : Methods) (f : WaitCondition → WaitState)
    → ((w : World) (r : SyncRecord) (x : WaitCondition) → m.evaluate w r x ≡ f x)
    → (w : World) (r : SyncRecord) (xs : List WaitCondition) → conditions r ≡ xs
    → Distinct xs
    → All (λ x. Unfailing (f x)) xs
    → Settled f [] xs (wait_start w r) (evaluate_round m (wait_start w r))
unfolding evaluate_round
evaluate_round-Settled m f by_f w r xs start distinct settles =
    let s = evaluate_conditions m (conditions r) (wait_start w r) in
    let by_list =
      evaluate_conditions-Settled m f by_f [] xs (wait_start w r) start (apart_from_none xs)
        distinct settles in
    let same : evaluate_conditions m xs (wait_start w r) ≡ s =
      ap (λ l. evaluate_conditions m l (wait_start w r)) (sym start) in
    let h : Settled f [] xs (wait_start w r) s =
      subst (Settled f [] xs (wait_start w r)) same by_list in
    elim (Bool-cases s.update_sync_record_in_db) [
      | inl e ↦ simp e (conditions-update_sync_record s.world s.sync_record ∙ h.0, h.1, h.2)
      | inr e ↦ simp e h
    ]

evaluate_rounds-once :
    (fuel : ℕ) (m : Methods) (s : WaitRun)
    → (evaluate_round m s).repeat_evaluation ≡ false
    → evaluate_rounds (suc fuel) m s ≡ some (evaluate_round m s)
unfolding evaluate_rounds evaluate_round
evaluate_rounds-once fuel m s e = ground arith

-- Where the answer of each wait condition depends on the condition alone, none fails, and the
-- conditions are different objects, one round is enough fuel, and there is a result: the conditions
-- that are left on the record are those that wait, in order, and the record goes on exactly when none
-- of them does.
pub process_wait_conditions_settles :
    (fuel : ℕ) (m : Methods) (f : WaitCondition → WaitState) (w : World) (r : SyncRecord)
    → ((w : World) (r : SyncRecord) (x : WaitCondition) → m.evaluate w r x ≡ f x)
    → Distinct (conditions r)
    → All (λ x. Unfailing (f x)) (conditions r)
    → (s : WaitRun) × (process_wait_conditions_of_sync_record (suc fuel) m w r ≡ some s)
      × (conditions s.sync_record ≡ keep (λ x. waits (f x)) (conditions r))
      × (s.can_continue ≡ not (any (λ x. waits (f x)) (conditions r)))
unfolding process_wait_conditions_of_sync_record waiting none_waits
process_wait_conditions_settles fuel m f w r by_f distinct settles =
    by_conditions (conditions r) refl distinct settles
  where
    by_conditions :
        (xs : List WaitCondition)
        → conditions r ≡ xs
        → Distinct xs
        → All (λ x. Unfailing (f x)) xs
        → (s : WaitRun) × (rounds_of (suc fuel) m xs (wait_start w r) ≡ some s)
          × (conditions s.sync_record ≡ keep (λ x. waits (f x)) xs)
          × (s.can_continue ≡ not (any (λ x. waits (f x)) xs))
    by_conditions [] e distinct settles = (wait_start w r, refl, e, refl)
    by_conditions (x ∷ xs) e distinct settles =
        let (left, answer, repeats) =
          evaluate_round-Settled m f by_f w r (x ∷ xs) e distinct settles in
        (
          evaluate_round m (wait_start w r),
          evaluate_rounds-once fuel m (wait_start w r) repeats,
          left,
          answer,
        )
