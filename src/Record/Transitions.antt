-- ===== src/Record/Transitions.antt =====
-- What the state and the wait conditions of a sync record do.
use ios_sdk_develop.Prelude.{
  ℕ, ◌≡◌, refl, ap, ◌∙◌, false, Option, none, some, List, [], ◌∷◌, ◌++◌, arith, ◌==◌, All,
  if◌then◌else◌, ==_refl,
}
use ios_sdk_develop.Record.{
  State, WaitCondition, SyncRecord, Outcome, is_processing, transition_to_state, add_wait_condition,
  remove_condition, remove_wait_condition, nil_if_empty, complete_with_error, conditions,
}

-- A transition sets the state and replaces the wait conditions, from any state; the time since when
-- the record is in progress is set exactly when the record enters the processing state from another
-- one, and the lane, the record's ID, the action and the result handler stay.
pub transition_to_state_lem :
    (now : ℕ) (s : State) (waits : Option (List WaitCondition)) (r : SyncRecord)
    → transition_to_state now s waits r ≡ record r {
      state = s;
      wait_conditions = waits;
      in_progress_since =
          (if is_processing s
            then (if is_processing r.state then r.in_progress_since else some now)
            else r.in_progress_since);
    }
unfolding transition_to_state
transition_to_state_lem now s waits r = ground arith

-- No wait condition of the list is the object.
abbrev pub Absent : ℕ → List WaitCondition → Type 0
Absent a = All (λ w. (w.address == a) ≡ false)

pub remove_condition-Absent :
    (a : ℕ) (ws : List WaitCondition) → Absent a ws → remove_condition a ws ≡ ws
unfolding remove_condition
remove_condition-Absent a [] h = refl
remove_condition-Absent a (w ∷ ws) h = ground (arith, remove_condition-Absent a ws h.1)

remove_condition-snoc :
    (w : WaitCondition) (ws : List WaitCondition)
    → Absent w.address ws
    → remove_condition w.address (ws ++ (w ∷ [])) ≡ ws
unfolding remove_condition
remove_condition-snoc w [] h = rw (==_refl w.address)
remove_condition-snoc w (v ∷ ws) h = rw (h.0, remove_condition-snoc w ws h.1)

conditions-nil_if_empty :
    (r : SyncRecord) (ws : List WaitCondition)
    → conditions (record r { wait_conditions = nil_if_empty ws }) ≡ ws
unfolding nil_if_empty
conditions-nil_if_empty r [] = refl
conditions-nil_if_empty r (w ∷ ws) = refl

pub conditions-remove_wait_condition :
    (w : WaitCondition) (r : SyncRecord)
    → conditions (remove_wait_condition w r) ≡ remove_condition w.address (conditions r)
unfolding remove_wait_condition
conditions-remove_wait_condition w r = split r.wait_conditions
  where
    split :
        (o : Option (List WaitCondition))
        → conditions (remove_wait_condition w (record r { wait_conditions = o }))
          ≡ remove_condition w.address (elim o [ none ↦ [] | some ws ↦ ws ])
    split none = refl
    split (some ws) = conditions-nil_if_empty r (remove_condition w.address ws)

pub conditions-add_wait_condition :
    (w : WaitCondition) (r : SyncRecord)
    → conditions (add_wait_condition w r) ≡ conditions r ++ (w ∷ [])
unfolding add_wait_condition
conditions-add_wait_condition w r = ground arith

-- Adding a wait condition that the record does not hold, and removing it, leaves its wait conditions
-- as they were.
pub remove-add_wait_condition :
    (w : WaitCondition) (r : SyncRecord)
    → Absent w.address (conditions r)
    → conditions (remove_wait_condition w (add_wait_condition w r)) ≡ conditions r
remove-add_wait_condition w r h =
    conditions-remove_wait_condition w (add_wait_condition w r)
    ∙ ap (remove_condition w.address) (conditions-add_wait_condition w r)
    ∙ remove_condition-snoc w (conditions r) h

-- However often a record is completed, its result handler is called once at most, with the error of
-- the first completion.
pub complete_with_error_once :
    (e e' : Outcome) (r : SyncRecord)
    → complete_with_error e' (complete_with_error e r) ≡ complete_with_error e r
unfolding complete_with_error
complete_with_error_once e e' r = ground arith
