-- ===== src/Issue/Decisions/Once.antt =====
-- The handler of a group is called once.
use ios_sdk_develop.Prelude.{
  ℕ, zero, suc, ◌+◌, ◌≤◌, ◌≡◌, refl, ◌∙◌, Option, none, some, List, [], ◌∷◌, ◌++◌, ◌==◌,
  if◌then◌else◌, arith, Bool-cases, inl, inr,
}
use ios_sdk_develop.Issue.{
  Issue, Group, Call, calls_choice, calls_issue, calls_group, Decision, undecided, Choice,
}
use ios_sdk_develop.Issue.Decisions.{
  call_issue, call_group, call_choice, made_decision, all_made_decision, group_made_decision,
  child_issue_made_decision, select_choice, is_cancel, cancel_among, cancel_unselected, cancel,
  ChildStep, decides, selects, cancels, child_step, step_at, has_called, child_acts, GroupStep,
  group_decides, child_does, group_step, group_steps, summary_decision, decision_count,
}

-- How often the handler of the group is called.
abbrev pub group_calls : List Call → ℕ
group_calls [] = 0
group_calls (calls_choice h ∷ cs) = group_calls cs
group_calls (calls_issue h d ∷ cs) = group_calls cs
group_calls (calls_group h d ∷ cs) = suc (group_calls cs)

group_calls-append : (a b : List Call) → group_calls (a ++ b) ≡ group_calls a + group_calls b
group_calls-append [] b = omega arith
group_calls-append (calls_choice h ∷ cs) b = group_calls-append cs b
group_calls-append (calls_issue h d ∷ cs) b = group_calls-append cs b
group_calls-append (calls_group h d ∷ cs) b = omega (arith, group_calls-append cs b)

group_calls-call_issue : (h : Option ℕ) (d : Decision) → group_calls (call_issue h d) ≡ 0
group_calls-call_issue none d = refl
group_calls-call_issue (some h) d = refl

group_calls-call_choice : (h : Option ℕ) → group_calls (call_choice h) ≡ 0
group_calls-call_choice none = refl
group_calls-call_choice (some h) = refl

group_calls-call_group : (h : Option ℕ) (d : Decision) → group_calls (call_group h d) ≤ 1
group_calls-call_group none d = omega arith
group_calls-call_group (some h) d = omega arith

group_calls-made_decision : (d : Decision) (i : Issue) → group_calls (made_decision d i).1 ≡ 0
unfolding made_decision
group_calls-made_decision d i = elim (Bool-cases i.decision_made) [
  | inl e ↦ rw e refl
  | inr e ↦ rw e (group_calls-call_issue i.issue_handler d)
]

group_calls-all : (d : Decision) (is : List Issue) → group_calls (all_made_decision d is).1 ≡ 0
unfolding all_made_decision
group_calls-all d [] = refl
group_calls-all d (i ∷ is) =
    group_calls-append (made_decision d i).1 (all_made_decision d is).1
    ∙ rw (group_calls-made_decision d i, group_calls-all d is) refl

group_calls-select_choice : (c : Choice) (i : Issue) → group_calls (select_choice c i).1 ≡ 0
unfolding select_choice
group_calls-select_choice c i = elim (Bool-cases i.decision_made) [
  | inl e ↦ rw e refl
  | inr e ↦ rw e (
      group_calls-append (call_choice c.choice_handler) (call_issue i.issue_handler undecided)
      ∙ rw
          (
            group_calls-call_choice c.choice_handler,
            group_calls-call_issue i.issue_handler undecided,
          )
          refl)
]

group_calls-cancel_among : (cs : List Choice) (i : Issue) → group_calls (cancel_among cs i).1 ≡ 0
group_calls-cancel_among [] i = refl
group_calls-cancel_among (c ∷ cs) i = elim (Bool-cases (is_cancel c.type)) [
  | inl e ↦ rw e (group_calls-select_choice c i)
  | inr e ↦ rw e (group_calls-cancel_among cs i)
]

group_calls-cancel :
    (s : Option Choice) (cs : Option (List Choice)) (i : Issue)
    → group_calls (cancel_unselected s cs i).1 ≡ 0
group_calls-cancel (some c) cs i = refl
group_calls-cancel none none i = refl
group_calls-cancel none (some cs) i = group_calls-cancel_among cs i

group_calls-child_step : (s : ChildStep) (i : Issue) → group_calls (child_step s i).1 ≡ 0
unfolding cancel
group_calls-child_step (decides d) i = group_calls-made_decision d i
group_calls-child_step (selects c) i = group_calls-select_choice c i
group_calls-child_step cancels i = group_calls-cancel i.selected_choice i.choices i

group_calls-step_at : (n : ℕ) (s : ChildStep) (is : List Issue) → group_calls (step_at n s is).1 ≡ 0
group_calls-step_at n s [] = refl
group_calls-step_at zero s (i ∷ is) = group_calls-child_step s i
group_calls-step_at (suc n) s (i ∷ is) = group_calls-step_at n s is

-- How many calls are left.
abbrev left : Group → ℕ
left g = if g.own.decision_made then 0 else 1

Bounded : Group → Group × List Call → Type 0
Bounded g r = group_calls r.1 + left r.0 ≤ left g

group_made_decision-Bounded : (d : Decision) (g : Group) → Bounded g (group_made_decision d g)
unfolding Bounded group_made_decision
group_made_decision-Bounded d g = elim (Bool-cases g.own.decision_made) [
  | inl e ↦ rw e (omega arith)
  | inr e ↦ rw e (
      rw
        (
          group_calls-append (all_made_decision d g.issues).1 (call_group g.own.issue_handler d),
          group_calls-all d g.issues,
        )
        (omega (arith, group_calls-call_group g.own.issue_handler d)))
]

child_issue_made_decision-Bounded : (g : Group) → Bounded g (child_issue_made_decision g)
unfolding Bounded child_issue_made_decision
child_issue_made_decision-Bounded g = elim (Bool-cases (decision_count undecided g.issues == 0)) [
  | inl e ↦ rw e (group_made_decision-Bounded (summary_decision g.issues) g)
  | inr e ↦ rw e (omega arith)
]

bounded :
    (g : Group)
    → Bounded g (child_issue_made_decision g)
    → 0 + group_calls (child_issue_made_decision g).1 + left (child_issue_made_decision g).0
      ≤ left g
unfolding Bounded
bounded g h = omega (arith, h)

child_acts-Bounded : (n : ℕ) (s : ChildStep) (g : Group) → Bounded g (child_acts n s g)
unfolding Bounded child_acts
child_acts-Bounded n s g =
    let r = step_at n s g.issues in
    let g' : Group = record { own = g.own; issues = r.0 } in
    elim (Bool-cases (has_called g.issues r.0)) [
      | inl e ↦ rw e (
          rw
            (
              group_calls-append r.1 (child_issue_made_decision g').1,
              group_calls-step_at n s g.issues,
            )
            (let h = child_issue_made_decision-Bounded g' in bounded g' h))
      | inr e ↦ rw e (rw (group_calls-step_at n s g.issues) (omega arith))
    ]

group_step-Bounded : (s : GroupStep) (g : Group) → Bounded g (group_step s g)
unfolding group_step
group_step-Bounded (group_decides d) g = group_made_decision-Bounded d g
group_step-Bounded (child_does n s) g = child_acts-Bounded n s g

group_steps-Bounded : (steps : List GroupStep) (g : Group) → Bounded g (group_steps steps g)
unfolding Bounded group_steps
group_steps-Bounded [] g = omega arith
group_steps-Bounded (s ∷ steps) g =
    let first = group_step-Bounded s g in
    let rest = group_steps-Bounded steps (group_step s g).0 in
    rw (group_calls-append (group_step s g).1 (group_steps steps (group_step s g).0).1)
      (omega (arith, first, rest))

-- Whatever a group and its issues are decided to, in any order and however often, the handler of the
-- group is called at most once, and not at all if the group was decided before.
pub group_steps_calls_once :
    (steps : List GroupStep) (g : Group)
    → group_calls (group_steps steps g).1 ≤ (if g.own.decision_made then 0 else 1)
unfolding Bounded
group_steps_calls_once steps g = let h = group_steps-Bounded steps g in omega (arith, h)
