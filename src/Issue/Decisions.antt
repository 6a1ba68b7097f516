-- ===== src/Issue/Decisions.antt =====
-- The decisions of issues and of their group.
pub mod Once
use ios_sdk_develop.Prelude.{
  ℕ, zero, suc, ◌+◌, ◌≤◌, ◌≡◌, refl, ap, sym, ◌∙◌, Bool, true, false, not, ◌&&◌, ◌||◌, Option, none,
  some, List, [], ◌∷◌, ◌++◌, ◌==◌, ltb, leb, length, length-append, keep, if◌then◌else◌, Text,
  arith, Bool-cases, inl, inr, All,
}
use ios_sdk_develop.Issue.{
  Issue, Group, Call, calls_choice, calls_issue, calls_group, Decision, undecided, reject, approve,
  decision_value, Choice, ChoiceType, cancel_choice, regular, default_choice, destructive, Level,
  level_value, informal, higher, highest, issue_for_issues, add_issue, add_issues, add_group,
}

abbrev pub call_issue : Option ℕ → Decision → List Call
call_issue none d = []
call_issue (some handler) d = calls_issue handler d ∷ []

abbrev pub call_group : Option ℕ → Decision → List Call
call_group none d = []
call_group (some handler) d = calls_group handler d ∷ []

-- `_madeDecision:` of an issue of a group, up to what it tells the group: the issue, and the calls.
unfoldable pub made_decision : Decision → Issue → Issue × List Call
made_decision d i =
    if i.decision_made
    then (i, [])
    else (record i { decision_made = true; decision = d }, call_issue i.issue_handler d)

unfoldable pub all_made_decision : Decision → List Issue → List Issue × List Call
unfolding made_decision
all_made_decision d [] = ([], [])
all_made_decision d (i ∷ is) =
    let first = made_decision d i in
    let rest = all_made_decision d is in (first.0 ∷ rest.0, first.1 ++ rest.1)

-- `_madeDecision:` of the group. What its issues tell it meanwhile is ignored.
unfoldable pub group_made_decision : Decision → Group → Group × List Call
unfolding all_made_decision
group_made_decision d g =
    if g.own.decision_made
    then (g, [])
    else let children = all_made_decision d g.issues in
      (
        record { own = record g.own { decision_made = true; decision = d }; issues = children.0 },
        children.1 ++ call_group g.own.issue_handler d,
      )

abbrev pub decision_count : Decision → List Issue → ℕ
decision_count d [] = 0
decision_count d (i ∷ is) =
    let rest = decision_count d is in
    if decision_value i.decision == decision_value d then suc rest else rest

abbrev pub summary_decision : List Issue → Decision
summary_decision is =
    if decision_count approve is == length is
    then approve
    else (if decision_count reject is == length is then reject else undecided)

-- `_childIssueMadeDecision:`.
unfoldable pub child_issue_made_decision : Group → Group × List Call
unfolding group_made_decision
child_issue_made_decision g =
    if decision_count undecided g.issues == 0
    then group_made_decision (summary_decision g.issues) g
    else (g, [])

abbrev pub call_choice : Option ℕ → List Call
call_choice none = []
call_choice (some handler) = calls_choice handler ∷ []

-- `selectChoice:`, up to what it tells the group.
unfoldable pub select_choice : Choice → Issue → Issue × List Call
select_choice c i = if i.decision_made then (i, []) else (
  record i { decision_made = true; selected_choice = some c },
  call_choice c.choice_handler ++ call_issue i.issue_handler undecided,
)

abbrev pub is_cancel : ChoiceType → Bool
is_cancel cancel_choice = true
is_cancel regular = false
is_cancel default_choice = false
is_cancel destructive = false

abbrev pub cancel_among : List Choice → Issue → Issue × List Call
cancel_among [] i = (i, [])
cancel_among (c ∷ cs) i = if is_cancel c.type then select_choice c i else cancel_among cs i

abbrev pub cancel_unselected : Option Choice → Option (List Choice) → Issue → Issue × List Call
cancel_unselected (some c) cs i = (i, [])
cancel_unselected none none i = (i, [])
cancel_unselected none (some cs) i = cancel_among cs i

-- `cancel`: the first choice of that type, if none is selected.
unfoldable pub cancel : Issue → Issue × List Call
cancel i = cancel_unselected i.selected_choice i.choices i

-- What an issue of the group does.
pub data ChildStep : Type 0 where
  decides : Decision → ChildStep
  selects : Choice → ChildStep
  cancels : ChildStep

abbrev pub child_step : ChildStep → Issue → Issue × List Call
child_step (decides d) i = made_decision d i
child_step (selects c) i = select_choice c i
child_step cancels i = cancel i

-- The issue at a place takes a step.
abbrev pub step_at : ℕ → ChildStep → List Issue → List Issue × List Call
step_at n s [] = ([], [])
step_at zero s (i ∷ is) = let r = child_step s i in (r.0 ∷ is, r.1)
step_at (suc n) s (i ∷ is) = let r = step_at n s is in (i ∷ r.0, r.1)

-- Which issue, if any, made its decision with the step, so that it tells the group.
abbrev pub has_called : List Issue → List Issue → Bool
has_called (i ∷ is) (j ∷ js) = (not i.decision_made && j.decision_made) || has_called is js
has_called [] js = false
has_called (i ∷ is) [] = false

-- A step of one of the issues, and what the group makes of it.
unfoldable pub child_acts : ℕ → ChildStep → Group → Group × List Call
unfolding child_issue_made_decision made_decision select_choice cancel
child_acts n s g =
    let r = step_at n s g.issues in
    let told = child_issue_made_decision (record { own = g.own; issues = r.0 }) in
    if has_called g.issues r.0
    then (told.0, r.1 ++ told.1)
    else (record { own = g.own; issues = r.0 }, r.1)

-- `approve` and `reject` of the group, and the steps of its issues.
pub data GroupStep : Type 0 where
  group_decides : Decision → GroupStep
  child_does : ℕ → ChildStep → GroupStep

unfoldable pub group_step : GroupStep → Group → Group × List Call
unfolding child_acts group_made_decision
group_step (group_decides d) g = group_made_decision d g
group_step (child_does n s) g = child_acts n s g

unfoldable pub group_steps : List GroupStep → Group → Group × List Call
unfolding group_step
group_steps [] g = (g, [])
group_steps (s ∷ steps) g =
    let r = group_step s g in let rest = group_steps steps r.0 in (rest.0, r.1 ++ rest.1)
