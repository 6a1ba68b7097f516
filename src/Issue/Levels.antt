-- ===== src/Issue/Levels.antt =====
-- The level of a group.
use ios_sdk_develop.Prelude.{
  ℕ, ◌≤◌, ◌≡◌, refl, sym, ◌∙◌, Option, List, [], ◌∷◌, ◌++◌, append_nil, append_snoc, arith,
}
use ios_sdk_develop.Issue.{
  Issue, Group, Level, level_value, informal, higher, highest, issue_for_issues, add_issue,
  add_issues, add_group,
}

higher-twice : (a b : Level) → level_value a ≤ level_value (higher a b)
higher-twice a b = ground arith

highest-append : (is js : List Issue) (l : Level) → highest (is ++ js) l ≡ highest js (highest is l)
highest-append [] js l = refl
highest-append (i ∷ is) js l = highest-append is js (higher l i.level)

add_issues-level :
    (is : List Issue) (g : Group)
    → ((add_issues is g).own.level ≡ highest is g.own.level)
      × ((add_issues is g).issues ≡ g.issues ++ is)
unfolding add_issues add_issue
add_issues-level [] g = (refl, sym (append_nil g.issues))
add_issues-level (i ∷ is) g =
    let rest = add_issues-level is (add_issue i g) in (rest.0, rest.1 ∙ append_snoc g.issues i is)

-- A group made of some issues, to which a group of others is added, has the level of the group made of all of
-- them, and the same issues in order.
pub add_group-level :
    (is : List Issue) (handler : Option ℕ) (h : Group)
    → ((add_group h (issue_for_issues is handler)).own.level
        ≡ (issue_for_issues (is ++ h.issues) handler).own.level)
      × ((add_group h (issue_for_issues is handler)).issues
          ≡ (issue_for_issues (is ++ h.issues) handler).issues)
unfolding add_group issue_for_issues
add_group-level is handler h =
    let r = add_issues-level h.issues (issue_for_issues is handler) in
    (r.0 ∙ sym (highest-append is h.issues informal), r.1)
