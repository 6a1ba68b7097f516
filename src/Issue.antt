-- ===== src/Issue.antt =====
-- ownCloudSDK/Issues/OCIssue.h, OCIssue.m and OCIssueChoice.h: issues that are put to the user, and groups of
-- them. A group holds issues that are no groups, as `addIssue:` makes them; handlers are known by
-- their address, and that they are called is written down in order.
pub mod Decisions
pub mod Levels
use ios_sdk_develop.Prelude.{
  ℕ, zero, suc, Bool, true, false, not, ◌&&◌, Option, none, some, List, [], ◌∷◌, ◌++◌, ◌==◌, ltb,
  leb, length, keep, if◌then◌else◌, Text,
}
use ios_sdk_develop.Errors.{NsError}

-- `OCIssueLevel`.
pub data Level : Type 0 where
  informal warning error_level : Level

abbrev pub level_value : Level → ℕ
level_value informal = 0
level_value warning = 1
level_value error_level = 2

-- `OCIssueType`.
pub data IssueType : Type 0 where
  group multiple_choice url_redirection certificate_type generic error_type : IssueType

-- `OCIssueDecision`.
pub data Decision : Type 0 where
  undecided reject approve : Decision

abbrev pub decision_value : Decision → ℕ
decision_value undecided = 0
decision_value reject = 1
decision_value approve = 2

-- `OCIssueChoiceType`.
pub data ChoiceType : Type 0 where
  cancel_choice regular default_choice destructive : ChoiceType

-- `OCIssueChoice`.
pub record Choice : Type 0 where
  pub type : ChoiceType
  pub identifier : Option Text
  pub label : Option Text
  pub choice_handler : Option ℕ
  pub auto_choice_for_error : Option NsError
  pub user_info : Option ℕ

-- `OCIssue`, without its parent and the issues of a group.
pub record Issue : Type 0 where
  pub type : IssueType
  pub level : Level
  pub uuid : Option Text
  pub localized_title : Option Text
  pub localized_description : Option Text
  pub certificate : Option ℕ
  pub certificate_validation_result : ℕ
  pub certificate_url : Option Text
  pub original_url : Option Text
  pub suggested_url : Option Text
  pub error : Option NsError
  pub decision : Decision
  pub issue_handler : Option ℕ
  pub selected_choice : Option Choice
  pub choices : Option (List Choice)
  pub signature : Option Text
  pub decision_made : Bool

-- A group: the issue of the group, and its issues.
pub record Group : Type 0 where
  pub own : Issue
  pub issues : List Issue

-- A call of a choice's handler, of an issue's, or of the group's.
pub data Call : Type 0 where
  calls_choice : ℕ → Call
  calls_issue : ℕ → Decision → Call
  calls_group : ℕ → Decision → Call

abbrev pub new_issue : IssueType → Level → Option ℕ → Issue
new_issue type level handler = record {
  type = type;
  level = level;
  uuid = none;
  localized_title = none;
  localized_description = none;
  certificate = none;
  certificate_validation_result = 0;
  certificate_url = none;
  original_url = none;
  suggested_url = none;
  error = none;
  decision = undecided;
  issue_handler = handler;
  selected_choice = none;
  choices = none;
  signature = none;
  decision_made = false;
}

-- The issue for an error, with its description.
unfoldable pub issue_for_error : Text → Text → NsError → Level → Option ℕ → Issue
issue_for_error title description error level handler =
    record (new_issue error_type level handler) {
      error = some error;
      localized_title = some title;
      localized_description = some description;
    }

unfoldable pub issue_for_multiple_choices : Text → Text → List Choice → Option ℕ → Issue
issue_for_multiple_choices title description choices handler =
    record (new_issue multiple_choice informal handler) {
      localized_title = some title;
      localized_description = some description;
      choices = some choices;
    }

unfoldable pub issue_with_localized_title : Text → Text → Level → Option ℕ → Issue
issue_with_localized_title title description level handler =
    record (new_issue generic level handler) {
      localized_title = some title;
      localized_description = some description;
    }

abbrev pub higher : Level → Level → Level
higher found level = if ltb (level_value found) (level_value level) then level else found

-- The loop of `initWithIssues:completionHandler:`.
abbrev pub highest : List Issue → Level → Level
highest [] found = found
highest (i ∷ is) found = highest is (higher found i.level)

unfoldable pub issue_for_issues : List Issue → Option ℕ → Group
issue_for_issues issues handler = record {
  own = new_issue group (highest issues informal) handler;
  issues = issues;
}

unfoldable pub resolvable : Issue → Bool
resolvable i = not (level_value i.level == level_value error_level)

-- `addIssue:` to a group, of an issue that is no group and of a group.
unfoldable pub add_issue : Issue → Group → Group
add_issue i g = record {
  own = record g.own { level = higher g.own.level i.level };
  issues = g.issues ++ (i ∷ []);
}

unfoldable pub add_issues : List Issue → Group → Group
add_issues [] g = g
add_issues (i ∷ is) g = add_issues is (add_issue i g)

unfoldable pub add_group : Group → Group → Group
add_group h g = add_issues h.issues g
