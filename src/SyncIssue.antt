-- ===== src/SyncIssue.antt =====
-- ownCloudSDK/Core/Sync/Issue/OCSyncIssue.h and .m, OCSyncIssueChoice.h and .m, and the choices and
-- templates of ownCloudSDK/Message Queue: issues of the sync engine. Choices are values, also the ones that
-- an issue takes from a template; metadata are known by their address, and labels are not localized.
pub mod AutoChoice
use ios_sdk_develop.Prelude.{
  ℕ, Bool, true, false, Option, none, some, List, [], ◌∷◌, map, if◌then◌else◌, Text, codes, text_eq,
  lookup, with_key,
}
use ios_sdk_develop.Errors.{NsError}
use ios_sdk_develop.Event.{EventTarget}
use ios_sdk_develop.Issue.{Level, ChoiceType, cancel_choice, regular, default_choice}

-- `OCSyncIssueChoiceImpact`.
pub data Impact : Type 0 where
  non_destructive data_loss : Impact

-- `OCSyncIssueChoice`, with what it has of `OCMessageChoice`.
pub record SyncIssueChoice : Type 0 where
  pub type : ChoiceType
  pub identifier : Option Text
  pub label : Text
  pub meta_data : Option ℕ
  pub impact : Impact
  pub auto_choice_for_error : Option NsError

unfoldable pub choice_of_type :
    ChoiceType → Impact → Option Text → Text → Option ℕ → SyncIssueChoice
choice_of_type type impact identifier label meta_data = record {
  type = type;
  identifier = identifier;
  label = label;
  meta_data = meta_data;
  impact = impact;
  auto_choice_for_error = none;
}

unfoldable pub ok_choice : SyncIssueChoice
ok_choice = choice_of_type regular non_destructive (some (codes "_ok")) (codes "OK") none

unfoldable pub retry_choice : SyncIssueChoice
retry_choice =
    choice_of_type default_choice non_destructive (some (codes "_retry")) (codes "Retry") none

unfoldable pub cancel_choice_with_impact : Impact → SyncIssueChoice
cancel_choice_with_impact impact =
    choice_of_type cancel_choice impact (some (codes "_cancel")) (codes "Cancel") none

unfoldable pub with_auto_choice_for_error : Option NsError → SyncIssueChoice → SyncIssueChoice
with_auto_choice_for_error error c = record c { auto_choice_for_error = error }

-- `OCSyncIssue`.
pub record SyncIssue : Type 0 where
  pub sync_record_id : Option ℕ
  pub event_target : Option EventTarget
  pub creation_date : ℕ
  pub uuid : Text
  pub level : Level
  pub localized_title : Text
  pub localized_description : Option Text
  pub template_identifier : Option Text
  pub muted : Bool
  pub meta_data : Option ℕ
  pub routing_info : Option ℕ
  pub choices : List SyncIssueChoice

unfoldable pub issue_for_sync_record :
    ℕ → Text → Option ℕ → Level → Text → Option Text → Option ℕ → List SyncIssueChoice → SyncIssue
issue_for_sync_record now uuid record_id level title description meta_data choices = record {
  sync_record_id = record_id;
  event_target = none;
  creation_date = now;
  uuid = uuid;
  level = level;
  localized_title = title;
  localized_description = description;
  template_identifier = none;
  muted = false;
  meta_data = meta_data;
  routing_info = none;
  choices = choices;
}

unfoldable pub issue_from_target :
    ℕ
    → Text
    → Option EventTarget
    → Level
    → Text
    → Option Text
    → Option ℕ
    → List SyncIssueChoice
    → SyncIssue
unfolding issue_for_sync_record
issue_from_target now uuid target level title description meta_data choices =
    record (issue_for_sync_record now uuid none level title description meta_data choices) {
      event_target = target;
    }

-- `OCMessageTemplate`.
pub record MessageTemplate : Type 0 where
  pub identifier : Text
  pub category_name : Option Text
  pub choices : List SyncIssueChoice
  pub options : Option ℕ

abbrev pub Templates : Type 0
Templates = List (Text × MessageTemplate)

unfoldable pub register_templates : List MessageTemplate → Templates → Templates
register_templates [] known = known
register_templates (t ∷ ts) known = register_templates ts (with_key text_eq t.identifier t known)

unfoldable pub template_for_identifier : Text → Templates → Option MessageTemplate
template_for_identifier identifier known = lookup text_eq identifier known

abbrev pub from_template :
    Option MessageTemplate
    → ℕ
    → Text
    → Text
    → Option ℕ
    → Level
    → Text
    → Option Text
    → Option ℕ
    → Option SyncIssue
from_template none now uuid identifier record_id level title description meta_data = none
from_template (some t) now uuid identifier record_id level title description meta_data =
    some
      (record (issue_for_sync_record now uuid record_id level title description meta_data
        t.choices) { template_identifier = some identifier })

unfoldable pub issue_from_template :
    Templates
    → ℕ
    → Text
    → Text
    → Option ℕ
    → Level
    → Text
    → Option Text
    → Option ℕ
    → Option SyncIssue
unfolding template_for_identifier
issue_from_template known now uuid identifier record_id level title description meta_data =
    from_template (template_for_identifier identifier known) now uuid identifier record_id level
      title description meta_data

abbrev pub has_identifier : Text → SyncIssueChoice → Bool
has_identifier identifier c = elim c.identifier [ none ↦ false | some i ↦ text_eq i identifier ]

abbrev pub mapped_error : List (Text × NsError) → Option Text → Option NsError
mapped_error errors none = none
mapped_error errors (some identifier) = lookup text_eq identifier errors

abbrev pub with_mapped : Option NsError → SyncIssueChoice → SyncIssueChoice
with_mapped none c = c
with_mapped (some e) c = record c { auto_choice_for_error = some e }

unfoldable pub map_auto_choice_errors : List (Text × NsError) → SyncIssue → SyncIssue
map_auto_choice_errors errors s = record s {
  choices = map (λ c. with_mapped (mapped_error errors c.identifier) c) s.choices;
}

abbrev pub set_error : NsError → Text → List SyncIssueChoice → List SyncIssueChoice
set_error error identifier = map (λ c.
    if has_identifier identifier c then record c { auto_choice_for_error = some error } else c)

-- `setAutoChoiceError:forChoiceWithIdentifier:`.
unfoldable pub set_auto_choice_error : Option NsError → Option Text → SyncIssue → SyncIssue
set_auto_choice_error none identifier s = s
set_auto_choice_error (some error) none s = s
set_auto_choice_error (some error) (some identifier) s = record s {
  choices = set_error error identifier s.choices;
}

abbrev pub find_choice : Text → List SyncIssueChoice → Option SyncIssueChoice
find_choice identifier [] = none
find_choice identifier (c ∷ cs) =
    if has_identifier identifier c then some c else find_choice identifier cs

-- `choiceWithIdentifier:`.
unfoldable pub choice_with_identifier : Text → SyncIssue → Option SyncIssueChoice
choice_with_identifier identifier s = find_choice identifier s.choices
