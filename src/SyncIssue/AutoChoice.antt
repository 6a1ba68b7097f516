-- ===== src/SyncIssue/AutoChoice.antt =====
-- The choices that an error picks.
use ios_sdk_develop.Prelude.{
  ◌≡◌, refl, Option, none, some, List, [], ◌∷◌, Bool-cases, inl, inr, Text,
}
use ios_sdk_develop.Errors.{NsError}
use ios_sdk_develop.SyncIssue.{
  SyncIssueChoice, SyncIssue, has_identifier, set_error, set_auto_choice_error, find_choice,
  choice_with_identifier, with_auto_choice_for_error,
}

abbrev pub picked_by : NsError → Option SyncIssueChoice → Option SyncIssueChoice
unfolding with_auto_choice_for_error
picked_by e none = none
picked_by e (some c) = some (with_auto_choice_for_error (some e) c)

find_choice-set_error :
    (e : NsError) (i : Text) (cs : List SyncIssueChoice)
    → find_choice i (set_error e i cs) ≡ picked_by e (find_choice i cs)
unfolding with_auto_choice_for_error
find_choice-set_error e i [] = refl
find_choice-set_error e i (c ∷ cs) = elim (Bool-cases (has_identifier i c)) [
  | inl h ↦ rw h (rw h refl)
  | inr h ↦ rw h (rw h (find_choice-set_error e i cs))
]

-- The choice that is found under an identifier, after an error was set for the identifier, is the one that
-- was found before, with that error; none is found where none was.
pub choice_with_identifier-set_auto_choice_error :
    (e : NsError) (i : Text) (s : SyncIssue)
    → choice_with_identifier i (set_auto_choice_error (some e) (some i) s)
      ≡ picked_by e (choice_with_identifier i s)
unfolding choice_with_identifier set_auto_choice_error
choice_with_identifier-set_auto_choice_error e i s = find_choice-set_error e i s.choices
