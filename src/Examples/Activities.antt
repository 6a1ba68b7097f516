-- ===== src/Examples/Activities.antt =====
-- A manager with one activity, and another one that comes and goes.
use ios_sdk_develop.Prelude.{◌≡◌, refl, not, true, none, some, [], ◌∷◌, Text, codes, All}
use ios_sdk_develop.Activity.{
  Activity, publish, ActivityManager, is_at, running, with_identifier, with_state,
  updating_activity_for_identifier, update, update_at, activity_for_identifier,
}
use ios_sdk_develop.Activity.Coalesced.{published_and_gone, update-unpublish_published}

abbrev first_activity : Activity
first_activity = with_identifier 1 (codes "first") (codes "Uploading") none 5

abbrev second_activity : Activity
second_activity = with_identifier 2 (codes "second") (codes "Deleting") none 3

abbrev activity_manager : ActivityManager
activity_manager = record {
  activities = first_activity ∷ [];
  activity_by_identifier = (codes "first", 1) ∷ [];
  queued_activity_updates = (publish, 1) ∷ [];
}

update-unpublish_published_example :
    ((published_and_gone second_activity (codes "second") activity_manager).queued_activity_updates
      ≡ (publish, 1) ∷ [])
    × All
        (λ x. not (is_at 2 x) ≡ true)
        (published_and_gone second_activity (codes "second") activity_manager).activities
    × ((l : Text)
        → activity_for_identifier l
            (published_and_gone second_activity (codes "second") activity_manager)
          ≡ activity_for_identifier l activity_manager)
unfolding with_identifier activity_for_identifier
update-unpublish_published_example =
    update-unpublish_published second_activity (codes "second") activity_manager refl refl refl

-- A change of an activity that was just published is not queued again.
update_pending :
    (update
      (with_state running (updating_activity_for_identifier (some (codes "first"))))
      activity_manager).queued_activity_updates
    ≡ (publish, 1) ∷ []
unfolding update update_at with_state updating_activity_for_identifier
update_pending = refl
