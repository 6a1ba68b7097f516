-- ===== src/Activity.antt =====
-- ownCloudSDK/Activity/OCActivity.h and .m, OCActivityUpdate.h and .m, OCActivityManager.h and .m: what
-- goes on is shown as activities, which are published, updated and unpublished. An activity is known by
-- its address, and sorting keeps the order of equal rankings.
pub mod Coalesced
use ios_sdk_develop.Prelude.{
  ℕ, Bool, true, false, not, Option, none, some, List, [], ◌∷◌, ◌++◌, ◌==◌, leb, any, keep, map,
  if◌then◌else◌, Text, text_eq, lookup, with_key, without_key,
}
use ios_sdk_develop.Errors.{OcError, insufficient_parameters}

-- `OCActivityState`.
pub data ActivityState : Type 0 where
  pending running paused failed : ActivityState

-- `OCActivity`; progress and issues are known by their address.
pub record Activity : Type 0 where
  pub address : ℕ
  pub identifier : Option Text
  pub state : ActivityState
  pub ranking : ℕ
  pub localized_description : Option Text
  pub localized_status_message : Option Text
  pub progress : Option ℕ
  pub issue : Option ℕ
  pub is_cancellable : Bool

unfoldable pub with_identifier : ℕ → Text → Text → Option Text → ℕ → Activity
with_identifier address identifier description message ranking = record {
  address = address;
  identifier = some identifier;
  state = pending;
  ranking = ranking;
  localized_description = some description;
  localized_status_message = message;
  progress = none;
  issue = none;
  is_cancellable = false;
}

-- The progress that is cancelled.
unfoldable pub cancel : Activity → Option ℕ
cancel a = if a.is_cancellable then a.progress else none

-- `OCActivityUpdateType`.
pub data UpdateType : Type 0 where
  publish property unpublish : UpdateType

-- `OCActivityUpdate`, with the values by key path.
pub record ActivityUpdate : Type 0 where
  pub type : UpdateType
  pub identifier : Option Text
  pub activity : Option Activity
  pub new_status_message : Option Text
  pub new_progress : Option ℕ
  pub new_state : Option ActivityState

abbrev pub new_update : UpdateType → Option Text → Option Activity → ActivityUpdate
new_update type identifier activity = record {
  type = type;
  identifier = identifier;
  activity = activity;
  new_status_message = none;
  new_progress = none;
  new_state = none;
}

abbrev pub identifier_of : Option Activity → Option Text
identifier_of none = none
identifier_of (some a) = a.identifier

unfoldable pub publishing_activity : Option Activity → ActivityUpdate
publishing_activity a = new_update publish (identifier_of a) a

unfoldable pub unpublish_activity_for_identifier : Option Text → ActivityUpdate
unpublish_activity_for_identifier identifier = new_update unpublish identifier none

unfoldable pub updating_activity_for_identifier : Option Text → ActivityUpdate
updating_activity_for_identifier identifier = new_update property identifier none

unfoldable pub with_status_message : Option Text → ActivityUpdate → ActivityUpdate
with_status_message message u = record u { new_status_message = message }

unfoldable pub with_progress : Option ℕ → ActivityUpdate → ActivityUpdate
with_progress progress u = record u { new_progress = progress }

unfoldable pub with_state : ActivityState → ActivityUpdate → ActivityUpdate
with_state state u = record u { new_state = some state }

abbrev pub or_before {ℓ} : {A : Type ℓ} → Option A → Option A → Option A
or_before none before = before
or_before (some new) before = some new

abbrev pub state_or : Option ActivityState → ActivityState → ActivityState
state_or none before = before
state_or (some new) before = new

abbrev pub apply_values : ActivityUpdate → Activity → Activity
apply_values u a = record a {
  state = state_or u.new_state a.state;
  localized_status_message = or_before u.new_status_message a.localized_status_message;
  progress = or_before u.new_progress a.progress;
}

abbrev pub apply_by_type : UpdateType → ActivityUpdate → Activity → Option OcError × Activity
apply_by_type publish u a = (some insufficient_parameters, a)
apply_by_type property u a = (none, apply_values u a)
apply_by_type unpublish u a = (some insufficient_parameters, a)

-- `applyUpdate:`: the error, and the activity.
unfoldable pub apply_update : ActivityUpdate → Activity → Option OcError × Activity
apply_update u a = apply_by_type u.type u a

-- `OCActivityManager`; an update in the queue is its type and the address of the activity.
pub record ActivityManager : Type 0 where
  pub activities : List Activity
  pub activity_by_identifier : List (Text × ℕ)
  pub queued_activity_updates : List (UpdateType × ℕ)

abbrev pub insert_by_ranking : Activity → List Activity → List Activity
insert_by_ranking a [] = a ∷ []
insert_by_ranking a (b ∷ bs) =
    let rest = insert_by_ranking a bs in if leb a.ranking b.ranking then a ∷ (b ∷ bs) else b ∷ rest

abbrev pub sort_by_ranking : List Activity → List Activity
sort_by_ranking [] = []
sort_by_ranking (a ∷ bs) = insert_by_ranking a (sort_by_ranking bs)

abbrev pub is_at : ℕ → Activity → Bool
is_at address a = a.address == address

abbrev pub is_about : ℕ → UpdateType × ℕ → Bool
is_about address q = q.1 == address

abbrev pub is_publish : UpdateType → Bool
is_publish publish = true
is_publish property = false
is_publish unpublish = false

abbrev pub publishes : ℕ → UpdateType × ℕ → Bool
publishes address q = if is_about address q then is_publish q.0 else false

-- The queue, once an activity was updated.
abbrev pub queue_update : UpdateType → ℕ → List (UpdateType × ℕ) → List (UpdateType × ℕ)
queue_update publish address qs = qs ++ ((publish, address) ∷ [])
queue_update property address qs =
    if any (is_about address) qs then qs else qs ++ ((property, address) ∷ [])
queue_update unpublish address qs =
    let others = keep (λ q. not (is_about address q)) qs in
    if any (publishes address) qs then others else others ++ ((unpublish, address) ∷ [])

abbrev pub publish_as : Option Text → Activity → ActivityManager → ActivityManager
publish_as none a m = m
publish_as (some identifier) a m = record {
  activities = sort_by_ranking (m.activities ++ (a ∷ []));
  activity_by_identifier = with_key text_eq identifier a.address m.activity_by_identifier;
  queued_activity_updates = queue_update publish a.address m.queued_activity_updates;
}

abbrev pub publish_activity : Option Activity → ActivityManager → ActivityManager
publish_activity none m = m
publish_activity (some a) m = publish_as a.identifier a m

abbrev pub activity_at : Option Text → ActivityManager → Option ℕ
activity_at none m = none
activity_at (some identifier) m = lookup text_eq identifier m.activity_by_identifier

unfoldable pub update_at : ActivityUpdate → Option ℕ → ActivityManager → ActivityManager
unfolding apply_update
update_at u none m = m
update_at u (some address) m = record m {
  activities = map (λ a. if is_at address a then (apply_update u a).1 else a) m.activities;
  queued_activity_updates = queue_update property address m.queued_activity_updates;
}

abbrev pub without_identifier : Option Text → List (Text × ℕ) → List (Text × ℕ)
without_identifier none ps = ps
without_identifier (some identifier) ps = without_key text_eq identifier ps

abbrev pub unpublish_at : Option Text → Option ℕ → ActivityManager → ActivityManager
unpublish_at identifier none m = m
unpublish_at identifier (some address) m = record {
  activities = keep (λ a. not (is_at address a)) m.activities;
  activity_by_identifier = without_identifier identifier m.activity_by_identifier;
  queued_activity_updates = queue_update unpublish address m.queued_activity_updates;
}

abbrev pub update_by_type : UpdateType → ActivityUpdate → ActivityManager → ActivityManager
update_by_type publish u m = publish_activity u.activity m
update_by_type property u m = update_at u (activity_at u.identifier m) m
update_by_type unpublish u m = unpublish_at u.identifier (activity_at u.identifier m) m

-- `update:`.
unfoldable pub update : ActivityUpdate → ActivityManager → ActivityManager
update u m = update_by_type u.type u m

-- The block on the main queue: the updates that the notification carries, and an empty queue.
unfoldable pub notify : ActivityManager → List (UpdateType × ℕ) × ActivityManager
notify m = (m.queued_activity_updates, record m { queued_activity_updates = [] })

-- `activityForIdentifier:`.
unfoldable pub activity_for_identifier : Text → ActivityManager → Option ℕ
activity_for_identifier identifier m = activity_at (some identifier) m
