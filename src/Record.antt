-- ===== src/Record.antt =====
-- ownCloudSDK/Core/Sync/Record/OCSyncRecord.m: the record of a sync action on its way through the
-- sync engine. Dates and identifiers are numbers. `has_result_handler` and `completed` stand for the
-- result handler: whether there is one, and the errors (none for success) that it was called with.
pub mod Transitions
use ios_sdk_develop.Prelude.{
  ℕ, suc, Bool, true, false, Option, none, some, List, [], ◌∷◌, ◌++◌, ◌==◌, if◌then◌else◌,
}
use ios_sdk_develop.Process.{ProcessSession}
use ios_sdk_develop.Lane.{Tag}

pub data State : Type 0 where
  pending ready processing completed failed : State

-- `address` is the identity of the object, by which `removeObject:` compares.
pub record WaitCondition : Type 0 where
  pub address : ℕ
  pub uuid : ℕ
  pub next_retry_date : Option ℕ

-- What the engine reads of a sync action.
pub record SyncAction : Type 0 where
  pub identifier : ℕ
  pub categories : List ℕ
  pub lane_tags : List Tag

pub data Outcome : Type 0 where
  success cancelled_error other_error : Outcome

pub record SyncRecord : Type 0 where
  pub record_id : Option ℕ
  pub revision : ℕ
  pub lane_id : Option ℕ
  pub origin_process_session : Option ProcessSession
  pub is_process_independent : Bool
  pub action : Option SyncAction
  pub timestamp : ℕ
  pub state : State
  pub in_progress_since : Option ℕ
  pub wait_conditions : Option (List WaitCondition)
  pub has_result_handler : Bool
  pub calls : List Outcome
  pub progress_cancelled : Bool

unfoldable pub init_with_action : SyncAction → ProcessSession → ℕ → Bool → SyncRecord
init_with_action a session now has_handler = record {
  record_id = none;
  revision = 0;
  lane_id = none;
  origin_process_session = some session;
  is_process_independent = false;
  action = some a;
  timestamp = now;
  state = pending;
  in_progress_since = none;
  wait_conditions = none;
  has_result_handler = has_handler;
  calls = [];
  progress_cancelled = false;
}

abbrev pub is_processing : State → Bool
is_processing processing = true
is_processing _ = false

abbrev pub state_eq : State → State → Bool
state_eq pending pending = true
state_eq ready ready = true
state_eq processing processing = true
state_eq completed completed = true
state_eq failed failed = true
state_eq _ _ = false

-- `setState:`: leaving the processing state drops the wait conditions.
unfoldable pub set_state : State → SyncRecord → SyncRecord
set_state s r =
    let left = record r { state = s; wait_conditions = none } in
    let stays = record r { state = s } in
    if is_processing r.state then (if is_processing s then stays else left) else stays

-- The `switch` of the transition, entered when the state changes.
enter_state : State → ℕ → SyncRecord → SyncRecord
enter_state s now r = if is_processing s then record r { in_progress_since = some now } else r

unfoldable pub transition_to_state :
    ℕ → State → Option (List WaitCondition) → SyncRecord → SyncRecord
unfolding set_state enter_state
transition_to_state now s waits r =
    let entered = if state_eq r.state s then r else enter_state s now r in
    record (set_state s entered) { wait_conditions = waits }

unfoldable pub add_wait_condition : WaitCondition → SyncRecord → SyncRecord
add_wait_condition w r = elim r.wait_conditions [
  | none ↦ record r { wait_conditions = some (w ∷ []) }
  | some ws ↦ record r { wait_conditions = some (ws ++ (w ∷ [])) }
]

-- `removeObject:` removes every entry that is the object.
unfoldable pub remove_condition : ℕ → List WaitCondition → List WaitCondition
remove_condition a [] = []
remove_condition a (w ∷ ws) =
    let rest = remove_condition a ws in if w.address == a then rest else w ∷ rest

nil_if_empty : List WaitCondition → Option (List WaitCondition)
nil_if_empty [] = none
nil_if_empty (w ∷ ws) = some (w ∷ ws)

unfoldable pub remove_wait_condition : WaitCondition → SyncRecord → SyncRecord
unfolding remove_condition nil_if_empty
remove_wait_condition w r = elim r.wait_conditions [
  | none ↦ r
  | some ws ↦ record r { wait_conditions = nil_if_empty (remove_condition w.address ws) }
]

find_condition : ℕ → List WaitCondition → Option WaitCondition
find_condition u [] = none
find_condition u (w ∷ ws) = if w.uuid == u then some w else find_condition u ws

unfoldable pub wait_condition_for_uuid : ℕ → SyncRecord → Option WaitCondition
unfolding find_condition
wait_condition_for_uuid u r = elim r.wait_conditions [ none ↦ none | some ws ↦ find_condition u ws ]

-- The handler is called once, and dropped.
unfoldable pub complete_with_error : Outcome → SyncRecord → SyncRecord
complete_with_error e r =
    if r.has_result_handler then record r { calls = e ∷ r.calls; has_result_handler = false } else r

-- The wait conditions as a list: a missing array counts and enumerates as an empty one.
abbrev pub conditions : SyncRecord → List WaitCondition
conditions r = elim r.wait_conditions [ none ↦ [] | some ws ↦ ws ]
