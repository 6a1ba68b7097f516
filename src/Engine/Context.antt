-- ===== src/Engine/Context.antt =====
-- ownCloudSDK/Core/Sync/Context/OCSyncContext.m, and what OCCore+SyncEngine.m does with a context: the
-- changes that an action's method leaves behind. Changes of items are not modelled; the sync records
-- to remove are named by their IDs, and the error is present or not.
pub mod Kept
pub mod Retry
use ios_sdk_develop.Prelude.{
  ℕ, suc, ◌+◌, Bool, true, false, not, ◌&&◌, ◌||◌, Option, none, some, List, [], ◌∷◌, ◌++◌, ◌==◌,
  ltb, opt_is, if◌then◌else◌,
}
use ios_sdk_develop.Record.{State, WaitCondition, SyncRecord, transition_to_state, conditions}
use ios_sdk_develop.Engine.{Event, World, update_sync_record, without_row}

pub record SyncContext : Type 0 where
  pub sync_record : SyncRecord
  pub event : Option Event
  pub error : Bool
  pub remove_records : List ℕ
  pub update_stored_sync_record : Bool
  pub queued_wait_conditions : Option (List WaitCondition)

-- The contexts for preflight, scheduling, descheduling and recovery, and the one for an event.
unfoldable pub context_with : SyncRecord → SyncContext
context_with r = record {
  sync_record = r;
  event = none;
  error = false;
  remove_records = [];
  update_stored_sync_record = false;
  queued_wait_conditions = none;
}

unfoldable pub event_handling_context_with : SyncRecord → Event → SyncContext
unfolding context_with
event_handling_context_with r e = record (context_with r) { event = some e }

unfoldable pub add_wait_condition : WaitCondition → SyncContext → SyncContext
add_wait_condition w c = elim c.queued_wait_conditions [
  | none ↦ record c { queued_wait_conditions = some (w ∷ []) }
  | some ws ↦ record c { queued_wait_conditions = some (ws ++ (w ∷ [])) }
]

-- Which wait conditions a transition hands on, and which stay queued.
merge_conditions :
    Option (List WaitCondition)
    → Option (List WaitCondition)
    → Option (List WaitCondition) × Option (List WaitCondition)
merge_conditions (some ws) none = (some ws, none)
merge_conditions (some ws) (some queued) = (some (queued ++ ws), none)
merge_conditions none none = (none, none)
merge_conditions none (some []) = (none, some [])
merge_conditions none (some (q ∷ qs)) = (some (q ∷ qs), none)

unfoldable pub context_transition_to_state :
    ℕ → State → Option (List WaitCondition) → SyncContext → SyncContext
unfolding merge_conditions
context_transition_to_state now s waits c =
    let (handed, queued) = merge_conditions waits c.queued_wait_conditions in
    record c {
      queued_wait_conditions = queued;
      sync_record = transition_to_state now s handed c.sync_record;
      update_stored_sync_record = true;
    }

-- The loop of `_scheduleNextWaitConditionRunForRecord:` at one retry date.
abbrev is_better : ℕ → ℕ → Option ℕ → Bool
is_better now date none = true
is_better now date (some next) = ltb next now || ltb date next

unfoldable schedule_date : ℕ → World → World
schedule_date date w =
    if ltb w.now date && is_better w.now date w.next_scheduling_date
    then record w { next_scheduling_date = some date; timers = date ∷ w.timers }
    else w

abbrev schedule_optional : Option ℕ → World → World
schedule_optional none w = w
schedule_optional (some d) w = schedule_date d w

unfoldable schedule_dates : List WaitCondition → World → World
unfolding schedule_date
schedule_dates [] w = w
schedule_dates (c ∷ cs) w = schedule_dates cs (schedule_optional c.next_retry_date w)

unfoldable pub schedule_next_wait_condition_run : SyncRecord → World → World
unfolding schedule_dates
schedule_next_wait_condition_run r w = schedule_dates (conditions r) w

-- The handler of a timer that was set there.
unfoldable pub timer_fires : World → World
timer_fires w = record w { next_scheduling_date = none; needs_to_process = true }

remove_rows : List ℕ → List SyncRecord → List SyncRecord
remove_rows [] js = js
remove_rows (i ∷ is) js = remove_rows is (without_row i js)

abbrev is_among : List ℕ → Option ℕ → Bool
is_among [] i = false
is_among (x ∷ xs) i = opt_is i x || is_among xs i

-- `removeSyncRecords:`; a record of the list loses its ID.
unfoldable remove_context_records : List ℕ → World → SyncRecord → World × SyncRecord
unfolding remove_rows
remove_context_records ids w r = if w.write_error then (w, r) else (
  record w { journal = remove_rows ids w.journal },
  (if is_among ids r.record_id then record r { record_id = none } else r),
)

-- The world, and the context's sync record, which the removal and the update of its row change.
unfoldable pub perform_sync_context_actions : SyncContext → World → World × SyncRecord
unfolding remove_context_records schedule_next_wait_condition_run
perform_sync_context_actions c w =
    let w₁ = schedule_next_wait_condition_run c.sync_record w in
    let (w₂, r) = remove_context_records c.remove_records w₁ c.sync_record in
    let (w₃, r', failed) = update_sync_record w₂ r in
    if c.update_stored_sync_record then (w₃, r') else (w₂, r)

-- `handleSyncRecord:error:` sends an error to the delegate of the core.
unfoldable pub handle_sync_record : Bool → World → World
handle_sync_record error w = if error then record w { errors_sent = suc w.errors_sent } else w
