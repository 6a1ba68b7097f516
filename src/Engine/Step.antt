-- ===== src/Engine/Step.antt =====
-- `-processSyncRecord:error:` of ownCloudSDK/Core/Sync/OCCore+SyncEngine.m: one sync record is checked
-- for its origin, given its events, cancelled, held by its wait conditions, or handled by its state.
pub mod Events
pub mod Cancel
pub mod Origin
use ios_sdk_develop.Prelude.{
  ℕ, zero, suc, Bool, true, false, not, ◌&&◌, ◌||◌, Option, none, some, List, [], ◌∷◌, ◌==◌, leb,
  length, keep, contains, if◌then◌else◌,
}
use ios_sdk_develop.Process.{
  ProcessSession, is_session_with_current_process_bundle_identifier,
  is_any_instance_of_session_process_running,
}
use ios_sdk_develop.EventQueue.{remove_event_record}
use ios_sdk_develop.Record.{
  State, pending, ready, processing, completed, failed, SyncRecord, cancelled_error, conditions,
}
use ios_sdk_develop.Engine.{
  Instruction, no_instruction, stop, stop_and_sideline, repeat_last, delete_last, process_next,
  Event, World, set_needs_to_process,
}
use ios_sdk_develop.Engine.Context.{
  context_with, event_handling_context_with, schedule_next_wait_condition_run,
}
use ios_sdk_develop.Engine.Action.{Methods, process_with_context, deschedule_sync_record}
use ios_sdk_develop.Engine.Waits.{process_wait_conditions_of_sync_record}
use ios_sdk_develop.Engine.Pass.{Result}

abbrev has_timed_out : World → Option ℕ → Bool
has_timed_out w none = true
has_timed_out w (some i) = contains i w.timed_out_record_ids

-- Whether the core of the session's process is left to process the record.
left_to_session : World → ProcessSession → World × Bool
left_to_session w s =
    let (running, manager) = is_any_instance_of_session_process_running w.manager s in
    if is_session_with_current_process_bundle_identifier w.manager s then (w, false) else (
      record w { manager = manager },
      running && contains s.bundle_identifier w.active_process_cores,
    )

-- The check of the originating session: `some` is the session whose engine is triggered instead.
unfoldable pub origin_check : World → SyncRecord → World × Option ProcessSession
unfolding left_to_session
origin_check w r = elim r.origin_process_session [
  | none ↦ (w, none)
  | some s ↦
      let (w', left) = left_to_session w s in
      if r.is_process_independent || has_timed_out w r.record_id
      then (w, none)
      else (w', (if left then some s else none))
]

unfoldable first_event : List Event → Option Event
first_event [] = none
first_event (e ∷ es) = some e

abbrev pub events_for : ℕ → List Event → List Event
events_for i = keep (λ e. e.record_id == i)

unfoldable pub next_event : World → ℕ → Option Event
unfolding first_event
next_event w i = if w.read_error then none else first_event (events_for i w.events)

unfoldable pub remove_event : World → Event → World
remove_event w e =
    if w.write_error
    then w
    else record w { events = keep (λ x. not (x.database_id == e.database_id)) w.events }

abbrev later : Instruction → Instruction → Instruction
later before no_instruction = before
later before stop = stop
later before stop_and_sideline = stop_and_sideline
later before repeat_last = repeat_last
later before delete_last = delete_last
later before process_next = process_next

-- The variables of the loop that delivers the events.
pub record EventRun : Type 0 where
  pub world : World
  pub sync_record : SyncRecord
  pub instruction : Instruction

unfoldable pub deliver_event : Methods → EventRun → Event → EventRun
unfolding remove_event
deliver_event m s e =
    let w = record s.world { events_queue = (remove_event_record s.world.events_queue e.uuid).0 } in
    let (w', r, instruction, error) =
      process_with_context m.handle_event no_instruction w
        (event_handling_context_with s.sync_record e) in
    record {
      world = remove_event w' e;
      sync_record = r;
      instruction = later s.instruction instruction;
    }

-- `while ((event = …) != nil)`, with fuel.
unfoldable pub deliver_events : ℕ → Methods → ℕ → EventRun → Option EventRun
unfolding next_event deliver_event
deliver_events zero m i s = none
deliver_events (suc fuel) m i s = elim (next_event s.world i) [
  | none ↦ some s
  | some e ↦ deliver_events fuel m i (deliver_event m s e)
]

result : World → SyncRecord → Instruction → Bool → Result
result w r instruction error = record {
  world = w;
  sync_record = r;
  instruction = instruction;
  error = error;
}

-- A cancelled record.
unfoldable pub cancel_sync_record : Methods → World → SyncRecord → Result
unfolding result
cancel_sync_record m w r =
    let w₁ = record w { next_scheduling_date = none } in
    elim r.action [
      | none ↦
          let (w₂, r', error) = deschedule_sync_record m.deschedule cancelled_error w₁ r in
          result w₂ r' process_next false
      | some a ↦
          let (w₂, r', instruction, error) =
            process_with_context m.cancel process_next w₁
              (record (context_with r) { error = true }) in
          result w₂ r' instruction false
    ]

-- A record that is ready to be scheduled.
schedule_record : Methods → World → SyncRecord → Result
unfolding result
schedule_record m w r = elim r.action [
  | none ↦ result w r process_next true
  | some a ↦
      let (w', r', instruction, error) =
        process_with_context m.schedule no_instruction w (context_with r) in
      result (if leb 1 (length (conditions r')) then set_needs_to_process w' else w') r' instruction
        error
]

-- The `switch` over the state.
unfoldable pub process_state : Methods → State → World → SyncRecord → Result
unfolding schedule_record result
process_state m pending w r = result w r process_next false
process_state m ready w r = schedule_record m w r
process_state m processing w r = result w r stop false
process_state m completed w r = result w r delete_last false
process_state m failed w r = result w r process_next false

-- What follows the delivery of events.
unfoldable pub process_undisturbed : ℕ → Methods → World → SyncRecord → Option Result
unfolding process_state cancel_sync_record result
process_undisturbed fuel m w r =
    if r.progress_cancelled
    then some (cancel_sync_record m w r)
    else elim (process_wait_conditions_of_sync_record fuel m w r) [
      | none ↦ none
      | some s ↦
          if s.can_continue
          then some (process_state m s.sync_record.state s.world s.sync_record)
          else some (
              result (schedule_next_wait_condition_run s.sync_record s.world) s.sync_record
                stop_and_sideline false)
    ]

abbrev is_instruction : Instruction → Bool
is_instruction no_instruction = false
is_instruction _ = true

with_events : ℕ → Methods → World → SyncRecord → Option Result
unfolding process_undisturbed deliver_events result
with_events fuel m w r = elim r.record_id [
  | none ↦ some (result w r process_next false)
  | some i ↦
      elim (deliver_events fuel m i
        (record { world = w; sync_record = r; instruction = no_instruction })) [
          | none ↦ none
          | some s ↦
              if is_instruction s.instruction
              then some (result s.world s.sync_record s.instruction false)
              else process_undisturbed fuel m s.world s.sync_record
        ]
]

-- `fuel` bounds the rounds of both loops. A trigger is kept by the bundle identifier of its process.
unfoldable pub process_sync_record : ℕ → Methods → World → SyncRecord → Option Result
unfolding origin_check with_events result
process_sync_record fuel m w r =
    let (w', left) = origin_check w r in
    elim left [
      | none ↦ with_events fuel m w' r
      | some s ↦ some (
          result (record w' { triggered_remotes = s.bundle_identifier ∷ w'.triggered_remotes }) r
            stop false)
    ]
