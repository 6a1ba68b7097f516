-- ===== src/Examples/Steps.antt =====
-- The processing of one record of the journal.
use ios_sdk_develop.Prelude.{
  ℕ, ◌≡◌, refl, false, not, none, some, [], ◌∷◌, ◌==◌, arith, any, keep, if◌then◌else◌,
}
use ios_sdk_develop.Process.{
  is_session_valid, is_session_with_current_process_bundle_identifier,
  is_any_instance_of_session_process_running, find_latest_session_for_process_of,
}
use ios_sdk_develop.Record.{WaitCondition, SyncRecord, cancelled_error, conditions}
use ios_sdk_develop.Engine.{stop, process_next, no_instruction, without_row}
use ios_sdk_develop.Engine.Action.{
  WaitState, wait, proceed, Methods, schedule_with_context, cancel_with_context,
  handle_result_with_context,
}
use ios_sdk_develop.Engine.Waits.{WaitRun, process_wait_conditions_of_sync_record}
use ios_sdk_develop.Engine.Waits.Settled.{waits, process_wait_conditions_settles}
use ios_sdk_develop.Engine.Pass.{Result}
use ios_sdk_develop.Engine.Step.{
  EventRun, events_for, deliver_events, origin_check, cancel_sync_record, process_sync_record,
}
use ios_sdk_develop.Engine.Step.Events.{deliver_events_delivers}
use ios_sdk_develop.Engine.Step.Origin.{process_sync_record-leaves}
use ios_sdk_develop.Engine.Step.Cancel.{cancel_sync_record_removes}
use ios_sdk_develop.Examples.{extension_session, action, ready_record, world}

-- A condition with an even address waits.
abbrev answer : WaitCondition → WaitState
answer c = if c.address == 2 then wait else proceed

abbrev methods : Methods
methods = record {
  evaluate = λ w r c. answer c;
  recover = λ x w c. (w, c, false);
  handle_event = handle_result_with_context;
  schedule = schedule_with_context;
  cancel = cancel_with_context none;
  deschedule = none;
}

abbrev condition : ℕ → WaitCondition
condition n = record { address = n; uuid = n; next_retry_date = some 150 }

abbrev held_record : SyncRecord
held_record = record ready_record { wait_conditions = some (condition 1 ∷ condition 2 ∷ []) }

abbrev start : EventRun
start = record { world = world; sync_record = ready_record; instruction = no_instruction }

deliver_events_delivers_example :
    (s : EventRun) × (deliver_events 2 methods 5 start ≡ some s)
    × (events_for 5 s.world.events ≡ [])
unfolding handle_result_with_context
deliver_events_delivers_example =
    deliver_events_delivers 2 methods 5 start (λ w c. (refl, refl, refl, refl)) refl refl
      (ground arith)

process_wait_conditions_settles_example :
    (s : WaitRun) × (process_wait_conditions_of_sync_record 1 methods world held_record ≡ some s)
    × (conditions s.sync_record ≡ keep (λ x. waits (answer x)) (conditions held_record))
    × (s.can_continue ≡ not (any (λ x. waits (answer x)) (conditions held_record)))
process_wait_conditions_settles_example =
    process_wait_conditions_settles 0 methods answer world held_record (λ w r x. refl)
      ((refl, tt), (tt, tt)) (tt, (tt, tt))

process_sync_record-leaves_example :
    (done : Result) × (process_sync_record 3 methods world ready_record ≡ some done)
    × (done.world.triggered_remotes ≡ 20 ∷ [])
    × (done.sync_record ≡ ready_record)
    × (done.instruction ≡ stop)
    × (done.error ≡ false)
    × (done.world.journal ≡ world.journal)
    × (done.world.events ≡ world.events)
unfolding origin_check is_session_valid is_any_instance_of_session_process_running
    find_latest_session_for_process_of is_session_with_current_process_bundle_identifier
process_sync_record-leaves_example =
    process_sync_record-leaves 3 methods world ready_record extension_session 5 refl refl refl refl
      refl refl refl

cancel_sync_record_removes_example :
    let done = cancel_sync_record methods world ready_record in
    (done.world.journal ≡ without_row 5 world.journal)
    × (done.sync_record ≡ record ready_record {
      record_id = none;
      has_result_handler = false;
      calls = cancelled_error ∷ [];
    })
    × (done.world.errors_sent ≡ 0)
    × (done.instruction ≡ process_next)
cancel_sync_record_removes_example = cancel_sync_record_removes methods world ready_record action 5
