-- ===== src/Engine/Step/Cancel.antt =====
-- The cancellation of a sync record.
use ios_sdk_develop.Prelude.{ℕ, ◌≡◌, refl, true, false, none, some, ◌∷◌}
use ios_sdk_develop.Record.{SyncRecord, SyncAction, cancelled_error, complete_with_error}
use ios_sdk_develop.Engine.{World, process_next, without_row, remove_sync_record}
use ios_sdk_develop.Engine.Context.{context_with, handle_sync_record}
use ios_sdk_develop.Engine.Context.Kept.{perform_sync_context_actions-idle}
use ios_sdk_develop.Engine.Action.{
  Methods, process_with_context, cancel_with_context, deschedule_sync_record,
}
use ios_sdk_develop.Engine.Step.{cancel_sync_record}

-- A record with an ID, a result handler and an action that has the method of the base class and no
-- descheduler is cancelled, where the journal can be written: its row is removed and no other, its
-- handler is called once, with the error for a cancellation, the record loses its ID, the delegate of
-- the core is sent no error, and the engine goes on with the next record.
pub cancel_sync_record_removes :
    (m : Methods) (w : World) (r : SyncRecord) (a : SyncAction) (i : ℕ)
    → let w' = record w { write_error = false } in
      let r' = record r { record_id = some i; action = some a; has_result_handler = true } in
      let done =
        cancel_sync_record
          (record m { cancel = cancel_with_context none; deschedule = none })
          w'
          r' in
      (done.world.journal ≡ without_row i w.journal)
      × (done.sync_record ≡ record r {
        record_id = none;
        action = some a;
        has_result_handler = false;
        calls = cancelled_error ∷ r.calls;
      })
      × (done.world.errors_sent ≡ w.errors_sent)
      × (done.instruction ≡ process_next)
unfolding context_with cancel_sync_record process_with_context cancel_with_context
    deschedule_sync_record handle_sync_record remove_sync_record complete_with_error
cancel_sync_record_removes m w r a i =
    let r' = record r {
      record_id = none;
      action = some a;
      has_result_handler = false;
      calls = cancelled_error ∷ r.calls;
    } in
    let w' = record w {
      write_error = false;
      next_scheduling_date = none;
      needs_to_process = true;
      journal = without_row i w.journal;
    } in
    let (journal, errors, same) =
      perform_sync_context_actions-idle (context_with r') w' refl refl in
    (journal, same, errors, refl)
