-- ===== src/Examples/Incoming.antt =====
-- An event on its way to a sync record, and the dates on which a record is tried again.
use ios_sdk_develop.Prelude.{ℕ, ◌≡◌, refl, false, none, some, [], ◌∷◌, arith, if◌then◌else◌}
use ios_sdk_develop.EventQueue.{EventRecord, find_uuid, is_some}
use ios_sdk_develop.EventQueue.Duplicates.{Inv}
use ios_sdk_develop.Record.{SyncRecord}
use ios_sdk_develop.Engine.{World, stop, no_instruction}
use ios_sdk_develop.Engine.Action.{proceed, Methods}
use ios_sdk_develop.Engine.Incoming.{queue_sync_event, transfer_incoming_events}
use ios_sdk_develop.Engine.Incoming.Once.{copies, has_uuid, transfer_incoming_events_once}
use ios_sdk_develop.Engine.Incoming.Taken.{deliver_event_not_again}
use ios_sdk_develop.Engine.Step.{EventRun, deliver_event}
use ios_sdk_develop.Engine.Step.Events.{without}
use ios_sdk_develop.Examples.{upload_done, ready_record, world}

abbrev event_record : ℕ → EventRecord
event_record address = record {
  address = address;
  event_uuid = 30;
  sync_record_id = 5;
  is_wakeup = false;
  wait_condition_uuid = none;
}

-- The event is in the database, and still in the queue.
abbrev queued_world : World
queued_world = record world {
  events_queue = record { records = event_record 50 ∷ []; used_uuids = [] };
}

queued_world-Inv : Inv queued_world.events_queue
queued_world-Inv = record { unique = (tt, tt, tt); bounded = ground arith }

abbrev methods : Methods
methods = record {
  evaluate = λ w r c. proceed;
  recover = λ x w c. (w, c, false);
  handle_event = λ w c. (w, c, stop);
  schedule = λ w c. (w, c, stop);
  cancel = λ w c. (w, c, stop);
  deschedule = none;
}

abbrev start : EventRun
start = record { world = queued_world; sync_record = ready_record; instruction = no_instruction }

deliver_event_not_again_example :
    copies 30
      (transfer_incoming_events
        (queue_sync_event (deliver_event methods start upload_done).world (event_record 51))).events
    ≡ 0
unfolding find_uuid without
deliver_event_not_again_example =
    deliver_event_not_again methods start upload_done (event_record 50) (event_record 51)
      (λ w c. (refl, refl, refl, refl)) refl refl queued_world-Inv refl refl refl

transfer_incoming_events_once_example : copies 30 (transfer_incoming_events queued_world).events ≡ (
    if has_uuid 30 queued_world.events
    then copies 30 queued_world.events
    else (if is_some (find_uuid 30 queued_world.events_queue.records) then 1 else 0))
transfer_incoming_events_once_example = transfer_incoming_events_once 30 queued_world refl refl

abbrev waiting_record : SyncRecord
waiting_record = record ready_record {
  wait_conditions = some (
      record { address = 1; uuid = 1; next_retry_date = some 150 }
      ∷ record { address = 2; uuid = 2; next_retry_date = some 120 }
      ∷ []);
}
