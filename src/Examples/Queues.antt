-- ===== src/Examples/Queues.antt =====
-- Queued events, values of a key-value stack, and process sessions.
use ios_sdk_develop.Prelude.{◌≡◌, refl, false, none, [], ◌∷◌, arith}
use ios_sdk_develop.EventQueue.{EventRecord, EventQueue, find_uuid, add_event_record}
use ios_sdk_develop.EventQueue.Duplicates.{Inv}
use ios_sdk_develop.EventQueue.Window.{add, remove, run, add_event_record-taken}

abbrev first_event : EventRecord
first_event = record {
  address = 100;
  event_uuid = 1;
  sync_record_id = 5;
  is_wakeup = false;
  wait_condition_uuid = none;
}

abbrev second_event : EventRecord
second_event = record {
  address = 101;
  event_uuid = 2;
  sync_record_id = 5;
  is_wakeup = false;
  wait_condition_uuid = none;
}

abbrev queue : EventQueue
queue = record { records = first_event ∷ []; used_uuids = 9 ∷ [] }

queue-Inv : Inv queue
queue-Inv = record { unique = (tt, tt, tt); bounded = ground arith }

add_event_record-taken_example :
    let q = run queue (remove 1 ∷ add second_event ∷ remove 2 ∷ []) in
    add_event_record q first_event ≡ (q, false)
unfolding find_uuid
add_event_record-taken_example =
    add_event_record-taken queue first_event first_event (add second_event ∷ remove 2 ∷ []) refl
      (ground arith)
