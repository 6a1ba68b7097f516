-- ===== src/Engine/Incoming.antt =====
-- How an event comes to a sync record: `-queueSyncEvent:sender:` puts it into the queue in the
-- key-value store, and `-processSyncRecords` (ownCloudSDK/Core/Sync/OCCore+SyncEngine.m) transfers the
-- queue to the database (ownCloudSDK/Vaults/Database/OCDatabase.m) before it begins.
pub mod Once
pub mod Taken
use ios_sdk_develop.Prelude.{ℕ, suc, Bool, false, List, [], ◌∷◌, ◌++◌, ◌==◌, any, if◌then◌else◌}
use ios_sdk_develop.EventQueue.{EventRecord, add_event_record}
use ios_sdk_develop.Engine.{Event, World, set_needs_to_process}

-- An event with a sync record ID is queued, unless it is a duplicate.
unfoldable pub queue_sync_event : World → EventRecord → World
queue_sync_event w r =
    set_needs_to_process (record w { events_queue = (add_event_record w.events_queue r).0 })

-- A failed query finds no event.
unfoldable pub queue_contains_event : World → ℕ → Bool
queue_contains_event w u = if w.read_error then false else any (λ e. e.uuid == u) w.events

abbrev pub event_of : ℕ → EventRecord → Event
event_of i r = record {
  database_id = i;
  uuid = r.event_uuid;
  record_id = r.sync_record_id;
  is_wakeup = r.is_wakeup;
  wait_condition_uuid = r.wait_condition_uuid;
}

-- The event is inserted under the next ID.
unfoldable pub queue_event : World → EventRecord → World
queue_event w r = if w.write_error then w else record w {
  events = w.events ++ (event_of w.next_event_id r ∷ []);
  next_event_id = suc w.next_event_id;
}

unfoldable pub transfer_record : World → EventRecord → World
unfolding queue_contains_event queue_event
transfer_record w r = if queue_contains_event w r.event_uuid then w else queue_event w r

unfoldable pub transfer_records : List EventRecord → World → World
transfer_records [] w = w
transfer_records (r ∷ rs) w = transfer_records rs (transfer_record w r)

unfoldable pub transfer_incoming_events : World → World
transfer_incoming_events w = transfer_records w.events_queue.records w
