-- ===== src/Engine/Incoming/Taken.antt =====
-- An event that was delivered does not come back.
use ios_sdk_develop.Prelude.{◌≡◌, refl, sym, ap, ◌∙◌, false, none, some, [], arith, ==_refl}
use ios_sdk_develop.EventQueue.{
  EventRecord, EventQueue, find_uuid, add_event_record, remove_event_record,
}
use ios_sdk_develop.EventQueue.Duplicates.{Inv, remove_event_record_lem}
use ios_sdk_develop.EventQueue.Window.{run, step, add_event_record-taken}
use ios_sdk_develop.Engine.{Event}
use ios_sdk_develop.Engine.Action.{Methods}
use ios_sdk_develop.Engine.Incoming.{queue_sync_event, transfer_incoming_events}
use ios_sdk_develop.Engine.Incoming.Once.{
  copies, has_uuid, has_uuid-copies, transfer_incoming_events_once,
}
use ios_sdk_develop.Engine.Step.{EventRun, deliver_event}
use ios_sdk_develop.Engine.Step.Events.{Leaves, without, deliver_event-events}

-- A queue that has just given an event refuses it, and does not hold it.
refused :
    (q : EventQueue) (r again : EventRecord)
    → Inv q
    → find_uuid again.event_uuid q.records ≡ some r
    → let q' = (remove_event_record q again.event_uuid).0 in
      ((add_event_record q' again).0 ≡ q') × (find_uuid again.event_uuid q'.records ≡ none)
unfolding run step
refused q r again v queued =
    let u = again.event_uuid in
    (
      ap (λ x. x.0) (add_event_record-taken q r again [] queued (omega arith)),
      (remove_event_record_lem q u u v).1 ∙ rw (==_refl u) refl,
    )

-- Where the database works, the handling method leaves the events alone, and the event that is
-- delivered is the only one with its UUID and still in a well-formed queue: if the same event is
-- queued once more after its delivery, the next transfer does not bring it back to the database.
pub deliver_event_not_again :
    (m : Methods) (s : EventRun) (e : Event) (r again : EventRecord)
    → Leaves m.handle_event
    → s.world.read_error ≡ false
    → s.world.write_error ≡ false
    → Inv s.world.events_queue
    → again.event_uuid ≡ e.uuid
    → find_uuid again.event_uuid s.world.events_queue.records ≡ some r
    → copies again.event_uuid (without e s.world.events) ≡ 0
    → copies again.event_uuid
        (transfer_incoming_events (queue_sync_event (deliver_event m s e).world again)).events
      ≡ 0
unfolding queue_sync_event
deliver_event_not_again m s e r again leaves reads writes v same queued only =
    let u = again.event_uuid in
    let w = (deliver_event m s e).world in
    let (events, reads', writes', queue) = deliver_event-events m s e leaves writes in
    let (kept, gone) = refused s.world.events_queue r again v queued in
    let queue' : w.events_queue ≡ (remove_event_record s.world.events_queue u).0 =
      queue ∙ ap (λ x. (remove_event_record s.world.events_queue x).0) (sym same) in
    let refuses : (add_event_record w.events_queue again).0
        ≡ (remove_event_record s.world.events_queue u).0 =
      ap (λ q. (add_event_record q again).0) queue' ∙ kept in
    let none_queued : find_uuid u (queue_sync_event w again).events_queue.records ≡ none =
      ap (λ q. find_uuid u q.records) refuses ∙ gone in
    let none_there : copies u w.events ≡ 0 = ap (copies u) events ∙ only in
    let absent : has_uuid u w.events ≡ false = has_uuid-copies u w.events ∙ rw none_there refl in
    transfer_incoming_events_once u (queue_sync_event w again) (reads' ∙ reads) writes'
    ∙ rw (absent, none_queued) refl
