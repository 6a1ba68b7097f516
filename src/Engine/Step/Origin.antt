-- ===== src/Engine/Step/Origin.antt =====
-- The check of the session that a sync record originates from.
use ios_sdk_develop.Prelude.{ℕ, ◌≡◌, refl, ap, ◌↔◌, true, false, some, ◌∷◌, arith, contains}
use ios_sdk_develop.Process.{
  ProcessSession, is_session_with_current_process_bundle_identifier,
  is_any_instance_of_session_process_running,
}
use ios_sdk_develop.Record.{SyncRecord}
use ios_sdk_develop.Engine.{World, stop}
use ios_sdk_develop.Engine.Action.{Methods}
use ios_sdk_develop.Engine.Pass.{Result}
use ios_sdk_develop.Engine.Step.{left_to_session, origin_check, process_sync_record}

-- The check leaves a record to another process exactly when the record depends on its session, has an
-- ID that has not timed out, the session is of another process, which runs, and that process has a
-- core for the bookmark; the session that is triggered is the record's.
pub origin_check-leaves :
    (w : World) (r : SyncRecord) (s : ProcessSession)
    → ((origin_check w (record r { origin_process_session = some s })).1 ≡ some s) ↔ (
        (r.is_process_independent ≡ false)
        × ((i : ℕ) × (r.record_id ≡ some i) × (contains i w.timed_out_record_ids ≡ false))
        × (is_session_with_current_process_bundle_identifier w.manager s ≡ false)
        × ((is_any_instance_of_session_process_running w.manager s).0 ≡ true)
        × (contains s.bundle_identifier w.active_process_cores ≡ true))
unfolding origin_check left_to_session
origin_check-leaves w r s = ground arith

left_by_check :
    (w : World) (r : SyncRecord) (s : ProcessSession) (i : ℕ)
    → r.origin_process_session ≡ some s
    → r.is_process_independent ≡ false
    → r.record_id ≡ some i
    → contains i w.timed_out_record_ids ≡ false
    → is_session_with_current_process_bundle_identifier w.manager s ≡ false
    → (is_any_instance_of_session_process_running w.manager s).0 ≡ true
    → contains s.bundle_identifier w.active_process_cores ≡ true
    → (origin_check w r).1 ≡ some s
unfolding origin_check left_to_session
left_by_check w r s i origin dependent id timely other running core = ground arith

-- What the check leaves as it was.
origin_check-journal :
    (w : World) (r : SyncRecord)
    → ((origin_check w r).0.journal ≡ w.journal)
      × ((origin_check w r).0.events ≡ w.events)
      × ((origin_check w r).0.triggered_remotes ≡ w.triggered_remotes)
unfolding origin_check left_to_session
origin_check-journal w r = (ground arith, ground arith, ground arith)

triggers :
    (fuel : ℕ) (m : Methods) (w : World) (r : SyncRecord) (s : ProcessSession)
    → (origin_check w r).1 ≡ some s
    → process_sync_record fuel m w r
      ≡ some (record {
        world = record (origin_check w r).0 {
          triggered_remotes = s.bundle_identifier ∷ (origin_check w r).0.triggered_remotes;
        };
        sync_record = r;
        instruction = stop;
        error = false;
      })
unfolding process_sync_record origin_check left_to_session
triggers fuel m w r s left = ground arith

-- A record with an ID that has not timed out, which depends on its session, is left to the process of this
-- session, where that is another process, runs and has a core for the bookmark: the process is triggered,
-- once more and no other one, the engine stops at the record without an error, and the record, the journal
-- and the events are as they were.
pub process_sync_record-leaves :
    (fuel : ℕ) (m : Methods) (w : World) (r : SyncRecord) (s : ProcessSession) (i : ℕ)
    → r.origin_process_session ≡ some s
    → r.is_process_independent ≡ false
    → r.record_id ≡ some i
    → contains i w.timed_out_record_ids ≡ false
    → is_session_with_current_process_bundle_identifier w.manager s ≡ false
    → (is_any_instance_of_session_process_running w.manager s).0 ≡ true
    → contains s.bundle_identifier w.active_process_cores ≡ true
    → (done : Result) × (process_sync_record fuel m w r ≡ some done)
      × (done.world.triggered_remotes ≡ s.bundle_identifier ∷ w.triggered_remotes)
      × (done.sync_record ≡ r)
      × (done.instruction ≡ stop)
      × (done.error ≡ false)
      × (done.world.journal ≡ w.journal)
      × (done.world.events ≡ w.events)
process_sync_record-leaves fuel m w r s i origin dependent id timely other running core =
    let (journal, events, triggered) = origin_check-journal w r in
    let left = left_by_check w r s i origin dependent id timely other running core in
    (
      _,
      triggers fuel m w r s left,
      ap (λ l. s.bundle_identifier ∷ l) triggered,
      refl,
      refl,
      refl,
      journal,
      events,
    )
