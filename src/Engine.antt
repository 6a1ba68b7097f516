-- ===== src/Engine.antt =====
-- The sync engine: ownCloudSDK/Core/Sync/OCCore+SyncEngine.m over the sync journal of
-- ownCloudSDK/Vaults/Database/OCDatabase.m. The world is what the engine reads and writes: the rows
-- of the journal by rising record ID, the lanes, the events that wait in the database and in the
-- key-value store, and the fields of the core. A query of the journal fails where `read_error` or
-- `write_error` says so.
pub mod Context
pub mod Action
pub mod Waits
pub mod Step
pub mod Incoming
pub mod Pass
use ios_sdk_develop.Prelude.{
  ℕ, suc, ◌+◌, Bool, true, false, not, ◌&&◌, Option, none, some, List, [], ◌∷◌, ◌++◌, ◌==◌, ltb,
  length, keep, opt_is, if◌then◌else◌,
}
use ios_sdk_develop.Process.{ProcessManager}
use ios_sdk_develop.EventQueue.{EventQueue}
use ios_sdk_develop.Lane.{LaneTable}
use ios_sdk_develop.Record.{SyncRecord}

pub data Instruction : Type 0 where
  no_instruction stop stop_and_sideline repeat_last delete_last process_next : Instruction

-- An event in the database, for the sync record with the given ID.
pub record Event : Type 0 where
  pub database_id : ℕ
  pub uuid : ℕ
  pub record_id : ℕ
  pub is_wakeup : Bool
  pub wait_condition_uuid : Option ℕ

pub record World : Type 0 where
  pub journal : List SyncRecord
  pub next_record_id : ℕ
  pub read_error : Bool
  pub write_error : Bool
  pub table : LaneTable
  pub events : List Event
  pub next_event_id : ℕ
  pub events_queue : EventQueue
  pub manager : ProcessManager
  pub active_process_cores : List ℕ
  pub timed_out_record_ids : List ℕ
  pub triggered_remotes : List ℕ
  pub needs_to_process : Bool
  pub next_scheduling_date : Option ℕ
  pub timers : List ℕ
  pub errors_sent : ℕ
  pub now : ℕ

abbrev pub set_needs_to_process : World → World
set_needs_to_process w = record w { needs_to_process = true }

abbrev pub id_after : Option ℕ → Option ℕ → Bool
id_after none i = true
id_after (some a) none = false
id_after (some a) (some i) = ltb a i

-- The row that `retrieveSyncRecordAfterID:onLaneID:` asks for.
abbrev pub is_after : Option ℕ → ℕ → SyncRecord → Bool
is_after last lane r = opt_is r.lane_id lane && id_after last r.record_id

unfoldable pub first_row : (SyncRecord → Bool) → List SyncRecord → Option SyncRecord
first_row p [] = none
first_row p (r ∷ rs) = if p r then some r else first_row p rs

-- The next record on a lane, and whether there was an error.
unfoldable pub retrieve_sync_record_after : World → Option ℕ → ℕ → Option SyncRecord × Bool
unfolding first_row
retrieve_sync_record_after w last lane =
    if w.read_error then (none, true) else (first_row (is_after last lane) w.journal, false)

-- What the handler of `numberOfSyncRecordsOnSyncLaneID:completionHandler:` is called with, in order. The
-- handler for a row steps the statement past its end, so that the iteration steps it once more; SQLite then
-- resets the statement and gives the row again, for which the result set has no dictionary any more: the
-- second number is nil. Without a result there is no call.
unfoldable pub number_of_sync_records : World → ℕ → List (Option ℕ)
number_of_sync_records w lane =
    if w.read_error
    then []
    else some (length (keep (λ r. opt_is r.lane_id lane) w.journal)) ∷ (none ∷ [])

abbrev pub without_row : ℕ → List SyncRecord → List SyncRecord
without_row i = keep (λ r. not (opt_is r.record_id i))

-- `removeSyncRecords:` for one record: the world, the record (its ID is taken away, also where the
-- row cannot be), and whether there was an error. A record without an ID is only reported.
unfoldable pub remove_sync_record : World → SyncRecord → World × SyncRecord × Bool
remove_sync_record w r = elim r.record_id [
  | none ↦ (w, r, false)
  | some i ↦
      if w.write_error
      then (w, record r { record_id = none }, true)
      else (record w { journal = without_row i w.journal }, record r { record_id = none }, false)
]

replace_row : ℕ → SyncRecord → List SyncRecord → List SyncRecord
replace_row i r [] = []
replace_row i r (x ∷ xs) =
    let rest = replace_row i r xs in if opt_is x.record_id i then r ∷ xs else x ∷ rest

-- `updateSyncRecords:` for one record: its revision is raised, and the row replaced.
unfoldable pub update_sync_record : World → SyncRecord → World × SyncRecord × Bool
unfolding replace_row
update_sync_record w r = elim r.record_id [
  | none ↦ (w, r, false)
  | some i ↦
      let r' = record r { revision = r.revision + 1 } in
      if w.write_error
      then (w, r', true)
      else (record w { journal = replace_row i r' w.journal }, r', false)
]

-- `addSyncRecords:` for one record: the row is inserted under the next ID.
unfoldable pub add_sync_record : World → SyncRecord → World × SyncRecord × Bool
add_sync_record w r =
    let r' = record r { record_id = some w.next_record_id } in
    if w.write_error then (w, r, true) else (
      record w { journal = w.journal ++ (r' ∷ []); next_record_id = suc w.next_record_id },
      r',
      false,
    )
