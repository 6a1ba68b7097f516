-- ===== src/Engine/Pass.antt =====
-- `-processSyncRecords`: one pass of the engine over the lanes and the records on them. What a call of
-- `-processSyncRecord:error:` does is an argument here; `processed` lists the records that it was
-- called with, the latest first.
pub mod Loops
pub mod Budget
pub mod Exclusion
pub mod Limit
pub mod Rows
pub mod Ends
pub mod Occupied
pub mod Spared
pub mod Used
use ios_sdk_develop.Prelude.{
  ℕ, zero, suc, ◌+◌, ◌-◌, ◌≡◌, Bool, true, false, not, ◌&&◌, ◌||◌, Option, none, some, List, [],
  ◌∷◌, ◌++◌, ◌==◌, ltb, leb, length, keep, any, contains, map, if◌then◌else◌,
}
use ios_sdk_develop.Lane.{Lane, LaneTable, remove_sync_lane}
use ios_sdk_develop.Record.{State, ready, SyncRecord, SyncAction}
use ios_sdk_develop.Engine.{
  Instruction, no_instruction, stop, stop_and_sideline, repeat_last, delete_last, process_next,
  World, retrieve_sync_record_after, number_of_sync_records, remove_sync_record,
}

-- What a call of `-processSyncRecord:error:` leaves: the world, the record (an object that the call
-- may have changed), its instruction, and whether it set the error.
pub record Result : Type 0 where
  pub world : World
  pub sync_record : SyncRecord
  pub instruction : Instruction
  pub error : Bool

abbrev pub Process : Type 0
Process = World → SyncRecord → Result

-- `runningActionsByCategory`, and the budgets by category (0 where there is no entry).
abbrev pub Counts : Type 0
Counts = ℕ → ℕ

unfoldable pub start_categories : List ℕ → Counts → Counts
start_categories [] running = running
start_categories (c ∷ cs) running =
    start_categories cs (λ x. if x == c then running x + 1 else running x)

unfoldable pub end_categories : List ℕ → Counts → Counts
end_categories [] running = running
end_categories (c ∷ cs) running =
    end_categories cs (λ x. if x == c then running x - 1 else running x)

unfoldable pub should_run : Counts → Counts → List ℕ → Bool
should_run budgets running [] = true
should_run budgets running (c ∷ cs) =
    not (ltb 0 (budgets c) && leb (budgets c) (running c)) && should_run budgets running cs

-- The variables of the loop over the records of a lane.
pub record LaneRun : Type 0 where
  pub world : World
  pub running : Counts
  pub last_id : Option ℕ
  pub records_on_lane : ℕ
  pub error : Bool
  pub stop_processing : Bool
  pub processed : List SyncRecord

abbrev pub categories : SyncRecord → List ℕ
categories r = elim r.action [ none ↦ [] | some a ↦ a.categories ]

abbrev pub is_ready : State → Bool
is_ready ready = true
is_ready _ = false

-- The deletion of the record that was processed.
delete_record : List ℕ → LaneRun → SyncRecord → LaneRun
unfolding end_categories
delete_record cs s r =
    let (w, r', failed) = remove_sync_record s.world r in
    let err = s.error || failed in
    record s {
      world = w;
      error = err;
      stop_processing = failed;
      records_on_lane = (if err then s.records_on_lane else s.records_on_lane - 1);
      running = end_categories cs s.running;
      last_id = r'.record_id;
    }

-- The `switch` over the instruction.
pub perform : Instruction → List ℕ → LaneRun → SyncRecord → LaneRun
unfolding delete_record
perform no_instruction cs s r = record s { stop_processing = true }
perform stop cs s r = record s { stop_processing = true }
perform stop_and_sideline cs s r = record s {
  stop_processing = true;
  running = end_categories cs s.running;
}
perform repeat_last cs s r = s
perform delete_last cs s r = delete_record cs s r
perform process_next cs s r = record s { last_id = r.record_id }

-- A record that was fetched is processed, and its instruction performed.
run_record : Process → LaneRun → SyncRecord → LaneRun
unfolding perform start_categories
run_record process s r =
    let p = process s.world r in
    let s' = record s {
      world = p.world;
      running = start_categories (categories r) s.running;
      error = s.error || p.error;
      processed = r ∷ s.processed;
    } in
    perform p.instruction (categories r) s' p.sync_record

-- The block that is handed the next record; a failed retrieval hands it none, which it checks first.
handle_record : Counts → Process → LaneRun → Option SyncRecord → LaneRun
unfolding run_record should_run
handle_record budgets process s none = record s { stop_processing = true }
handle_record budgets process s (some r) =
    let counted = record s { records_on_lane = s.records_on_lane + 1 } in
    if is_ready r.state && not (should_run budgets s.running (categories r))
    then record counted { stop_processing = true }
    else run_record process counted r

-- One round of `while (!stopProcessing)`.
unfoldable pub round : Counts → Process → ℕ → LaneRun → LaneRun
unfolding handle_record
round budgets process lane s =
    handle_record budgets process s (retrieve_sync_record_after s.world s.last_id lane).0

-- The loop, with fuel; `none` says that the fuel ran out.
unfoldable pub run_lane : ℕ → Counts → Process → ℕ → LaneRun → Option LaneRun
run_lane zero budgets process lane s = if s.stop_processing then some s else none
run_lane (suc fuel) budgets process lane s =
    let rest = run_lane fuel budgets process lane (round budgets process lane s) in
    if s.stop_processing then some s else rest

-- The variables of the loop over the lanes.
pub record PassRun : Type 0 where
  pub world : World
  pub running : Counts
  pub active_lane_ids : List ℕ
  pub active_lanes : ℕ
  pub processed : List SyncRecord

-- `[activeLaneIDs intersectsSet:lane.afterLanes]`.
abbrev pub intersects : List ℕ → List ℕ → Bool
intersects ids after_lanes = any (λ a. contains a ids) after_lanes

abbrev pub lane_start : PassRun → LaneRun
lane_start p = record {
  world = p.world;
  running = p.running;
  last_id = none;
  records_on_lane = 0;
  error = false;
  stop_processing = false;
  processed = p.processed;
}

-- `laneIsEmpty` after the calls of the handler of the count; nil counts 0.
abbrev pub lane_is_empty : Bool → List (Option ℕ) → Bool
lane_is_empty before [] = before
lane_is_empty before (none ∷ counts) = lane_is_empty true counts
lane_is_empty before (some count ∷ counts) = lane_is_empty (count == 0) counts

-- A lane on which no record was found is removed, if the count says that it is empty.
remove_if_empty : Lane → PassRun → PassRun
remove_if_empty l p =
    if lane_is_empty false (number_of_sync_records p.world l.identifier)
    then record p {
      active_lane_ids = keep (λ i. not (i == l.identifier)) p.active_lane_ids;
      world =
          (if p.world.write_error
            then p.world
            else record p.world { table = remove_sync_lane p.world.table l.identifier });
    }
    else p

-- What follows the loop over the records: the pass, and whether the limit of active lanes was met.
unfoldable pub end_lane : ℕ → Lane → PassRun → LaneRun → PassRun × Bool
unfolding remove_if_empty
end_lane maximum l p s =
    let p' = record p { world = s.world; running = s.running; processed = s.processed } in
    let counted = record p' { active_lanes = p.active_lanes + 1 } in
    let is_active = ltb 0 s.records_on_lane || s.error in
    let now = if is_active then counted else p' in
    if is_active && (ltb maximum now.active_lanes && not (maximum == 0))
    then (now, true)
    else (if s.error
        then (now, false)
        else (if s.records_on_lane == 0 then (remove_if_empty l now, false) else (now, false)))

abbrev pub is_blocked : PassRun → Lane → Bool
is_blocked p l = ltb 0 (length l.after_lanes) && intersects p.active_lane_ids l.after_lanes

-- The loop over the lanes; `fuel` bounds the rounds on each of them.
unfoldable pub run_lanes : ℕ → ℕ → Counts → Process → List Lane → PassRun → Option PassRun
run_lanes fuel maximum budgets process [] p = some p
run_lanes fuel maximum budgets process (l ∷ ls) p =
    let skip = run_lanes fuel maximum budgets process ls p in
    if is_blocked p l
    then skip
    else elim (run_lane fuel budgets process l.identifier (lane_start p)) [
      | none ↦ none
      | some s ↦
          let (p', limit) = end_lane maximum l p s in
          let rest = run_lanes fuel maximum budgets process ls p' in if limit then some p' else rest
    ]

abbrev pub lane_ids : List Lane → List ℕ
lane_ids = map (λ l. l.identifier)

-- The protected block of `-processSyncRecords`. Where the lanes cannot be read there are none. The
-- Boolean says that no lane is active any more, so that the sync status of the items is scrubbed.
unfoldable pub process_lanes : ℕ → ℕ → Counts → Process → World → Option (PassRun × Bool)
process_lanes fuel maximum budgets process w =
    let lanes = if w.read_error then [] else w.table.lanes in
    elim (run_lanes fuel maximum budgets process lanes (record {
      world = w;
      running = λ c. 0;
      active_lane_ids = lane_ids lanes;
      active_lanes = 0;
      processed = [];
    })) [ none ↦ none | some p ↦ some (p, length p.active_lane_ids == 0) ]
