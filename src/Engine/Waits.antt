-- ===== src/Engine/Waits.antt =====
-- `-processWaitConditionsOfSyncRecord:error:` of ownCloudSDK/Core/Sync/OCCore+SyncEngine.m.
pub mod Settled
use ios_sdk_develop.Prelude.{
  ℕ, zero, suc, Bool, true, false, Option, none, some, List, [], ◌∷◌, if◌then◌else◌,
}
use ios_sdk_develop.Record.{WaitCondition, SyncRecord, remove_wait_condition, conditions}
use ios_sdk_develop.Engine.{World, update_sync_record}
use ios_sdk_develop.Engine.Context.{context_with}
use ios_sdk_develop.Engine.Action.{WaitState, wait, proceed, fail, Methods, process_with_context}

-- The variables of the loop.
pub record WaitRun : Type 0 where
  pub world : World
  pub sync_record : SyncRecord
  pub can_continue : Bool
  pub repeat_evaluation : Bool
  pub update_sync_record_in_db : Bool

-- The `switch` over the state of a condition, and whether the enumeration stops.
apply_state : Methods → WaitCondition → WaitState → WaitRun → WaitRun × Bool
apply_state m x wait s = (record s { can_continue = false; update_sync_record_in_db = true }, false)
apply_state m x proceed s = (
  record s { sync_record = remove_wait_condition x s.sync_record; update_sync_record_in_db = true },
  false,
)
apply_state m x fail s =
    let (w, r, could_recover, error) =
      process_with_context (m.recover x) false s.world (context_with s.sync_record) in
    (
      record {
        world = w;
        sync_record = r;
        can_continue = false;
        repeat_evaluation = could_recover;
        update_sync_record_in_db = true;
      },
      true,
    )

unfoldable pub evaluate_conditions : Methods → List WaitCondition → WaitRun → WaitRun
unfolding apply_state
evaluate_conditions m [] s = s
evaluate_conditions m (x ∷ xs) s =
    let (s', stops) = apply_state m x (m.evaluate s.world s.sync_record x) s in
    let rest = evaluate_conditions m xs s' in if stops then s' else rest

-- A round of the loop, with the update of the row.
unfoldable pub evaluate_round : Methods → WaitRun → WaitRun
unfolding evaluate_conditions
evaluate_round m s =
    let s' =
      evaluate_conditions m (conditions s.sync_record)
        (record s { can_continue = true; repeat_evaluation = false }) in
    let (w, r, failed) = update_sync_record s'.world s'.sync_record in
    if s'.update_sync_record_in_db then record s' { world = w; sync_record = r } else s'

-- `do … while (repeatEvaluation)`, with fuel.
unfoldable pub evaluate_rounds : ℕ → Methods → WaitRun → Option WaitRun
unfolding evaluate_round
evaluate_rounds zero m s = none
evaluate_rounds (suc fuel) m s =
    let s' = evaluate_round m s in
    let rest = evaluate_rounds fuel m s' in if s'.repeat_evaluation then rest else some s'

abbrev pub wait_start : World → SyncRecord → WaitRun
wait_start w r = record {
  world = w;
  sync_record = r;
  can_continue = true;
  repeat_evaluation = false;
  update_sync_record_in_db = false;
}

rounds_of : ℕ → Methods → List WaitCondition → WaitRun → Option WaitRun
rounds_of fuel m [] s = some s
rounds_of fuel m (x ∷ xs) s = evaluate_rounds fuel m s

-- The answer is `can_continue`.
unfoldable pub process_wait_conditions_of_sync_record :
    ℕ → Methods → World → SyncRecord → Option WaitRun
unfolding rounds_of
process_wait_conditions_of_sync_record fuel m w r = rounds_of fuel m (conditions r) (wait_start w r)
