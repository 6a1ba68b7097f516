-- ===== src/Engine/Action.antt =====
-- What the sync engine asks of an action and of its wait conditions: an interface of methods, each
-- with the world and the context that it changes, and what ownCloudSDK/Core/Sync/Actions/OCSyncAction.m
-- gives for them. `-processWithContext:block:` and `-_descheduleSyncRecord:completeWithError:` of
-- ownCloudSDK/Core/Sync/OCCore+SyncEngine.m call them.
use ios_sdk_develop.Prelude.{
  Bool, true, false, ◌||◌, Option, none, some, List, [], ◌∷◌, if◌then◌else◌,
}
use ios_sdk_develop.Record.{
  processing, WaitCondition, SyncRecord, Outcome, success, cancelled_error, complete_with_error,
  conditions, wait_condition_for_uuid,
}
use ios_sdk_develop.Engine.{
  Instruction, no_instruction, stop, delete_last, process_next, World, remove_sync_record,
  set_needs_to_process,
}
use ios_sdk_develop.Engine.Context.{
  SyncContext, context_with, context_transition_to_state, perform_sync_context_actions,
  handle_sync_record,
}

pub data WaitState : Type 0 where
  wait proceed fail : WaitState

abbrev pub Method : Type 0 → Type 0
Method A = World → SyncContext → World × SyncContext × A

-- `deschedule` is `none` for an action that does not implement the method.
pub record Methods : Type 0 where
  pub evaluate : World → SyncRecord → WaitCondition → WaitState
  pub recover : WaitCondition → Method Bool
  pub handle_event : Method Instruction
  pub schedule : Method Instruction
  pub cancel : Method Instruction
  pub deschedule : Option (World → SyncContext → World × SyncContext)

-- The block is run for a record with an action, the error of the context reported, and the actions of
-- the context performed. The error is that of the context, or that there is no action.
unfoldable pub process_with_context :
    {A : Type 0} → Method A → A → World → SyncContext → World × SyncRecord × A × Bool
unfolding handle_sync_record
process_with_context block otherwise w c = elim c.sync_record.action [
  | none ↦ (w, c.sync_record, otherwise, true)
  | some a ↦
      let (w₁, c₁, answer) = block w c in
      let (w₂, r) = perform_sync_context_actions c₁ (handle_sync_record c₁.error w₁) in
      (w₂, r, answer, c₁.error)
]

-- The descheduler of the action, if it has one; its context does not update the row.
unfoldable run_descheduler :
    Option (World → SyncContext → World × SyncContext)
    → World
    → SyncRecord
    → World × SyncRecord × Bool
run_descheduler none w r = (w, r, false)
run_descheduler (some deschedule) w r = elim r.action [
  | none ↦ (w, r, false)
  | some a ↦
      let (w₁, c) = deschedule w (context_with r) in
      let (w₂, r') =
        perform_sync_context_actions (record c { update_stored_sync_record = false }) w₁ in
      (w₂, r', c.error)
]

unfoldable pub deschedule_sync_record :
    Option (World → SyncContext → World × SyncContext)
    → Outcome
    → World
    → SyncRecord
    → World × SyncRecord × Bool
unfolding run_descheduler
deschedule_sync_record deschedule outcome w r =
    let (w₁, r₁, failed) = run_descheduler deschedule w r in
    let (w₂, r₂, remove_failed) = remove_sync_record w₁ r₁ in
    (set_needs_to_process w₂, complete_with_error outcome r₂, failed || remove_failed)

-- The methods of the class that all actions extend.
unfoldable pub schedule_with_context : Method Instruction
schedule_with_context w c = (w, context_transition_to_state w.now processing none c, stop)

unfoldable pub cancel_with_context :
    Option (World → SyncContext → World × SyncContext) → Method Instruction
unfolding deschedule_sync_record
cancel_with_context deschedule w c =
    let outcome = if c.error then cancelled_error else success in
    let (w', r, failed) = deschedule_sync_record deschedule outcome w c.sync_record in
    (w', record c { sync_record = r; error = false }, process_next)

unfoldable pub handle_result_with_context : Method Instruction
handle_result_with_context w c = (w, c, delete_last)

-- The wait conditions are asked, in turn, to handle the event until one does.
offer_event : (WaitCondition → Method Bool) → List WaitCondition → Method Bool
offer_event handle [] w c = (w, c, false)
offer_event handle (x ∷ xs) w c =
    let (w', c', handled) = handle x w c in
    let rest = offer_event handle xs w' c' in if handled then (w', c', true) else rest

-- The event of the context, whose handling by a wait condition and by the action's method for results
-- is given.
unfoldable pub handle_event_with_context :
    (WaitCondition → Method Bool) → Method Instruction → Method Instruction
unfolding offer_event
handle_event_with_context handle handle_result w c = elim c.event [
  | none ↦ (w, c, no_instruction)
  | some e ↦ elim e.wait_condition_uuid [
    | none ↦
        let (w', c', handled) = offer_event handle (conditions c.sync_record) w c in
        if handled || e.is_wakeup then (w', c', no_instruction) else handle_result w' c'
    | some u ↦ elim (wait_condition_for_uuid u c.sync_record) [
      | none ↦ (w, c, no_instruction)
      | some x ↦ let (w', c', handled) = handle x w c in (w', c', no_instruction)
    ]
  ]
]
