-- ===== src/Http/Pipeline/Schedule.antt =====
-- `_schedule` and `_scheduleTask:` of OCHTTPPipeline.m: the slots, and what is done with the tasks that are
-- taken up.
pub mod Groups
pub mod Beside
pub mod Slots
pub mod Priority
pub mod Cancelled
use ios_sdk_develop.Prelude.{
  ℕ, suc, ◌-◌, Bool, true, false, not, ◌&&◌, ◌||◌, Option, none, some, List, [], ◌∷◌, ◌++◌, ◌==◌,
  leb, ltb, length, take, keep, if◌then◌else◌, Text, codes, text_eq, map,
}
use ios_sdk_develop.Process.{
  ProcessSession, ProcessManager, find_session, is_any_instance_of_session_process_running,
}
use ios_sdk_develop.Cellular.{Device, CellularManager, network_access_available_for}
use ios_sdk_develop.Errors.{
  NsError, request_cancelled, request_url_session_invalidated, request_removed_before_scheduling,
  request_url_session_task_construction_failed, error_with_oc_error,
}
use ios_sdk_develop.Http.Request.{Request, set_value_for_header_field}
use ios_sdk_develop.Http.Names.{user_agent, field_name}
use ios_sdk_develop.Http.Request.Scheduling.{Encoding, prepare_for_scheduling}
use ios_sdk_develop.Http.Pipeline.{
  TaskState, pending, running, completed, Task, PartitionHandler, Pipeline, Block, schedules,
  finishes, delivers, is_running, is_started, is_destroyed, contains_text, find_task,
  update_pipeline_task, remove_pipeline_task, partition_handler_for_partition_id,
  set_pipeline_needs_scheduling, finished_task_later, error_response, number_of_requests_with_state,
  is_in_partition, is_completed,
}
use ios_sdk_develop.Http.Pipeline.Finish.{System, finish_task, current, deliver_tasks}
use ios_sdk_develop.Http.Pipeline.Collect.{Collection, Surroundings, block, collected, is_none}
use ios_sdk_develop.Http.Pipeline.Order.{mark_recent, picked_tasks, reduce}

-- The URL session task that is made for a request that is not simulated.
abbrev pub creates_task : Option PartitionHandler → Request → Bool
creates_task none r = true
creates_task (some h) r = elim h.simulate_request_handling [ none ↦ true | some f ↦ f r ]

abbrev pub fail_later : Surroundings → Task → NsError → Pipeline → Pipeline
fail_later s t e p = finished_task_later t (error_response s.now t.request e) p

abbrev pub fail_if : Surroundings → Task → Option NsError → Pipeline → Pipeline
fail_if s t none p = p
fail_if s t (some e) p = fail_later s t e p

abbrev pub construction_error : Option NsError → NsError
construction_error none = error_with_oc_error request_url_session_task_construction_failed []
construction_error (some e) = e

abbrev pub with_session_task : Option Text → ℕ → Task → Task
with_session_task session n t = record t {
  url_session_task = some n;
  url_session_task_id = some n;
  url_session_id = session;
  state = running;
}

abbrev pub resume_with : Surroundings → Option ℕ × Option NsError → Task → Pipeline → Pipeline
resume_with s (none, e) t p = fail_later s t (construction_error e) (update_pipeline_task t p)
resume_with s (some n, e) t p =
    fail_if s (with_session_task p.url_session_identifier n t) e
      (update_pipeline_task (with_session_task p.url_session_identifier n t) p)

abbrev pub start_task : Surroundings → Option PartitionHandler → Task → Pipeline → Pipeline
start_task s h t p =
    if creates_task h t.request
    then resume_with s (s.new_session_task t.request) t p
    else update_pipeline_task (record t { state = running }) p

abbrev pub prepared_by : Surroundings → Option PartitionHandler → Request → Option Request
prepared_by s none r = some (prepare_for_scheduling s.encoding r)
prepared_by s (some h) r = h.prepare_request_for_scheduling (prepare_for_scheduling s.encoding r)

-- Of no request handlers make none.
abbrev pub prepared : Surroundings → Option PartitionHandler → Task → Option Request
prepared s h t = if t.has_request then prepared_by s h t.request else none

abbrev pub with_user_agent : Option Text → Request → Request
with_user_agent none r = r
with_user_agent (some agent) r = set_value_for_header_field (some agent) (field_name user_agent) r

-- Where the handler gives back no request, the task has none any more, and the update of its row throws an
-- exception, since the data of the request is nil.
abbrev pub start_prepared :
    Surroundings → Option PartitionHandler → Option Request → Task → Pipeline → Pipeline
start_prepared s none none t p =
    fail_later s t (error_with_oc_error request_removed_before_scheduling []) p
start_prepared s (some h) none t p = record p { raised = true }
start_prepared s h (some r) t p =
    start_task s h (record t { request = with_user_agent s.user_agent r }) p

-- `_scheduleTask:`, with the failure of a task queued.
unfoldable pub schedule_task : Surroundings → Task → Pipeline → Pipeline
schedule_task s t p =
    let h = partition_handler_for_partition_id t.partition_id p in
    if p.raised
    then p
    else if is_none t.partition_id
    then remove_pipeline_task t p
    else if t.request.cancelled
    then fail_later s t (error_with_oc_error request_cancelled []) p
    else if p.url_session_invalidated
    then fail_later s t (error_with_oc_error request_url_session_invalidated []) p
    else start_prepared s h (prepared s h t) t p

abbrev pub schedule_tasks : Surroundings → List Task → Pipeline → Pipeline
schedule_tasks s [] p = p
schedule_tasks s (t ∷ ts) p = schedule_tasks s ts (schedule_task s t p)

-- The slots that are left, nil for any number; none where the maximum is reached.
abbrev pub remaining_slots : ℕ → ℕ → Option ℕ
remaining_slots maximum busy = if maximum == 0 then none else some (maximum - busy)

abbrev pub is_full : ℕ → ℕ → Bool
is_full maximum busy = ltb 0 maximum && leb maximum busy

abbrev pub start_picked : Surroundings → List Task → Pipeline → Pipeline
start_picked s ts p =
    schedule_tasks s ts
      (record p { recently_scheduled_group_ids = mark_recent ts p.recently_scheduled_group_ids })

abbrev pub schedule_collected : Surroundings → Option ℕ → Collection → ProcessManager × Pipeline
schedule_collected s slots c =
    let picked =
      reduce slots (picked_tasks c.pipeline.recently_scheduled_group_ids c.schedulable) in
    (c.processes, start_picked s picked c.pipeline)

-- `_schedule`.
unfoldable pub schedule : Surroundings → ProcessManager → Pipeline → ProcessManager × Pipeline
unfolding schedule_task collected picked_tasks number_of_requests_with_state
schedule s m p =
    let busy = number_of_requests_with_state is_running p in
    let p' : Pipeline = record p { needs_scheduling = false } in
    if is_started p.state
    then (if is_full p.maximum_concurrent_requests busy
        then (m, p')
        else schedule_collected s (remaining_slots p.maximum_concurrent_requests busy)
            (collected s m p'))
    else (m, p)

-- A block of the queue runs.
unfoldable pub run_block :
    Surroundings → ProcessManager → Block → Pipeline → ProcessManager × Pipeline
unfolding schedule finish_task set_pipeline_needs_scheduling
run_block s m schedules p = schedule s m p
run_block s m (finishes t r) p = (
  m,
  set_pipeline_needs_scheduling
      (finish_task s.system (current (find_task t.task_id p.tasks) t) r p),
)
run_block s m (delivers id) p = (
  m,
  deliver_tasks s.system
      (keep (λ t. is_in_partition id t.partition_id && is_completed t.state) p.tasks) p,
)

-- The first block of the queue, unless an exception was thrown.
unfoldable pub run_next : Surroundings → ProcessManager → Pipeline → ProcessManager × Pipeline
unfolding run_block
run_next s m p =
    if p.raised
    then (m, p)
    else elim p.queued [ [] ↦ (m, p) | b ∷ bs ↦ run_block s m b (record p { queued = bs }) ]
