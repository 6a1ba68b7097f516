-- ===== src/Http/Pipeline.antt =====
-- ownCloudSDK/HTTP/Pipeline/OCHTTPPipeline.h and .m, OCHTTPPipelineTask.h and .m, OCHTTPPipelineBackend.h:
-- the pipeline that sends requests. The rows of the backend's database are a list, which is never in error;
-- what a pipeline puts in its queue of blocks is a list of data. The handlers of partitions are records of
-- functions, files and streams are not modelled, and UUIDs that are made are functions of what they replace.
pub mod Finish
pub mod Collect
pub mod Order
pub mod Schedule
use ios_sdk_develop.Prelude.{
  ℕ, zero, suc, ◌+◌, Bool, true, false, not, ◌&&◌, ◌||◌, Option, none, some, List, [], ◌∷◌, ◌++◌,
  ◌==◌, any, keep, if◌then◌else◌, Text, text_eq, lookup, with_key, without_key,
}
use ios_sdk_develop.Errors.{NsError, request_cancelled, error_with_oc_error}
use ios_sdk_develop.Http.Request.{Request, init}
use ios_sdk_develop.Http.Response.{Response, init_with_request}

-- `OCHTTPPipelineState`.
pub data PipelineState : Type 0 where
  stopped starting started stopping : PipelineState

-- `OCHTTPPipelineTaskState`.
pub data TaskState : Type 0 where
  pending running completed : TaskState

-- `OCHTTPRequestInstruction`.
pub data Instruction : Type 0 where
  deliver reschedule : Instruction

-- `OCHTTPPipelineTask`; the bundle identifier is nil where any process may handle the task. A request can
-- be missing.
pub record Task : Type 0 where
  pub task_id : ℕ
  pub pipeline_id : Text
  pub bundle_id : Option ℕ
  pub url_session_id : Option Text
  pub url_session_task_id : Option ℕ
  pub url_session_task : Option ℕ
  pub partition_id : Option Text
  pub group_id : Option Text
  pub state : TaskState
  pub request_id : Text
  pub request : Request
  pub has_request : Bool
  pub request_final : Bool
  pub response : Option Response
  pub finished : Bool

-- `OCHTTPPipelinePartitionHandler`; the simulation of requests is nil where the handler has none.
pub record PartitionHandler : Type 0 where
  pub meets_signal_requirements : Option (List Text) → Task → Bool × Option NsError
  pub prepare_request_for_scheduling : Request → Option Request
  pub post_process_finished_task : Task → Option NsError → Option NsError
  pub instruction_for_finished_task : Option (Task → Instruction → Option NsError → Instruction)
  pub simulate_request_handling : Option (Request → Bool)
  pub implements : Text → Bool

-- A block in the queue: a look at what can be scheduled, the end of a task, which the block keeps, or the
-- delivery of the results of a partition.
pub data Block : Type 0 where
  schedules : Block
  finishes : Task → Response → Block
  delivers : Text → Block

-- What a receiver of a result gets.
pub data Delivery : Type 0 where
  to_action : Text → Request → Option NsError → Delivery
  to_result_handler : ℕ → Request → Option Response → Option NsError → Delivery

-- `OCHTTPPipeline`; `raised` says that an exception was thrown, after which nothing more is done.
pub record Pipeline : Type 0 where
  pub identifier : Text
  pub bundle_identifier : ℕ
  pub state : PipelineState
  pub maximum_concurrent_requests : ℕ
  pub url_session_identifier : Option Text
  pub url_session_invalidated : Bool
  pub always_use_download_tasks : Bool
  pub partition_handlers : List (Text × PartitionHandler)
  pub partitions_in_destruction : List Text
  pub recently_scheduled_group_ids : List Text
  pub needs_scheduling : Bool
  pub task_ids_in_delivery : List ℕ
  pub tasks : List Task
  pub next_task_id : ℕ
  pub queued : List Block
  pub deliveries : List Delivery
  pub raised : Bool

abbrev pub is_running : TaskState → Bool
is_running pending = false
is_running running = true
is_running completed = false

abbrev pub is_pending : TaskState → Bool
is_pending pending = true
is_pending running = false
is_pending completed = false

abbrev pub is_completed : TaskState → Bool
is_completed pending = false
is_completed running = false
is_completed completed = true

abbrev pub is_started : PipelineState → Bool
is_started stopped = false
is_started starting = false
is_started started = true
is_started stopping = false

-- The rows of the backend. The task's ID is the primary key.
abbrev pub replace_task : Task → List Task → List Task
replace_task t [] = []
replace_task t (u ∷ us) = if u.task_id == t.task_id then t ∷ us else u ∷ replace_task t us

abbrev pub delete_task : ℕ → List Task → List Task
delete_task n = keep (λ t. not (t.task_id == n))

abbrev pub find_task : ℕ → List Task → Option Task
find_task n [] = none
find_task n (t ∷ ts) = if t.task_id == n then some t else find_task n ts

abbrev pub find_request : Text → List Task → Option Task
find_request id [] = none
find_request id (t ∷ ts) = if text_eq t.request_id id then some t else find_request id ts

abbrev pub count_state : (TaskState → Bool) → List Task → ℕ
count_state q [] = 0
count_state q (t ∷ ts) = if q t.state then suc (count_state q ts) else count_state q ts

unfoldable pub add_pipeline_task : Task → Pipeline → Pipeline
add_pipeline_task t p = record p {
  tasks = p.tasks ++ (record t { task_id = p.next_task_id } ∷ []);
  next_task_id = suc p.next_task_id;
}

unfoldable pub update_pipeline_task : Task → Pipeline → Pipeline
update_pipeline_task t p = record p { tasks = replace_task t p.tasks }

unfoldable pub remove_pipeline_task : Task → Pipeline → Pipeline
remove_pipeline_task t p = record p { tasks = delete_task t.task_id p.tasks }

-- `numberOfRequestsWithState:inPipeline:partition:error:`, for no partition.
unfoldable pub number_of_requests_with_state : (TaskState → Bool) → Pipeline → ℕ
number_of_requests_with_state q p = count_state q p.tasks

abbrev pub contains_text : Text → List Text → Bool
contains_text t = any (λ u. text_eq u t)

abbrev pub is_destroyed : Option Text → List Text → Bool
is_destroyed none ps = false
is_destroyed (some partition) ps = contains_text partition ps

unfoldable pub partition_handler_for_partition_id : Option Text → Pipeline → Option PartitionHandler
partition_handler_for_partition_id none p = none
partition_handler_for_partition_id (some id) p = lookup text_eq id p.partition_handlers

abbrev pub enqueue_block : Block → Pipeline → Pipeline
enqueue_block b p = record p { queued = p.queued ++ (b ∷ []) }

unfoldable pub set_pipeline_needs_scheduling : Pipeline → Pipeline
set_pipeline_needs_scheduling p =
    if p.needs_scheduling then p else enqueue_block schedules (record p { needs_scheduling = true })

-- `initWithRequest:pipeline:partition:`.
unfoldable pub init_task : Request → Pipeline → Option Text → Task
init_task r p partition = record {
  task_id = 0;
  pipeline_id = p.identifier;
  bundle_id = some p.bundle_identifier;
  url_session_id = p.url_session_identifier;
  url_session_task_id = none;
  url_session_task = none;
  partition_id = partition;
  group_id = r.group_id;
  state = pending;
  request_id = r.identifier;
  request = r;
  has_request = true;
  request_final = false;
  response = none;
  finished = false;
}

-- `enqueueRequest:forPartitionID:isFinal:`, for a request that is not nil and has its progress.
unfoldable pub enqueue_request : Request → Option Text → Bool → Pipeline → Pipeline
unfolding init_task add_pipeline_task set_pipeline_needs_scheduling
enqueue_request r partition final p =
    let r' : Request = record r {
      download_request = p.always_use_download_tasks || r.download_request;
    } in
    if not (is_started p.state) || is_destroyed partition p.partitions_in_destruction
    then p
    else set_pipeline_needs_scheduling
        (add_pipeline_task (record (init_task r' p partition) { request_final = final }) p)

-- `finishedTask:withResponse:`.
unfoldable pub finished_task_later : Task → Response → Pipeline → Pipeline
finished_task_later t r p = enqueue_block (finishes t r) p

abbrev pub error_response : ℕ → Request → NsError → Response
error_response now r e = init_with_request now r.identifier r.authentication_data_id (some e)

-- A task that ends at once, as it was cancelled.
abbrev pub cancelled_at_once : ℕ → Task → Pipeline → Pipeline
cancelled_at_once now t p =
    finished_task_later t (error_response now t.request (error_with_oc_error request_cancelled []))
      p

abbrev pub mark_cancelled : Task → Task
mark_cancelled t = record t { request = record t.request { cancelled = true } }

-- A task that runs: its URL session task is cancelled where there is one; the row is updated either way,
-- since tasks are objects that the backend's cache shares.
abbrev pub cancel_running : ℕ → Option ℕ → Task → Pipeline → Pipeline
cancel_running now none t p =
    cancelled_at_once now (mark_cancelled t) (update_pipeline_task (mark_cancelled t) p)
cancel_running now (some session_task) t p = update_pipeline_task (mark_cancelled t) p

abbrev pub cancel_by_state : TaskState → ℕ → Task → Pipeline → Pipeline
cancel_by_state pending now t p = cancelled_at_once now t p
cancel_by_state running now t p =
    if t.request.cancelled
    then cancelled_at_once now t p
    else cancel_running now t.url_session_task t p
cancel_by_state completed now t p = p

-- `_cancelTask:`.
unfoldable pub cancel_task : ℕ → Task → Pipeline → Pipeline
cancel_task now t p = cancel_by_state t.state now t p

abbrev pub cancel_found : ℕ → Option Task → Pipeline → Pipeline
cancel_found now none p = p
cancel_found now (some t) p = cancel_task now t p

-- `cancelRequest:`, and the block that it queues, as one.
unfoldable pub cancel_request : ℕ → Text → Pipeline → Pipeline
cancel_request now id p =
    if is_started p.state then cancel_found now (find_request id p.tasks) p else p

abbrev pub cancel_tasks : ℕ → List Task → Pipeline → Pipeline
cancel_tasks now [] p = p
cancel_tasks now (t ∷ ts) p = cancel_tasks now ts (cancel_task now t p)

abbrev pub is_in_partition : Text → Option Text → Bool
is_in_partition partition none = false
is_in_partition partition (some id) = text_eq id partition

abbrev pub is_to_cancel : Text → Bool → Task → Bool
is_to_cancel partition queued_only t =
    is_in_partition partition t.partition_id && (not queued_only || is_pending t.state)

unfoldable pub cancel_requests_for_partition_id : ℕ → Text → Bool → Pipeline → Pipeline
cancel_requests_for_partition_id now partition queued_only p =
    if is_started p.state
    then cancel_tasks now (keep (is_to_cancel partition queued_only) p.tasks) p
    else p

-- `attachPartitionHandler:completionHandler:` of a handler for a partition; one that is attached for the
-- partition is detached before.
unfoldable pub attach_partition_handler : Text → PartitionHandler → Pipeline → Pipeline
unfolding set_pipeline_needs_scheduling
attach_partition_handler id h p = set_pipeline_needs_scheduling (
    enqueue_block (delivers id)
      (record p { partition_handlers = with_key text_eq id h p.partition_handlers }))

unfoldable pub detach_partition_handler_for_partition_id : Text → Pipeline → Pipeline
detach_partition_handler_for_partition_id id p = record p {
  partition_handlers = without_key text_eq id p.partition_handlers;
}

unfoldable pub tasks_pending_delivery_for_partition_id : Option Text → Pipeline → ℕ
tasks_pending_delivery_for_partition_id none p = 0
tasks_pending_delivery_for_partition_id (some id) p =
    count_state is_completed (keep (λ t. is_in_partition id t.partition_id) p.tasks)
