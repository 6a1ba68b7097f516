-- ===== src/Examples/Pipelines.antt =====
-- A pipeline with a task that runs, two tasks of a group and two tasks without a group.
use ios_sdk_develop.Prelude.{
  ℕ, zero, suc, not, ◌==◌, ◌≡◌, ◌≤◌, ◌⊎◌, refl, true, false, none, some, Option, List, [], ◌∷◌,
  Text, codes, arith, length, map,
}
use ios_sdk_develop.Http.Request.{Request, init}
use ios_sdk_develop.Http.Response.{Response, init_with_request}
use ios_sdk_develop.Http.Pipeline.{
  Task, PartitionHandler, Pipeline, started, running, completed, init_task, enqueue_request,
  cancel_request, cancel_task, partition_handler_for_partition_id, is_running, update_pipeline_task,
  finished_task_later,
}
use ios_sdk_develop.Http.Pipeline.Finish.{System, deliver_result_for_task, certificate_judged}
use ios_sdk_develop.Http.Pipeline.Finish.Outcomes.{
  IsDelivered, IsRescheduled, deliver_result_for_task_outcomes,
}
use ios_sdk_develop.Http.Pipeline.Finish.Rejected.{GetsNoError, certificate_judged_without_error}
use ios_sdk_develop.Http.Pipeline.Collect.{Surroundings, default_group_id, collected}
use ios_sdk_develop.Http.Pipeline.Order.{picked_tasks}
use ios_sdk_develop.Http.Pipeline.Schedule.{schedule, run_next}
use ios_sdk_develop.Http.Pipeline.Finish.Busy.{RunsAtMost}
use ios_sdk_develop.Http.Pipeline.Schedule.Slots.{schedule-RunsAtMost}
use ios_sdk_develop.Http.Pipeline.Order.Members.{members}
use ios_sdk_develop.Http.Pipeline.Schedule.Groups.{picked_tasks_one_in_group}
use ios_sdk_develop.Http.Pipeline.Schedule.Beside.{picked_tasks_none_beside_running}
use ios_sdk_develop.Http.Pipeline.Schedule.Priority.{IsRising, picked_tasks-IsRising}
use ios_sdk_develop.Http.Pipeline.Schedule.Cancelled.{IsCancelled, cancel_request_delivers}
use ios_sdk_develop.Cellular.{shared_manager}
use ios_sdk_develop.Examples.{manager}

abbrev system : System
system = record {
  cached_certificate = λ q. none;
  is_url_cancelled = λ e. false;
  info_from = λ e. [];
  new_identifier = λ t. t;
}

abbrev surroundings : Surroundings
surroundings = record {
  system = system;
  now = 100;
  device = record {
    user_defaults = [];
    allow_cellular = true;
    network_available = true;
    is_expensive = false;
  };
  switches = shared_manager 1 2;
  file_size = λ f. 0;
  encoding = record { form = λ ps. []; appending_query_parameters = λ url ps. url };
  user_agent = none;
  new_session_task = λ q. (some 9, none);
}

abbrev handler : PartitionHandler
handler = record {
  meets_signal_requirements = λ signals t. (true, none);
  prepare_request_for_scheduling = λ q. some q;
  post_process_finished_task = λ t e. e;
  instruction_for_finished_task = none;
  simulate_request_handling = none;
  implements = λ action. false;
}

abbrev partition : Text
partition = codes "partition"

abbrev folder_group : Text
folder_group = codes "folder"

abbrev request_of : ℕ → Option Text → ℕ → Request
request_of n group priority = record (init (n ∷ []) n priority) {
  group_id = group;
  ephermal_result_handler = some n;
}

abbrev nothing_yet : Pipeline
nothing_yet = record {
  identifier = codes "pipeline";
  bundle_identifier = 10;
  state = started;
  maximum_concurrent_requests = 3;
  url_session_identifier = none;
  url_session_invalidated = false;
  always_use_download_tasks = false;
  partition_handlers = (partition, handler) ∷ [];
  partitions_in_destruction = [];
  recently_scheduled_group_ids = [];
  needs_scheduling = false;
  task_ids_in_delivery = [];
  tasks = [];
  next_task_id = 5;
  queued = [];
  deliveries = [];
  raised = false;
}

abbrev task_of : ℕ → Option Text → ℕ → Task
task_of n group priority =
    record (init_task (request_of n group priority) nothing_yet (some partition)) { task_id = n }

abbrev runs : Task
runs = record (task_of 1 (some folder_group) 50) { state = running }

abbrev waiting : List Task
waiting = task_of 2 (some folder_group) 50 ∷ (task_of 3 none 70 ∷ (task_of 4 none 30 ∷ []))

abbrev pipeline : Pipeline
pipeline = record nothing_yet { tasks = runs ∷ waiting }

abbrev answer : Response
answer = record (init_with_request 100 (1 ∷ []) none none) {
  certificate = some 8;
  certificate_validation_result = 0;
}

abbrev answered : Task
answered = record runs { state = completed; response = some (record answer { certificate = none }) }

schedule-RunsAtMost_example : RunsAtMost 3 (schedule surroundings (manager true) pipeline).1
unfolding init_task init
schedule-RunsAtMost_example =
    schedule-RunsAtMost surroundings (manager true) pipeline (omega arith) (omega arith)

picked_tasks_one_in_group_example :
    members folder_group
      (picked_tasks [] (collected surroundings (manager true) pipeline).schedulable)
    ≤ 1
picked_tasks_one_in_group_example =
    picked_tasks_one_in_group surroundings (manager true) pipeline folder_group []

picked_tasks_none_beside_running_example :
    members folder_group
      (picked_tasks [] (collected surroundings (manager true) pipeline).schedulable)
    ≡ 0
unfolding init_task init partition_handler_for_partition_id
picked_tasks_none_beside_running_example =
    picked_tasks_none_beside_running surroundings (manager true) pipeline folder_group [] [] waiting
      runs refl refl refl tt (refl, refl)

picked_tasks-IsRising_example :
    IsRising
      (picked_tasks [] ((default_group_id, task_of 3 none 70 ∷ (task_of 4 none 30 ∷ [])) ∷ []))
picked_tasks-IsRising_example =
    picked_tasks-IsRising [] (task_of 3 none 70 ∷ (task_of 4 none 30 ∷ []))

deliver_result_for_task_outcomes_example :
    IsDelivered 1 pipeline (deliver_result_for_task system answered pipeline)
    ⊎ IsRescheduled 1 pipeline (deliver_result_for_task system answered pipeline)
unfolding init_task init init_with_request partition_handler_for_partition_id
deliver_result_for_task_outcomes_example =
    deliver_result_for_task_outcomes system handler answered pipeline refl refl refl

certificate_judged_without_error_example :
    GetsNoError 1 pipeline
      (certificate_judged system 2 false none (record runs { response = some answer }) pipeline)
unfolding init_task init partition_handler_for_partition_id
certificate_judged_without_error_example =
    certificate_judged_without_error system handler (record runs { response = some answer }) answer
      pipeline 2 1 refl refl refl refl refl refl (λ u. refl) refl

cancel_request_delivers_example :
    IsCancelled 2 2 pipeline
      (run_next surroundings (manager true) (cancel_request 100 (2 ∷ []) pipeline)).1
unfolding init_task init partition_handler_for_partition_id
cancel_request_delivers_example =
    cancel_request_delivers surroundings (manager true) handler (task_of 2 (some folder_group) 50)
      (2 ∷ []) 2 pipeline refl refl refl refl refl refl refl refl refl refl (refl, refl, refl)
      (λ u. refl, refl)

-- Two tasks without a group start, the one with the lower number first, beside the one that runs.
three_run :
    map (λ t. is_running t.state) (schedule surroundings (manager true) pipeline).1.tasks
    ≡ true ∷ (false ∷ (true ∷ (true ∷ [])))
unfolding schedule init_task init partition_handler_for_partition_id update_pipeline_task
three_run = refl

-- The task that runs is looked at when its group is blocked already, by a task that has to wait, and so a task
-- that came before is taken up beside it.
abbrev one_has_to_wait : PartitionHandler
one_has_to_wait = record handler {
  meets_signal_requirements = λ signals t. (not (t.task_id == 3), none);
}

abbrev out_of_order : Pipeline
out_of_order = record pipeline {
  partition_handlers = (partition, one_has_to_wait) ∷ [];
  tasks = task_of 2 (some folder_group) 50 ∷ (task_of 3 (some folder_group) 50 ∷ (runs ∷ []));
}

two_of_a_group_run :
    map (λ t. is_running t.state) (schedule surroundings (manager true) out_of_order).1.tasks
    ≡ true ∷ (false ∷ (true ∷ []))
unfolding schedule init_task init partition_handler_for_partition_id update_pipeline_task
two_of_a_group_run = refl

-- A handler that prepares no request: an exception is thrown where the task is updated.
abbrev removes_requests : Pipeline
removes_requests = record pipeline {
  partition_handlers =
      (partition, record handler { prepare_request_for_scheduling = λ q. none }) ∷ [];
  tasks = task_of 3 none 70 ∷ [];
}

request_lost : (schedule surroundings (manager true) removes_requests).1.raised ≡ true
unfolding schedule init_task init partition_handler_for_partition_id update_pipeline_task
request_lost = refl

-- A pending task that is cancelled twice before the queue goes on gets its result twice.
abbrev run_more : ℕ → Pipeline → Pipeline
run_more zero p = p
run_more (suc n) p = run_more n (run_next surroundings (manager true) p).1

cancelled_twice :
    length
      (run_more 3 (
        cancel_request 100 (7 ∷ []) (
          cancel_request 100
            (7 ∷ [])
            (record nothing_yet { tasks = task_of 7 none 50 ∷ [] })))).deliveries
    ≡ 2
unfolding cancel_request run_next init init_task partition_handler_for_partition_id cancel_task
    finished_task_later init_with_request
cancelled_twice = refl

-- A task that is enqueued gets an ID of its own, and is scheduled by the next block.
enqueued :
    map
      (λ t. is_running t.state)
      (run_next surroundings
        (manager true)
        (enqueue_request (request_of 7 none 50) (some partition) false nothing_yet)).1.tasks
    ≡ true ∷ []
unfolding run_next enqueue_request init init_task partition_handler_for_partition_id
enqueued = refl
